-- ===== src/Threads.antt =====
-- src/loops/gthread.c and `cometd_disconnect` of src/cometd.c as two threads on one client: the thread
-- that receives and the application's, in any order of their steps. The processing of the message that a
-- receive gives is one step. Where that message reaches `cometd_process_connect` alone, it is also two, that
-- function's test and what follows it, between which the application may step.
pub mod Safety
pub mod Serving
pub mod Race
pub mod Still
pub mod Receives
pub mod Leaving
pub mod Ending
use c_cometd_client.Prelude.{
  ℕ, ◌+◌, ◌%◌, ◌^◌, ◌≡◌, [], ◌∷◌, Bool, true, false, Option, none, some, ℤ, is_minus_one,
  if◌then◌else◌, done, Cmd, pure, reads, ◌>>=◌, ◌>>◌,
}
use c_cometd_client.Conn.Types.{Code}
use c_cometd_client.Conn.{disconnected, disconnecting, conn_set_state}
use c_cometd_client.State.Types.{thread_null, Subscription, process_connect}
use c_cometd_client.Event.{listener_get}
use c_cometd_client.State.{Env, put_conn}
use c_cometd_client.Msg.{channel_meta_connect, msg_channel, msg_extract_connect}
use c_cometd_client.Client.{
  W, in_state, connect_response, process_msg, process_msg_null, loop_wait, handshake,
}
use c_cometd_client.Receiving.{recv, should_recv, push_inbox, next_backoff}

module _ (env : Env) where
  open env use {json}
  open json use {Node}

  -- Where the receiving thread is: before its loop's test, before its receive, with the connect message
  -- or NULL that it took out, with a message whose handler has tested whether the client is leaving, at
  -- the choice of the next backoff, after the loop, and at its end.
  pub data Receiver : Type 0 where
    testing receiving : ℕ → ℤ → Receiver
    processing : ℕ → Option Node → Receiver
    responding : ℕ → Node → Bool → Receiver
    choosing : ℕ → Receiver
    finishing ended : Receiver

  -- Where the application's call of `cometd_disconnect` is.
  pub data Application : Type 0 where
    idle joining returned : Application

  pub record System : Type 0 where
    pub world : W env
    pub receiver : Receiver
    pub application : Application

  -- The wait, the receive and the push of a round.
  unfoldable pub receive_connect : ℤ → Cmd (W env) (Option Node)
  receive_connect backoff = do
    loop_wait env backoff
    payload ← recv env
    (connect, payload') ← reads (λ w. msg_extract_connect json payload)
    push_inbox env payload'
    pure connect

  -- The end of a round, or of the loop.
  abbrev pub chosen : ℤ × ℕ → Receiver
  chosen (backoff, attempt) =
      if is_minus_one backoff then finishing else testing ((attempt + 1) % 2 ^ 32) backoff

  abbrev pub in_disconnected : W env → W env
  in_disconnected w = put_conn w (conn_set_state w.h.conn disconnected)

  abbrev pub joined : W env → W env
  joined w = record w { h = record w.h { loop = record w.h.loop { thread = thread_null } } }

  abbrev pub at : W env → Receiver → Application → System
  at w r a = record { world = w; receiver = r; application = a }

  -- No extension sees the message, and the subscription of `cometd_process_connect` alone hears it.
  pub record ReachesConnect (w : W env) (msg : Node) : Type 0 where
    pub no_exts : w.h.exts ≡ []
    pub named : msg_channel json (some msg) ≡ some channel_meta_connect
    pub handler : Subscription
    pub handles : handler.callback ≡ process_connect
    pub heard :
        listener_get env.strings w.h.subscriptions channel_meta_connect ≡ done (handler ∷ [])

  -- A step of either thread. `fuel` is that of the handshakes that a response starts.
  pub data Step (fuel : ℕ) : System → System → Type 0 where
    goes_on :
        {w : W env} {a : Application} {attempt : ℕ} {backoff : ℤ}
        → should_recv env w ≡ true
        → Step fuel (at w (testing attempt backoff) a) (at w (receiving attempt backoff) a)
    leaves_loop :
        {w : W env} {a : Application} {attempt : ℕ} {backoff : ℤ}
        → should_recv env w ≡ false
        → Step fuel (at w (testing attempt backoff) a) (at w finishing a)
    receives :
        {w w' : W env} {a : Application} {attempt : ℕ} {backoff : ℤ} {connect : Option Node}
        → receive_connect backoff w ≡ done (connect, w')
        → Step fuel (at w (receiving attempt backoff) a) (at w' (processing attempt connect) a)
    processes :
        {w w' : W env} {a : Application} {attempt : ℕ} {msg msg' : Node} {code : Code}
        → process_msg env (handshake env fuel) msg w ≡ done ((code, msg'), w')
        → Step fuel (at w (processing attempt (some msg)) a) (at w' (choosing attempt) a)
    tests :
        {w : W env} {a : Application} {attempt : ℕ} {msg : Node}
        → ReachesConnect w msg
        → Step fuel
            (at w (processing attempt (some msg)) a)
            (at w (responding attempt msg (in_state env (disconnecting + disconnected) w)) a)
    responds :
        {w w' : W env} {a : Application} {attempt : ℕ} {msg : Node} {leaving : Bool} {code : Code}
        → connect_response env (handshake env fuel) msg leaving w ≡ done (code, w')
        → Step fuel (at w (responding attempt msg leaving) a) (at w' (choosing attempt) a)
    processes_null :
        {w w' : W env} {a : Application} {attempt : ℕ} {code : Code}
        → process_msg_null env (handshake env fuel) w ≡ done (code, w')
        → Step fuel (at w (processing attempt none) a) (at w' (choosing attempt) a)
    chooses :
        {a : Application} (w : W env) (attempt : ℕ)
        → Step fuel (at w (choosing attempt) a) (at w (chosen (next_backoff env fuel attempt w)) a)
    finishes :
        {w : W env} {a : Application}
        → Step fuel (at w finishing a) (at (in_disconnected w) ended a)
    disconnects :
        {w : W env} {r : Receiver} → Step fuel (at w r idle) (at (in_disconnected w) r joining)
    joins : {w : W env} → Step fuel (at w ended joining) (at (joined w) ended returned)

  -- Any number of steps.
  pub data Steps (fuel : ℕ) : System → System → Type 0 where
    none_more : {s : System} → Steps fuel s s
    one_more : {s t u : System} → Step fuel s t → Steps fuel t u → Steps fuel s u
