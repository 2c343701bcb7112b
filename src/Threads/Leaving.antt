-- ===== src/Threads/Leaving.antt =====
-- The receiving thread once the state is disconnected, away from the test of a connect response's handler.
use c_cometd_client.Prelude.{
  ℕ, ◌+◌, ◌≡◌, ◌≢◌, ◌⊎◌, ◌∙◌, some, none, Option, Outcome, crash, starved, refl, ap, arith, true,
  false, Bool, inl, inr, [], ◌∷◌, ℤ, done, pure, ◌>>◌,
}
use c_cometd_client.Conn.Types.{success, unknown}
use c_cometd_client.Conn.{disconnected, disconnecting, conn_is_state, conn_state}
use c_cometd_client.State.Types.{Subscription, process_connect}
use c_cometd_client.State.{Env}
use c_cometd_client.Ext.{ext_fire_null}
use c_cometd_client.Event.{listener_get}
use c_cometd_client.Msg.{channel_meta_connect}
use c_cometd_client.Msg.Extracting.{IsConnect}
use c_cometd_client.Client.{
  W, in_state, run_callback, run_process_connect, process_msg, process_msg_null, handshake,
}
use c_cometd_client.Client.Dispatch.{process_msg-alone}
use c_cometd_client.Receiving.{should_recv}
use c_cometd_client.Threads.{
  Receiver, testing, receiving, processing, responding, choosing, finishing, ended, Application,
  idle, joining, returned, System, at, in_disconnected, joined, receive_connect, Step, leaves_loop,
  receives, processes, responds, processes_null, chooses, finishes, joins,
}
use c_cometd_client.Threads.Still.{Same}
use c_cometd_client.Threads.Receives.{IsConnectOrNone}

module _ (env : Env) where
  open env use {json}
  open json use {Node}

  -- Past the test of the handler, which found that the client is not leaving.
  abbrev pub is_past : Receiver env → Bool
  is_past (responding attempt msg false) = true
  is_past _ = false

  -- The client has no extension, and the subscription of `cometd_process_connect` alone hears connect
  -- responses.
  pub record HearsConnect (w : W env) : Type 0 where
    pub no_exts : w.h.exts ≡ []
    pub handler : Subscription
    pub handles : handler.callback ≡ process_connect
    pub heard :
        listener_get env.strings w.h.subscriptions channel_meta_connect ≡ done (handler ∷ [])

  -- The message that is processed is a connect message.
  abbrev pub HoldsConnect : Receiver env → Type 0
  HoldsConnect (processing attempt connect) = IsConnectOrNone env connect
  HoldsConnect _ = Unit

  -- The receive of a payload does not end.
  abbrev pub IsStuck : W env → Receiver env → Type 0
  IsStuck w (receiving attempt backoff) =
      (connect : Option Node) (w' : W env) → receive_connect env backoff w ≢ done (connect, w')
  IsStuck w _ = ⊥

  -- The call has set the state, which is not set back.
  pub record Leaving (s : System env) : Type 0 where
    pub state : s.world.h.conn.state ≡ disconnected
    pub called : s.application ≢ idle
    pub before : is_past s.receiver ≡ false
    pub hears : HearsConnect s.world
    pub holds : HoldsConnect s.receiver

  pub HearsConnect-Same : (w w' : W env) → Same w w' → HearsConnect w → HearsConnect w'
  HearsConnect-Same w w' same h = record {
    no_exts = same.exts ∙ h.no_exts;
    handler = h.handler;
    handles = h.handles;
    heard =
        ap (λ table. listener_get env.strings table channel_meta_connect) same.subscriptions
        ∙ h.heard;
  }

  pub HearsConnect-in_disconnected :
      (w : W env) → HearsConnect w → HearsConnect (in_disconnected env w)
  HearsConnect-in_disconnected w h = record {
    no_exts = h.no_exts;
    handler = h.handler;
    handles = h.handles;
    heard = h.heard;
  }

  pub HearsConnect-joined : (w : W env) → HearsConnect w → HearsConnect (joined env w)
  HearsConnect-joined w h = record {
    no_exts = h.no_exts;
    handler = h.handler;
    handles = h.handles;
    heard = h.heard;
  }

  pub receives_no_more : (w : W env) → w.h.conn.state ≡ disconnected → should_recv env w ≡ false
  unfolding should_recv conn_is_state conn_state
  receives_no_more w e = simp e

  pub is_leaving :
      (w : W env)
      → w.h.conn.state ≡ disconnected
      → in_state env (disconnecting + disconnected) w ≡ true
  unfolding conn_is_state conn_state
  is_leaving w e = simp e

  module _ (fuel : ℕ) where
    pub process_msg-quiet :
        (msg : Node) (w : W env)
        → w.h.conn.state ≡ disconnected
        → HearsConnect w
        → IsConnect json msg
        → process_msg env (handshake env fuel) msg w ≡ done ((success, msg), w)
    unfolding run_callback run_process_connect
    process_msg-quiet msg w e h named =
        let quiet : run_callback env (handshake env fuel) msg h.handler.callback w
            ≡ done (success, w) =
          ap (λ c. run_callback env (handshake env fuel) msg c w) h.handles
          ∙ simp (is_leaving w e) in
        process_msg-alone env (handshake env fuel) msg channel_meta_connect h.handler w w success
          h.no_exts named h.heard quiet

    pub process_msg_null-quiet :
        (w : W env)
        → HearsConnect w
        → process_msg_null env (handshake env fuel) w ≡ done (unknown, w)
    unfolding process_msg_null ext_fire_null
    process_msg_null-quiet w h =
        ap (λ exts. (ext_fire_null env exts true >> pure unknown) w) h.no_exts

    moves_on_receive :
        (w : W env) (attempt : ℕ) (backoff : ℤ) (a : Application env)
        (o : Outcome (Option Node × W env))
        → receive_connect env backoff w ≡ o
        → ((u : System env) × Step env fuel (at env w (receiving attempt backoff) a) u)
          ⊎ ((connect : Option Node) (w' : W env)
              → receive_connect env backoff w ≢ done (connect, w'))
    moves_on_receive w attempt backoff a (done (connect, w')) e =
        inl (at env w' (processing attempt connect) a, receives e)
    moves_on_receive w attempt backoff a crash e = inr (λ connect w' d. ground arith)
    moves_on_receive w attempt backoff a starved e = inr (λ connect w' d. ground arith)

    -- What goes on while the call has not returned.
    pub moves_on :
        (w : W env) (r : Receiver env) (a : Application env)
        → Leaving (at env w r a)
        → (a ≡ returned) ⊎ (((u : System env) × Step env fuel (at env w r a) u) ⊎ IsStuck w r)
    moves_on w (testing attempt backoff) a h =
        inr (inl (at env w finishing a, leaves_loop (receives_no_more w h.state)))
    moves_on w (receiving attempt backoff) a h =
        inr (moves_on_receive w attempt backoff a (receive_connect env backoff w) refl)
    moves_on w (processing attempt none) a h =
        inr (inl (at env w (choosing attempt) a, processes_null (process_msg_null-quiet w h.hears)))
    moves_on w (processing attempt (some msg)) a h = inr (
        inl (
          at env w (choosing attempt) a,
          processes (process_msg-quiet msg w h.state h.hears h.holds),
        ))
    moves_on w (responding attempt msg true) a h =
        inr (inl (at env w (choosing attempt) a, responds {code = success} refl))
    moves_on w (responding attempt msg false) a h = absurd (ground (arith, h.before))
    moves_on w (choosing attempt) a h = inr (inl (_, chooses w attempt))
    moves_on w finishing a h = inr (inl (_, finishes))
    moves_on w ended idle h = absurd (h.called refl)
    moves_on w ended joining h = inr (inl (_, joins))
    moves_on w ended returned h = inl refl
