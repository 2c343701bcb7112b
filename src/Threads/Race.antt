-- ===== src/Threads/Race.antt =====
-- `cometd_disconnect` between the test of a connect response's handler and what follows it.
use c_cometd_client.Prelude.{
  ℕ, ◌+◌, ◌≡◌, ◌∙◌, refl, sym, subst, arith, true, false, some, none, Bool, Option, ℤ, pos, done,
  done-injective,
}
use c_cometd_client.Conn.Types.{Code}
use c_cometd_client.Conn.{disconnected, disconnecting, connected, conn_set_state}
use c_cometd_client.State.{Env}
use c_cometd_client.Msg.{channel_meta_connect, msg_channel, msg_advice, msg_is_successful}
use c_cometd_client.Client.{W, in_state, handshake, connect_response, process_msg}
use c_cometd_client.Receiving.{should_recv}
use c_cometd_client.Receiving.Serving.{
  IsServing, IsListening, process_msg-served, reply, served_round, served_round-IsListening,
  connected_receives, connected_stays,
}
use c_cometd_client.Threads.{
  Receiver, testing, receiving, processing, responding, choosing, finishing, ended, idle, joining,
  System, at, in_disconnected, receive_connect, Step, Steps, goes_on, leaves_loop, receives,
  processes, tests, responds, processes_null, chooses, finishes, disconnects, joins, none_more,
  one_more,
}
use c_cometd_client.Threads.Serving.{
  Steps-append, received, receive-Steps, respond-Steps, receive_connect-received,
  received-IsListening, received-stays, connect_response-succeeds, responded, chosen-connected,
}

module _ (env : Env) (s : IsServing env) where
  open env use {json}
  open json use {Node}

  race-Steps :
      (fuel attempt : ℕ) (backoff : ℤ) (w : W env)
      → IsListening env w
      → should_recv env w ≡ true
      → in_state env (disconnecting + disconnected) w ≡ false
      → Steps env fuel
          (at env w (testing attempt backoff) idle)
          (at env (served_round env s backoff w) (testing 1 (pos 0)) joining)
  unfolding conn_set_state
  race-Steps fuel attempt backoff w p receiving_now staying =
      let r = reply env s w in
      Steps-append env fuel
        (receive-Steps env s fuel attempt backoff w idle p receiving_now staying)
        (one_more disconnects (
          respond-Steps env s fuel attempt r.connect
            (in_disconnected env (received env s backoff w)) joining r.calm r.ok))

  -- Where the receiving thread stands, once the state was set back to connected.
  abbrev Going : W env → Receiver env → Type 0
  Going w (testing attempt backoff) =
      IsListening env w
      × (should_recv env w ≡ true)
      × (in_state env (disconnecting + disconnected) w ≡ false)
  Going w (receiving attempt backoff) =
      IsListening env w × (in_state env (disconnecting + disconnected) w ≡ false)
  Going w (processing attempt none) = ⊥
  Going w (processing attempt (some msg)) =
      IsListening env w
      × (in_state env (disconnecting + disconnected) w ≡ false)
      × (msg_channel json (some msg) ≡ some channel_meta_connect)
      × (msg_advice json msg ≡ done none)
      × (msg_is_successful json msg ≡ true)
  Going w (responding attempt msg leaving) =
      IsListening env w
      × (leaving ≡ false)
      × (msg_advice json msg ≡ done none)
      × (msg_is_successful json msg ≡ true)
  Going w (choosing attempt) = IsListening env w × (w.h.conn.state ≡ connected)
  Going w finishing = ⊥
  Going w ended = ⊥

  Doomed : System env → Type 0
  Doomed t = (t.application ≡ joining) × Going t.world t.receiver

  responded-IsListening : (w : W env) → IsListening env w → IsListening env (responded env s w)
  responded-IsListening w p = record {
    no_exts = p.no_exts;
    waits = p.waits;
    polls = p.polls;
    handler = p.handler;
    handles = p.handles;
    heard = p.heard;
  }

  receives-Going :
      (attempt : ℕ) (backoff : ℤ) (w w' : W env) (connect : Option Node)
      → IsListening env w
      → in_state env (disconnecting + disconnected) w ≡ false
      → receive_connect env backoff w ≡ done (connect, w')
      → Going w' (processing attempt connect)
  receives-Going attempt backoff w w' connect p staying e =
      let r = reply env s w in
      subst (λ q. Going q.1 (processing attempt q.0))
        (done-injective _ _ (sym (receive_connect-received env s backoff w p) ∙ e))
        (
          received-IsListening env s backoff w p,
          received-stays env s backoff w staying,
          r.split.connect,
          r.calm,
          r.ok,
        )

  processes-Going :
      (fuel attempt : ℕ) (msg msg' : Node) (w w' : W env) (code : Code)
      → IsListening env w
      → in_state env (disconnecting + disconnected) w ≡ false
      → msg_channel json (some msg) ≡ some channel_meta_connect
      → msg_advice json msg ≡ done none
      → msg_is_successful json msg ≡ true
      → process_msg env (handshake env fuel) msg w ≡ done ((code, msg'), w')
      → Going w' (choosing attempt)
  processes-Going fuel attempt msg msg' w w' code p stays named calm ok e =
      subst (λ q. Going q.1 (choosing attempt))
        (done-injective _ _ (sym (process_msg-served env s fuel msg w p stays named calm ok) ∙ e))
        (responded-IsListening w p, refl)

  responds-Going :
      (fuel attempt : ℕ) (msg : Node) (leaving : Bool) (w w' : W env) (code : Code)
      → IsListening env w
      → leaving ≡ false
      → msg_advice json msg ≡ done none
      → msg_is_successful json msg ≡ true
      → connect_response env (handshake env fuel) msg leaving w ≡ done (code, w')
      → Going w' (choosing attempt)
  responds-Going fuel attempt msg true w w' code p stays calm ok e = absurd (ground arith)
  responds-Going fuel attempt msg false w w' code p stays calm ok e =
      subst (λ q. Going q.1 (choosing attempt))
        (done-injective _ _ (sym (connect_response-succeeds env fuel msg w calm ok) ∙ e))
        (responded-IsListening w p, refl)

  Step-Doomed : (fuel : ℕ) (t u : System env) → Step env fuel t u → Doomed t → Doomed u
  unfolding Doomed
  Step-Doomed fuel t u (goes_on e) (j, (p, more, stays)) = (j, (p, stays))
  Step-Doomed fuel t u (leaves_loop e) (j, (p, more, stays)) = absurd (ground arith)
  Step-Doomed fuel t u (receives {attempt = n} e) (j, (p, stays)) =
      (j, receives-Going n _ _ _ _ p stays e)
  Step-Doomed fuel t u (processes {attempt = n} e) (j, (p, stays, named, calm, ok)) =
      (j, processes-Going fuel n _ _ _ _ _ p stays named calm ok e)
  Step-Doomed fuel t u (tests r) (j, (p, stays, named, calm, ok)) = (j, (p, stays, calm, ok))
  Step-Doomed fuel t u (responds {attempt = n} e) (j, (p, stays, calm, ok)) =
      (j, responds-Going fuel n _ _ _ _ _ p stays calm ok e)
  Step-Doomed fuel t u (processes_null e) (j, h) = absurd h
  Step-Doomed fuel t u (chooses w attempt) (j, (p, e)) = (
    j,
    subst (Going w) (sym (chosen-connected env s fuel attempt w e))
        (p, connected_receives env s fuel w e, connected_stays env s fuel w e),
  )
  Step-Doomed fuel t u finishes (j, h) = absurd h
  Step-Doomed fuel t u disconnects (j, h) = absurd (ground arith)
  Step-Doomed fuel t u joins (j, h) = absurd h

  Steps-Doomed : (fuel : ℕ) (t u : System env) → Steps env fuel t u → Doomed t → Doomed u
  Steps-Doomed fuel t u none_more h = h
  Steps-Doomed fuel t u (one_more step steps) h =
      Steps-Doomed fuel _ u steps (Step-Doomed fuel t _ step h)

  -- The server answers every request with a payload whose messages all name a channel and whose last
  -- connect message is a successful response without advice. The client receives by long polling, waits
  -- by usleep, has no extension, hears connect responses with its own handler alone, and is in a state in
  -- which it receives and not leaving.
  -- Then there is an order of the steps of the receiving thread and of a call of `cometd_disconnect`
  -- that does not wait for the server after which the state is connected while the call joins the
  -- thread, and the call does not return, whatever steps follow.
  pub disconnect-hangs :
      (fuel attempt : ℕ) (backoff : ℤ) (w : W env)
      → IsListening env w
      → should_recv env w ≡ true
      → in_state env (disconnecting + disconnected) w ≡ false
      → (t : System env) × Steps env fuel (at env w (testing attempt backoff) idle) t
        × (t.world.h.conn.state ≡ connected)
        × (t.application ≡ joining)
        × ((u : System env) → Steps env fuel t u → u.application ≡ joining)
  unfolding Doomed
  disconnect-hangs fuel attempt backoff w p more staying =
      let w' = served_round env s backoff w in
      let t = at env w' (testing 1 (pos 0)) joining in
      let doomed : Doomed t = (
        refl,
        (
          served_round-IsListening env s fuel backoff w p,
          connected_receives env s fuel w' refl,
          connected_stays env s fuel w' refl,
        ),
      ) in
      (
        t,
        race-Steps fuel attempt backoff w p more staying,
        refl,
        refl,
        λ u steps. (Steps-Doomed fuel t u steps doomed).0,
      )
