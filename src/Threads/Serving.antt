-- ===== src/Threads/Serving.antt =====
-- The steps of the receiving thread while the server answers each connect request.
use c_cometd_client.Prelude.{
  ℕ, ◌+◌, ◌≡◌, ◌∙◌, refl, ap, subst, true, false, some, none, pure, ℤ, pos, done, and_then_step,
  and_then-reads,
}
use c_cometd_client.Conn.Types.{success}
use c_cometd_client.Conn.{
  disconnected, disconnecting, connected, conn_set_state, conn_is_state, conn_state,
}
use c_cometd_client.State.{Env, put_conn}
use c_cometd_client.Msg.{
  channel_meta_connect, msg_channel, msg_extract_connect, msg_advice, msg_is_successful,
}
use c_cometd_client.Inbox.{inbox_push}
use c_cometd_client.Client.{W, in_state, connect_response, handshake}
use c_cometd_client.Client.Waiting.{slept, loop_wait-gthread}
use c_cometd_client.Client.Process.{connect_result}
use c_cometd_client.Receiving.{should_recv, next_backoff}
use c_cometd_client.Receiving.Serving.{
  IsServing, IsListening, extracted, push_inbox-served, reply, replied, served_round, recv-served,
  next_backoff-connected,
}
use c_cometd_client.Threads.{
  testing, processing, responding, choosing, Application, System, chosen, at, receive_connect, Step,
  ReachesConnect, Steps, goes_on, receives, tests, responds, chooses, none_more, one_more,
}

module _ (env : Env) where
  open env use {json}
  open json use {Node, get_elements}

  pub connect_response-succeeds :
      (fuel : ℕ) (msg : Node) (w : W env)
      → msg_advice json msg ≡ done none
      → msg_is_successful json msg ≡ true
      → connect_response env (handshake env fuel) msg false w
        ≡ done (success, put_conn w (connect_result w.h.conn none true))
  unfolding conn_set_state
  connect_response-succeeds fuel msg w calm ok = simp (calm, ok)

  pub Steps-append :
      (fuel : ℕ) {s t u : System env} → Steps env fuel s t → Steps env fuel t u → Steps env fuel s u
  Steps-append fuel none_more more = more
  Steps-append fuel (one_more step steps) more = one_more step (Steps-append fuel steps more)

  module _ (s : IsServing env) where
    -- The client that has received, before it processes the connect response.
    abbrev pub received : ℤ → W env → W env
    received backoff w =
        let w₁ = record w { sleeps = slept backoff w.sleeps } in
        let w₂ = replied env s w₁ in
        record w₂ { h = record w₂.h { inbox = inbox_push w.h.inbox (reply env s w₁).others } }

    pub receive_connect-received :
        (backoff : ℤ) (w : W env)
        → IsListening env w
        → receive_connect env backoff w ≡ done (some (reply env s w).connect, received backoff w)
    unfolding receive_connect
    receive_connect-received backoff w p =
        let w₁ = record w { sleeps = slept backoff w.sleeps } in
        let r = reply env s w₁ in
        and_then_step _ (loop_wait-gthread env backoff w p.waits)
        ∙ and_then_step _ (recv-served env s w₁ p.polls)
        ∙ and_then-reads (λ (w : W env). msg_extract_connect json r.payload) (replied env s w₁)
            (some r.connect, json.take_array r.others) _ (extracted env s r)
        ∙ and_then_step (λ _. pure (some r.connect))
            (push_inbox-served env s r.others (replied env s w₁))

    pub received-IsListening :
        (backoff : ℤ) (w : W env) → IsListening env w → IsListening env (received backoff w)
    received-IsListening backoff w p = record {
      no_exts = p.no_exts;
      waits = p.waits;
      polls = p.polls;
      handler = p.handler;
      handles = p.handles;
      heard = p.heard;
    }

    pub received-stays :
        (backoff : ℤ) (w : W env)
        → in_state env (disconnecting + disconnected) w ≡ false
        → in_state env (disconnecting + disconnected) (received backoff w) ≡ false
    unfolding conn_is_state conn_state
    received-stays backoff w h = h

    pub chosen-connected :
        (fuel attempt : ℕ) (w : W env)
        → w.h.conn.state ≡ connected
        → chosen env (next_backoff env fuel attempt w) ≡ testing 1 (pos 0)
    chosen-connected fuel attempt w e =
        ap (chosen env) (next_backoff-connected env s fuel attempt w e)

    abbrev pub responded : W env → W env
    responded w = put_conn w (connect_result w.h.conn none true)

    -- From the test of the response's handler to the loop's next test.
    pub respond-Steps :
        (fuel attempt : ℕ) (msg : Node) (w : W env) (a : Application env)
        → msg_advice json msg ≡ done none
        → msg_is_successful json msg ≡ true
        → Steps env fuel
            (at env w (responding attempt msg false) a)
            (at env (responded w) (testing 1 (pos 0)) a)
    respond-Steps fuel attempt msg w a calm ok =
        one_more (responds (connect_response-succeeds fuel msg w calm ok)) (
          one_more
            (subst
              (λ r.
                Step env fuel (at env (responded w) (choosing attempt) a)
                  (at env (responded w) r a))
              (chosen-connected fuel attempt (responded w) refl) (chooses (responded w) attempt))
            none_more)

    abbrev pub reaches :
        (w : W env) (msg : Node)
        → IsListening env w
        → msg_channel json (some msg) ≡ some channel_meta_connect
        → ReachesConnect env w msg
    reaches w msg p named = record {
      no_exts = p.no_exts;
      named = named;
      handler = p.handler;
      handles = p.handles;
      heard = p.heard;
    }

    -- From the loop's test to the choice of the response's handler not to leave.
    pub receive-Steps :
        (fuel attempt : ℕ) (backoff : ℤ) (w : W env) (a : Application env)
        → IsListening env w
        → should_recv env w ≡ true
        → in_state env (disconnecting + disconnected) w ≡ false
        → Steps env fuel
            (at env w (testing attempt backoff) a)
            (at env (received backoff w) (responding attempt (reply env s w).connect false) a)
    receive-Steps fuel attempt backoff w a p receiving_now staying =
        let v = received backoff w in
        let msg = (reply env s w).connect in
        one_more (goes_on receiving_now) (
          one_more (receives (receive_connect-received backoff w p)) (
            one_more
              (subst
                (λ b.
                  Step env fuel (at env v (processing attempt (some msg)) a)
                    (at env v (responding attempt msg b) a))
                (received-stays backoff w staying)
                (tests
                  (reaches v msg (received-IsListening backoff w p) (reply env s w).split.connect)))
              none_more))

    -- A round of the loop, with the application where it was.
    pub round-Steps :
        (fuel attempt : ℕ) (backoff : ℤ) (w : W env) (a : Application env)
        → IsListening env w
        → should_recv env w ≡ true
        → in_state env (disconnecting + disconnected) w ≡ false
        → Steps env fuel
            (at env w (testing attempt backoff) a)
            (at env (served_round env s backoff w) (testing 1 (pos 0)) a)
    round-Steps fuel attempt backoff w a p receiving_now staying =
        let r = reply env s w in
        Steps-append fuel (receive-Steps fuel attempt backoff w a p receiving_now staying)
          (respond-Steps fuel attempt r.connect (received backoff w) a r.calm r.ok)
