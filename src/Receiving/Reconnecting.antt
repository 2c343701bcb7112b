-- ===== src/Receiving/Reconnecting.antt =====
-- The receiving loop of src/loops/gthread.c while the server cannot be reached.
use c_cometd_client.Prelude.{
  ℕ, ◌+◌, ◌%◌, ◌^◌, ◌≡◌, ◌∙◌, refl, ap, String, false, Option, none, some, List, [], ◌∷◌, ◌>>◌, ℤ,
  is_minus_one, if◌then◌else◌, done, Cmd, and_then_step, and_then-reads, pure,
}
use c_cometd_client.Libs.Json.{JsonLaws}
use c_cometd_client.Conn.Types.{success, Advice}
use c_cometd_client.Conn.{disconnected, disconnecting, unconnected, conn_is_state, conn_state}
use c_cometd_client.State.Types.{Subscription, Config, gthread, process_connect}
use c_cometd_client.State.{Env, Post, put_conn}
use c_cometd_client.Msg.{channel_meta_connect, msg_wrap, msg_extract_connect}
use c_cometd_client.Event.{listener_get}
use c_cometd_client.Http.Failures.{IsUnreachable}
use c_cometd_client.Inbox.{inbox_push}
use c_cometd_client.Client.{W, in_state, run_callback, handshake}
use c_cometd_client.Client.Waiting.{slept, loop_wait-gthread}
use c_cometd_client.Client.Process.{connect_result, run_process_connect-stays}
use c_cometd_client.Client.Dispatch.{process_msg-alone}
use c_cometd_client.Session.{transport_long_polling}
use c_cometd_client.Receiving.{push_inbox, process_received, next_backoff, gthread_round}
use c_cometd_client.Receiving.Failing.{
  bad_connect, bad_connect_channel, bad_connect_fails, bad_connect_advice,
  msg_extract_connect-msg_wrap, unanswered, recv-fails,
}

module _ (env : Env) where
  open env use {json}

  -- The client receives by long polling with this client id and advice, waits by usleep, has no extension,
  -- and a connect response is heard by its own handler alone.
  pub record IsPolling (client : String) (advice : Option Advice) (config : Config) (w : W env)
      : Type 0 where
    pub no_exts : w.h.exts ≡ []
    pub waits : w.h.loop.wait ≡ some gthread
    pub polls : w.h.conn.transport ≡ some transport_long_polling
    pub named : w.h.conn.client_id ≡ some client
    pub advised : w.h.conn.advice ≡ advice
    pub configured : w.h.config ≡ config
    pub handler : Subscription
    pub handles : handler.callback ≡ process_connect
    pub heard :
        listener_get env.strings w.h.subscriptions channel_meta_connect ≡ done (handler ∷ [])

  -- The world after a round whose receive failed.
  abbrev pub failed_round : ℤ → W env → List Post → W env
  failed_round backoff w posts = record w {
    h = record w.h {
      conn = record w.h.conn { state = unconnected; msg_id_seed = w.h.conn.msg_id_seed + 1 + 1 };
    };
    sleeps = slept backoff w.sleeps;
    posts = posts;
  }

  -- What the loop does after a round.
  abbrev pub after_round : (ℕ → ℤ → Cmd (W env) (Unit {0})) → ℤ × ℕ → Cmd (W env) (Unit {0})
  after_round rest (backoff, attempt) =
      if is_minus_one backoff then pure tt else rest ((attempt + 1) % 2 ^ 32) backoff

  module _ (laws : JsonLaws env.json) (unreachable : IsUnreachable env) (fuel : ℕ) where
    pub failed_round-IsPolling :
        (client : String) (advice : Option Advice) (config : Config) (backoff : ℤ) (w : W env)
        (posts : List Post)
        → IsPolling client advice config w
        → IsPolling client advice config (failed_round backoff w posts)
    failed_round-IsPolling client advice config backoff w posts p = record {
      no_exts = p.no_exts;
      waits = p.waits;
      polls = p.polls;
      named = p.named;
      advised = p.advised;
      configured = p.configured;
      handler = p.handler;
      handles = p.handles;
      heard = p.heard;
    }

    -- The handler of connect responses, on the message that stands for a failed receive.
    run_callback-bad_connect :
        (id : ℕ) (client : String) (s : Subscription) (w : W env)
        → s.callback ≡ process_connect
        → in_state env (disconnecting + disconnected) w ≡ false
        → run_callback env
            (handshake env fuel)
            (bad_connect json id "long-polling" client)
            s.callback
            w
          ≡ done (success, put_conn w (connect_result w.h.conn none false))
    unfolding run_callback
    run_callback-bad_connect id client s w handles staying =
        let msg = bad_connect json id "long-polling" client in
        ap (λ c. run_callback env (handshake env fuel) msg c w) handles
        ∙ run_process_connect-stays env (handshake env fuel) msg w none staying
            (bad_connect_advice json laws id "long-polling" client) (λ fails. refl)
        ∙ ap (λ b. done (success, put_conn w (connect_result w.h.conn none b)))
            (bad_connect_fails json laws id "long-polling" client)

    process_received-bad_connect :
        (id : ℕ) (client : String) (advice : Option Advice) (config : Config) (w : W env)
        → IsPolling client advice config w
        → in_state env (disconnecting + disconnected) w ≡ false
        → process_received env fuel (some (bad_connect json id "long-polling" client)) w
          ≡ done (tt, put_conn w (connect_result w.h.conn none false))
    process_received-bad_connect id client advice config w p staying =
        let msg = bad_connect json id "long-polling" client in
        and_then_step _ (
          process_msg-alone env (handshake env fuel) msg channel_meta_connect p.handler w
            (put_conn w (connect_result w.h.conn none false)) success p.no_exts
            (bad_connect_channel json laws id "long-polling" client) p.heard
            (run_callback-bad_connect id client p.handler w p.handles staying))

    push_inbox-nil : (w : W env) → push_inbox env (json.take_array []) w ≡ done (tt, w)
    unfolding inbox_push
    push_inbox-nil w =
        ap (λ ms. done (tt, record w { h = record w.h { inbox = inbox_push w.h.inbox ms } }))
          (laws.get-take_array [])

    in_state-unanswered :
        (states : ℕ) (w : W env) (posts : List Post)
        → in_state env states w ≡ false
        → in_state env states (unanswered env w posts) ≡ false
    unfolding conn_is_state conn_state
    in_state-unanswered states w posts h = h

    abbrev ending : (ℕ → ℤ → Cmd (W env) (Unit {0})) → ℕ → Cmd (W env) (Unit {0})
    ending rest attempt w = after_round rest (next_backoff env fuel attempt w) w

    pub gthread_round-fails :
        (rest : ℕ → ℤ → Cmd (W env) (Unit {0})) (attempt : ℕ) (backoff : ℤ) (client : String)
        (advice : Option Advice) (config : Config) (w : W env)
        → IsPolling client advice config w
        → in_state env (disconnecting + disconnected) w ≡ false
        → (posts : List Post) × (gthread_round env fuel rest attempt backoff w
            ≡ after_round rest
                (next_backoff env fuel attempt (failed_round backoff w posts))
                (failed_round backoff w posts))
    unfolding gthread_round
    gthread_round-fails rest attempt backoff client advice config w p staying =
        let w₁ = record w { sleeps = slept backoff w.sleeps } in
        let (posts, run) = recv-fails env laws unreachable w₁ client p.polls p.named in
        let id = w.h.conn.msg_id_seed + 1 + 1 in
        let node = bad_connect json id "long-polling" client in
        let w₂ = unanswered env w₁ posts in
        let p₂ : IsPolling client advice config w₂ = record {
          no_exts = p.no_exts;
          waits = p.waits;
          polls = p.polls;
          named = p.named;
          advised = p.advised;
          configured = p.configured;
          handler = p.handler;
          handles = p.handles;
          heard = p.heard;
        } in
        (
          posts,
          and_then_step _ (loop_wait-gthread env backoff w p.waits)
              ∙ and_then_step _ run
              ∙ and_then-reads (λ (w : W env). msg_extract_connect json (msg_wrap json node)) w₂
                  (some node, json.take_array []) _
                  (msg_extract_connect-msg_wrap json laws node
                    (bad_connect_channel json laws id "long-polling" client))
              ∙ and_then_step (λ _. process_received env fuel (some node) >> ending rest attempt)
                  (push_inbox-nil w₂)
              ∙ and_then_step (λ _. ending rest attempt)
                  (process_received-bad_connect id client advice config w₂ p₂
                    (in_state-unanswered (disconnecting + disconnected) w₁ posts staying)),
        )
