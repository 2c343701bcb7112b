-- ===== src/Receiving/Serving.antt =====
-- The receiving loop of src/loops/gthread.c while the server answers each connect request.
use c_cometd_client.Prelude.{
  ℕ, suc, ◌+◌, ◌%◌, ◌^◌, ◌≡◌, ◌∙◌, refl, ap, String, true, false, none, some, List, All, [], ◌∷◌, ℤ,
  pos, leb, ◌&&◌, is_minus_one, if◌then◌else◌, ◌>>◌, done, Cmd, and_then_step, and_then-reads,
  non_null, pure,
}
use c_cometd_client.Conn.Types.{success}
use c_cometd_client.Conn.{disconnected, disconnecting, connected, conn_is_state, conn_state}
use c_cometd_client.State.Types.{Subscription, process_connect, gthread}
use c_cometd_client.State.{Env, Post, put_conn, lift_conn, performed}
use c_cometd_client.Msg.{
  channel_meta_connect, connect_object, msg_wrap, msg_channel, msg_is_successful, msg_advice,
  msg_extract_connect,
}
use c_cometd_client.Msg.Extracting.{HasChannel, IsLastConnect, msg_extract_connect-last}
use c_cometd_client.Libs.Json.{JsonLaws}
use c_cometd_client.Event.{listener_get}
use c_cometd_client.Http.{transport_long_polling_recv}
use c_cometd_client.Http.Answers.{concat, request, transport_long_polling_send-answers}
use c_cometd_client.Inbox.{inbox_push}
use c_cometd_client.Client.{W, in_state, run_callback, process_msg, handshake}
use c_cometd_client.Client.Waiting.{slept, loop_wait-gthread}
use c_cometd_client.Client.Process.{connect_result, run_process_connect-stays}
use c_cometd_client.Client.Dispatch.{process_msg-alone}
use c_cometd_client.Session.{transport_long_polling}
use c_cometd_client.Receiving.{
  run_recv, or_bad_connect, recv, should_recv, should_retry_recv, push_inbox, process_received,
  next_backoff, gthread_round, gthread_loop,
}
use c_cometd_client.Receiving.Failing.{with_seed, msg_connect_new-some}

module _ (env : Env) where
  open env use {json}
  open json use {Node, get_elements}

  -- A reply to a request: a status from 200 to 299, and a payload whose messages all name a channel, the
  -- last connect message among them being a successful response without advice.
  pub record Served (posts : List Post) (post : Post) : Type 0 where
    pub chunk : String
    pub chunks : List String
    pub code : ℕ
    pub payload : Node
    pub connect : Node
    -- the other messages, in their order
    pub others : List Node
    pub replied : env.perform posts post ≡ performed true code (chunk ∷ chunks)
    pub code_ok : (leb 200 code && leb code 299) ≡ true
    pub loaded : json.load_from_data (concat (chunk ∷ chunks)) ≡ some payload
    pub channels : All (HasChannel json) (get_elements payload)
    pub split : IsLastConnect json (get_elements payload) connect others
    pub ok : msg_is_successful json connect ≡ true
    pub calm : msg_advice json connect ≡ done none

  -- json-glib as it is documented, a generator that prints every message, and a server that serves every
  -- request.
  pub record IsServing : Type 0 where
    pub laws : JsonLaws json
    pub print : Node → String
    pub printed : (n : Node) → json.to_data (some n) ≡ some (print n)
    pub serve : (posts : List Post) (post : Post) → Served posts post

  -- The client receives by long polling, waits by usleep and has no extension, and a connect response is
  -- heard by its own handler alone.
  pub record IsListening (w : W env) : Type 0 where
    pub no_exts : w.h.exts ≡ []
    pub waits : w.h.loop.wait ≡ some gthread
    pub polls : w.h.conn.transport ≡ some transport_long_polling
    pub handler : Subscription
    pub handles : handler.callback ≡ process_connect
    pub heard :
        listener_get env.strings w.h.subscriptions channel_meta_connect ≡ done (handler ∷ [])

  module _ (s : IsServing) where
    -- The next connect request of a client.
    abbrev pub polled : W env → Post
    polled w = request env w (
        s.print (
          msg_wrap json (
            json.take_object (
              connect_object json (pos (w.h.conn.msg_id_seed + 1)) "long-polling"
                w.h.conn.client_id))))

    abbrev pub reply : (w : W env) → Served w.posts (polled w)
    reply w = s.serve w.posts (polled w)

    -- The client that has received the reply.
    abbrev pub replied : W env → W env
    replied w = record w {
      h = record w.h { conn = with_seed json w.h.conn (w.h.conn.msg_id_seed + 1) };
      posts = polled w ∷ w.posts;
    }

    -- The client after a round.
    abbrev pub served_round : ℤ → W env → W env
    served_round backoff w = record w {
      h = record w.h {
        conn = record w.h.conn { state = connected; msg_id_seed = w.h.conn.msg_id_seed + 1 };
        inbox = inbox_push w.h.inbox (reply w).others;
      };
      sleeps = slept backoff w.sleeps;
      posts = polled w ∷ w.posts;
    }

    -- What is taken out of a reply, and pushed into the inbox.
    pub extracted :
        {posts : List Post} {post : Post} (r : Served posts post)
        → msg_extract_connect json r.payload ≡ done (some r.connect, json.take_array r.others)
    extracted r = msg_extract_connect-last json r.payload r.connect r.others r.channels r.split

    pub push_inbox-served :
        (msgs : List Node) (w : W env)
        → push_inbox env (json.take_array msgs) w
          ≡ done (tt, record w { h = record w.h { inbox = inbox_push w.h.inbox msgs } })
    push_inbox-served msgs w = rw (s.laws.get-take_array msgs) refl

    pub recv-served :
        (w : W env)
        → w.h.conn.transport ≡ some transport_long_polling
        → recv env w ≡ done ((reply w).payload, replied w)
    unfolding recv run_recv transport_long_polling_recv
    recv-served w polls =
        let r = reply w in
        let connect = json.take_object (
          connect_object json (pos (w.h.conn.msg_id_seed + 1)) "long-polling" w.h.conn.client_id) in
        let w₁ = put_conn w (with_seed json w.h.conn (w.h.conn.msg_id_seed + 1)) in
        and_then-reads (λ (w : W env). non_null w.h.conn.transport) w transport_long_polling _
          (ap non_null polls)
        ∙ and_then_step (or_bad_connect env) (
            and_then_step _
              (ap (lift_conn w) (msg_connect_new-some json w.h.conn transport_long_polling polls))
            ∙ transport_long_polling_send-answers env (msg_wrap json connect) r.payload
                (s.print (msg_wrap json connect)) r.chunk r.chunks r.code w₁
                (s.printed (msg_wrap json connect)) r.replied r.code_ok r.loaded)

    module _ (fuel : ℕ) where
      run_callback-served :
          (connect : Node) (h : Subscription) (w : W env)
          → h.callback ≡ process_connect
          → in_state env (disconnecting + disconnected) w ≡ false
          → msg_advice json connect ≡ done none
          → msg_is_successful json connect ≡ true
          → run_callback env (handshake env fuel) connect h.callback w
            ≡ done (success, put_conn w (connect_result w.h.conn none true))
      unfolding run_callback
      run_callback-served connect h w handles staying calm ok =
          ap (λ c. run_callback env (handshake env fuel) connect c w) handles
          ∙ run_process_connect-stays env (handshake env fuel) connect w none staying calm
              (λ fails. refl)
          ∙ ap (λ b. done (success, put_conn w (connect_result w.h.conn none b))) ok

      pub process_msg-served :
          (connect : Node) (w : W env)
          → IsListening w
          → in_state env (disconnecting + disconnected) w ≡ false
          → msg_channel json (some connect) ≡ some channel_meta_connect
          → msg_advice json connect ≡ done none
          → msg_is_successful json connect ≡ true
          → process_msg env (handshake env fuel) connect w
            ≡ done ((success, connect), put_conn w (connect_result w.h.conn none true))
      process_msg-served connect w p staying named calm ok =
          process_msg-alone env (handshake env fuel) connect channel_meta_connect p.handler w
            (put_conn w (connect_result w.h.conn none true)) success p.no_exts named p.heard
            (run_callback-served connect p.handler w p.handles staying calm ok)

      process_received-served :
          (connect : Node) (w : W env)
          → IsListening w
          → in_state env (disconnecting + disconnected) w ≡ false
          → msg_channel json (some connect) ≡ some channel_meta_connect
          → msg_advice json connect ≡ done none
          → msg_is_successful json connect ≡ true
          → process_received env fuel (some connect) w
            ≡ done (tt, put_conn w (connect_result w.h.conn none true))
      process_received-served connect w p staying named calm ok =
          and_then_step _ (process_msg-served connect w p staying named calm ok)

      pub next_backoff-connected :
          (attempt : ℕ) (w : W env)
          → w.h.conn.state ≡ connected
          → next_backoff env fuel attempt w ≡ (pos 0, 0)
      unfolding should_retry_recv conn_is_state conn_state
      next_backoff-connected attempt w e = simp e

      abbrev after : (ℕ → ℤ → Cmd (W env) (Unit {0})) → ℕ → Cmd (W env) (Unit {0})
      after rest attempt w =
          let (backoff', attempt') = next_backoff env fuel attempt w in
          (if is_minus_one backoff' then pure tt else rest ((attempt' + 1) % 2 ^ 32) backoff') w

      gthread_round-serves :
          (rest : ℕ → ℤ → Cmd (W env) (Unit {0})) (attempt : ℕ) (backoff : ℤ) (w : W env)
          → IsListening w
          → in_state env (disconnecting + disconnected) w ≡ false
          → gthread_round env fuel rest attempt backoff w ≡ rest 1 (pos 0) (served_round backoff w)
      unfolding gthread_round conn_is_state conn_state
      gthread_round-serves rest attempt backoff w p staying =
          let w₁ = record w { sleeps = slept backoff w.sleeps } in
          let r = reply w₁ in
          let w₂ = replied w₁ in
          let w₃ = record w₂ { h = record w₂.h { inbox = inbox_push w.h.inbox r.others } } in
          let p₃ : IsListening w₃ = record {
            no_exts = p.no_exts;
            waits = p.waits;
            polls = p.polls;
            handler = p.handler;
            handles = p.handles;
            heard = p.heard;
          } in
          and_then_step _ (loop_wait-gthread env backoff w p.waits)
          ∙ and_then_step _ (recv-served w₁ p.polls)
          ∙ and_then-reads (λ (w : W env). msg_extract_connect json r.payload) w₂
              (some r.connect, json.take_array r.others) _ (extracted r)
          ∙ and_then_step (λ _. process_received env fuel (some r.connect) >> after rest attempt)
              (push_inbox-served r.others w₂)
          ∙ and_then_step (λ _. after rest attempt)
              (process_received-served r.connect w₃ p₃ staying r.split.connect r.calm r.ok)
          ∙ rw (next_backoff-connected attempt (served_round backoff w) refl) refl

      pub served_round-IsListening :
          (backoff : ℤ) (w : W env) → IsListening w → IsListening (served_round backoff w)
      served_round-IsListening backoff w p = record {
        no_exts = p.no_exts;
        waits = p.waits;
        polls = p.polls;
        handler = p.handler;
        handles = p.handles;
        heard = p.heard;
      }

      pub connected_receives : (w : W env) → w.h.conn.state ≡ connected → should_recv env w ≡ true
      unfolding should_recv conn_is_state conn_state
      connected_receives w e = simp e

      pub connected_stays :
          (w : W env)
          → w.h.conn.state ≡ connected
          → in_state env (disconnecting + disconnected) w ≡ false
      unfolding conn_is_state conn_state
      connected_stays w e = simp e

      pub gthread_loop-serves_one :
          (rounds attempt : ℕ) (backoff : ℤ) (w : W env)
          → IsListening w
          → should_recv env w ≡ true
          → in_state env (disconnecting + disconnected) w ≡ false
          → gthread_loop env fuel (suc rounds) attempt backoff w
            ≡ gthread_loop env fuel rounds 1 (pos 0) (served_round backoff w)
      unfolding gthread_loop
      gthread_loop-serves_one rounds attempt backoff w p receiving staying =
          rw receiving
            (gthread_round-serves (gthread_loop env fuel rounds) attempt backoff w p staying)
