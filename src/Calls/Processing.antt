-- ===== src/Calls/Processing.antt =====
-- The processing of messages, the sending of one, and the handshake of src/cometd.c.
use c_cometd_client.Prelude.{
  ℕ, ◌≡◌, arith, Bool, true, false, String, List, [], ◌∷◌, Option, none, some, done, Cmd, pure,
  ◌>>=◌, Keeps, keeps_rules, Keeps-bind, Keeps-modify, Keeps-if, Keeps-reads, Keeps-pure,
  Keeps-write, done-injective, subst, if◌then◌else◌,
}
use c_cometd_client.Conn.Types.{
  Code, success, unknown, unsuccessful, SendCallback, long_polling_send, foreign_send, Advice,
  Transport, Conn, is_success,
}
use c_cometd_client.Conn.{
  advice_is_handshake, conn_take_advice, conn_set_transport, conn_set_client_id, conn_set_state,
  handshake_success, connected, unconnected,
}
use c_cometd_client.State.Types.{
  Callback, process_handshake, process_connect, foreign, Subscription,
}
use c_cometd_client.State.{Env, put_conn}
use c_cometd_client.Event.{listener_fire, fire_loop, read_callback}
use c_cometd_client.Http.{error}
use c_cometd_client.Client.{
  W, set_session, run_process_handshake, handle_advice, offer_advice, settle, connect_response,
  run_process_connect, run_callback, process_msg, process_msg_null, process_all, process_sync,
  run_send, post, finish, receive_payload, send_msg_sync, impl_handshake,
}
use c_cometd_client.Msg.{msg_client_id, msg_is_successful}
use c_cometd_client.Calls.Sound.{
  IsState, is_handshake_success, is_connected, is_unconnected, ConnSound, ConnSound-IsPreorder,
  Sound, Sound-IsPreorder, put_conn-Sound,
}
use c_cometd_client.Calls.Ids.{on_conn-KeepsSound, new_handshake_message-Keeps}
use c_cometd_client.Receiving.Keeping.{transport_long_polling_send-Keeps}
use c_cometd_client.Calls.Posting.{
  posted-Sound, ForeignSound, error-Keeps, http_post_msg-Keeps, ext_fire-KeepsSound,
  ext_fire_null-KeepsSound,
}

take_advice-ConnSound : (c : Conn) (a : Option Advice) → ConnSound c (conn_take_advice c a)
unfolding conn_take_advice
take_advice-ConnSound c a = record {
  state = λ h. h;
  ids = omega arith;
  transport = λ h. h;
  client_id = λ h. h;
}

set_transport-ConnSound : (c : Conn) (t : Transport) → ConnSound c (conn_set_transport c t)
unfolding conn_set_transport
set_transport-ConnSound c t = record {
  state = λ h. h;
  ids = omega arith;
  transport = λ h e. ground arith;
  client_id = λ h. h;
}

set_state-ConnSound : (c : Conn) (s : ℕ) → IsState s → ConnSound c (conn_set_state c s)
unfolding conn_set_state
set_state-ConnSound c s h = record {
  state = λ k. h;
  ids = omega arith;
  transport = λ t. t;
  client_id = λ i. i;
}

set_client_id-ConnSound :
    (c c' : Conn) (id : Option String)
    → conn_set_client_id c id ≡ done c'
    → ConnSound c (conn_set_state c' handshake_success)
unfolding conn_set_client_id conn_set_state
set_client_id-ConnSound c c' none e = absurd (ground arith)
set_client_id-ConnSound c c' (some id) e =
    subst (λ x. ConnSound c (conn_set_state x handshake_success)) (done-injective _ _ e)
      (record {
        state = λ h. is_handshake_success;
        ids = omega arith;
        transport = λ h. h;
        client_id = λ h d. ground arith;
      })

module _ (env : Env) where
  open env use {json}
  open json use {Node}

  take_advice-Sound :
      (a : Option Advice) (w : W env) → Sound w (put_conn w (conn_take_advice w.h.conn a))
  take_advice-Sound a w = put_conn-Sound w _ (take_advice-ConnSound w.h.conn a)

  pub set_state-Sound :
      (s : ℕ) → IsState s → (w : W env) → Sound w (put_conn w (conn_set_state w.h.conn s))
  set_state-Sound s h w = put_conn-Sound w _ (set_state-ConnSound w.h.conn s h)

  set_session-Keeps : (t : Option Transport) (msg : Node) → Keeps Sound (set_session env t msg)
  set_session-Keeps none msg = search keeps_rules
  set_session-Keeps (some t) msg =
      Keeps-bind _ _ (Keeps-reads (λ w. msg_client_id json msg)) (λ client_id.
        Keeps-bind _ _
          (Keeps-modify _ (λ w. put_conn-Sound w _ (set_transport-ConnSound w.h.conn t)))
          (λ u.
            Keeps-write (λ w. conn_set_client_id w.h.conn client_id) _ success
              (λ w c e. put_conn-Sound w _ (set_client_id-ConnSound w.h.conn c client_id e))))

  module _ (outside : ForeignSound env) (inner : Cmd (W env) Code)
      (inner_keeps : Keeps Sound inner) where
    handle_advice-Keeps : (a : Option Advice) → Keeps Sound (handle_advice env inner a)
    unfolding handle_advice
    handle_advice-Keeps none = search keeps_rules
    handle_advice-Keeps (some advice) =
        Keeps-if (advice_is_handshake advice) (inner >>= λ x. pure tt) (pure tt)
          (search (keeps_rules, inner_keeps)) (Keeps-pure tt)

    offer_advice-Keeps : (a : Option Advice) → Keeps Sound (offer_advice env inner a)
    offer_advice-Keeps none = search keeps_rules
    offer_advice-Keeps (some advice) = Keeps-modify _ (take_advice-Sound (some advice))

    settle-Keeps : (b : Bool) (a : Option Advice) → Keeps Sound (settle env inner b a)
    settle-Keeps true a = Keeps-modify _ (set_state-Sound connected is_connected)
    settle-Keeps false a =
        Keeps-bind _ _ (Keeps-modify _ (set_state-Sound unconnected is_unconnected))
          (λ u. handle_advice-Keeps a)

    connect_response-Keeps :
        (msg : Node) (b : Bool) → Keeps Sound (connect_response env inner msg b)
    connect_response-Keeps msg true = search keeps_rules
    connect_response-Keeps msg false = search (keeps_rules, offer_advice-Keeps, settle-Keeps)

    run_process_connect-Keeps : (msg : Node) → Keeps Sound (run_process_connect env inner msg)
    unfolding run_process_connect
    run_process_connect-Keeps msg = search (keeps_rules, connect_response-Keeps)

    run_process_handshake-Keeps : (msg : Node) → Keeps Sound (run_process_handshake env msg)
    unfolding run_process_handshake
    run_process_handshake-Keeps msg =
        search (keeps_rules, set_session-Keeps, take_advice-Sound) depth 10

    run_callback-Keeps : (msg : Node) (cb : Callback) → Keeps Sound (run_callback env inner msg cb)
    unfolding run_callback
    run_callback-Keeps msg process_handshake = run_process_handshake-Keeps msg
    run_callback-Keeps msg process_connect = run_process_connect-Keeps msg
    run_callback-Keeps msg (foreign n) = outside.callback n msg

    fire_loop-Keeps :
        (is_live : W env → Subscription → Bool) (msg : Node) (list : List Subscription)
        → Keeps Sound (fire_loop is_live (run_callback env inner msg) list)
    unfolding fire_loop
    fire_loop-Keeps is_live msg [] = search keeps_rules
    fire_loop-Keeps is_live msg (s ∷ list) =
        Keeps-bind _ _ (Keeps-reads (read_callback is_live (run_callback env inner msg) s)) (λ cb.
          Keeps-bind _ _ (run_callback-Keeps msg cb) (λ code.
            Keeps-if (is_success code) (fire_loop is_live (run_callback env inner msg) list)
              (pure unknown) (fire_loop-Keeps is_live msg list) (Keeps-pure unknown)))

    listener_fire-Keeps :
        (msg : Node) (channel : Option String)
        → Keeps Sound (
            listener_fire (run_callback env inner msg) env.strings (λ w. w.h.subscriptions) channel)
    unfolding listener_fire
    listener_fire-Keeps msg none = search keeps_rules
    listener_fire-Keeps msg (some channel) = search (keeps_rules, fire_loop-Keeps)

    pub process_msg-Keeps : (msg : Node) → Keeps Sound (process_msg env inner msg)
    unfolding process_msg
    process_msg-Keeps msg =
        search (keeps_rules, ext_fire-KeepsSound env outside, listener_fire-Keeps) depth 10

    pub process_msg_null-Keeps : Keeps Sound (process_msg_null env inner)
    unfolding process_msg_null
    process_msg_null-Keeps = search (keeps_rules, ext_fire_null-KeepsSound env outside)

    process_all-Keeps : (msgs : List Node) → Keeps Sound (process_all env inner msgs)
    unfolding process_all
    process_all-Keeps [] = search keeps_rules
    process_all-Keeps (msg ∷ msgs) =
        Keeps-bind _ _ (process_msg-Keeps msg)
          (λ p. Keeps-bind _ _ (process_all-Keeps msgs) (λ ms. Keeps-pure (p.1 ∷ ms)))

    process_sync-Keeps : (root : Node) → Keeps Sound (process_sync env inner root)
    unfolding process_sync
    process_sync-Keeps root = search (keeps_rules, process_all-Keeps)

    run_send-Keeps : (s : SendCallback) (msg : Node) → Keeps Sound (run_send env inner s msg)
    unfolding run_send
    run_send-Keeps long_polling_send msg =
        transport_long_polling_send-Keeps env Sound Sound-IsPreorder (posted-Sound env) msg
    run_send-Keeps (foreign_send n) msg = outside.send n msg

    post-Keeps : (t : Option Transport) (msg : Node) → Keeps Sound (post env inner t msg)
    post-Keeps none msg = http_post_msg-Keeps env msg
    post-Keeps (some t) msg = run_send-Keeps t.send msg

    finish-Keeps : (r : Code × Node) → Keeps Sound (finish env inner r)
    finish-Keeps (code, payload) =
        Keeps-if (is_success code)
          (pure (if msg_is_successful json payload then success else unsuccessful))
          (error env code "processing error") (Keeps-pure _)
          (error-Keeps env code "processing error")

    receive_payload-Keeps :
        (payload : Option Node) → Keeps Sound (receive_payload env inner payload)
    receive_payload-Keeps none = search keeps_rules
    receive_payload-Keeps (some payload) = Keeps-bind _ _ (process_sync-Keeps payload) finish-Keeps

    pub send_msg_sync-Keeps :
        (msg : Node) (t : Option Transport) → Keeps Sound (send_msg_sync env inner msg t)
    unfolding send_msg_sync
    send_msg_sync-Keeps msg t =
        search (keeps_rules, ext_fire-KeepsSound env outside, post-Keeps, receive_payload-Keeps)
          depth 10

    pub impl_handshake-Keeps : Keeps Sound (impl_handshake env inner)
    unfolding impl_handshake
    impl_handshake-Keeps =
        search (keeps_rules, on_conn-KeepsSound, new_handshake_message-Keeps, send_msg_sync-Keeps)
          depth 10
