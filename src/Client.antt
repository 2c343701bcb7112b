-- ===== src/Client.antt =====
-- src/cometd.c: the processing of messages, the handshake with its retries, and what the application
-- calls. A message may start a handshake while it is processed, and a handshake processes messages, so
-- the processing takes the handshake as an argument, and the handshake has fuel.
pub mod Process
pub mod Offline
pub mod Online
pub mod Dispatch
pub mod Waiting
use c_cometd_client.Prelude.{
  ℕ, zero, suc, ◌+◌, ◌%◌, ◌^◌, String, Bool, true, false, not, ◌&&◌, Option, none, some, List, [],
  ◌∷◌, ltb, ◌==◌, ℤ, pos, is_minus_one, if◌then◌else◌, Outcome, done, crash, starved, Cmd, pure,
  reads, modify, gets, non_null, ◌>>=◌, ◌>>◌,
}
use c_cometd_client.Libs.Json.{JsonGlib}
use c_cometd_client.Conn.Types.{
  Code, success, unknown, no_transport, unsuccessful, is_success, Transport, SendCallback,
  RecvCallback, long_polling_send, foreign_send, long_polling_recv, foreign_recv, Advice,
}
use c_cometd_client.Conn.{
  disconnected, handshake_success, connected, disconnecting, unconnected, conn_take_advice,
  advice_is_handshake, advice_is_retry, conn_set_transport, conn_set_client_id, conn_set_state,
  conn_is_state,
}
use c_cometd_client.State.Types.{
  Callback, process_handshake, process_connect, foreign, LoopFunc, gthread, foreign_loop,
}
use c_cometd_client.State.{World, Env, put_conn, on_conn}
use c_cometd_client.Msg.{
  msg_is_successful, msg_channel, msg_client_id, msg_supported_connection_types, msg_advice,
  msg_wrap,
}
use c_cometd_client.Event.{listener_fire}
use c_cometd_client.Backoff.{get_backoff}
use c_cometd_client.Transport.{transport_negotiate}
use c_cometd_client.Http.{
  error, http_post_msg, transport_long_polling_send, transport_long_polling_recv,
}
use c_cometd_client.Ext.{ext_fire, ext_fire_null}
use c_cometd_client.Messages.{new_handshake_message}

module _ (env : Env) where
  open env use {json}
  open json use {Node, get_elements, take_array}

  abbrev pub W : Type 0
  W = World Node

  -- The states are distinct bits, so the code's `|` of them is their sum.
  abbrev pub in_state : ℕ → W → Bool
  in_state states w = conn_is_state w.h.conn states

  -- Where the negotiation found a transport.
  abbrev pub set_session : Option Transport → Node → Cmd W Code
  set_session none msg = pure no_transport
  set_session (some t) msg = do
    client_id ← reads (λ w. msg_client_id json msg)
    modify (λ w. put_conn w (conn_set_transport w.h.conn t))
    conn ← reads (λ w. conn_set_client_id w.h.conn client_id)
    modify (λ w. put_conn w (conn_set_state conn handshake_success))
    pure success

  unfoldable pub run_process_handshake : Node → Cmd W Code
  run_process_handshake msg = do
    types ← gets (λ w. msg_supported_connection_types json msg)
    t ← reads (λ w. transport_negotiate w.h.config.transports types)
    code ← set_session t msg
    advice ← reads (λ w. msg_advice json msg)
    modify (λ w. put_conn w (conn_take_advice w.h.conn advice))
    pure code

  abbrev pub wants_handshake : Option Advice → Bool
  wants_handshake none = true
  wants_handshake (some advice) = advice_is_handshake advice

  unfoldable pub should_handshake : W → Bool
  should_handshake w =
      if in_state (handshake_success + connected) w then false else wants_handshake w.h.conn.advice

  -- Everything that processes a message; `handshake` is `cometd_handshake`.
  module _ (handshake : Cmd W Code) where
    unfoldable pub handle_advice : Option Advice → Cmd W (Unit {0})
    handle_advice none = pure tt
    handle_advice (some advice) =
        if advice_is_handshake advice then (do _ ← handshake; pure tt) else pure tt

    abbrev pub offer_advice : Option Advice → Cmd W (Unit {0})
    offer_advice none = pure tt
    offer_advice (some advice) = modify (λ w. put_conn w (conn_take_advice w.h.conn (some advice)))

    abbrev pub set_state : ℕ → Cmd W (Unit {0})
    set_state state = modify (λ w. put_conn w (conn_set_state w.h.conn state))

    abbrev pub settle : Bool → Option Advice → Cmd W (Unit {0})
    settle true advice = set_state connected
    settle false advice = do set_state unconnected; handle_advice advice

    abbrev pub connect_response : Node → Bool → Cmd W Code
    connect_response msg true = pure success
    connect_response msg false = do
      advice ← reads (λ w. msg_advice json msg)
      offer_advice advice
      settle (msg_is_successful json msg) advice
      pure success

    unfoldable pub run_process_connect : Node → Cmd W Code
    run_process_connect msg = do
      leaving ← gets (in_state (disconnecting + disconnected))
      connect_response msg leaving

    -- The call `s->callback(h, message)`.
    unfoldable pub run_callback : Node → Callback → Cmd W Code
    run_callback msg process_handshake = run_process_handshake msg
    run_callback msg process_connect = run_process_connect msg
    run_callback msg (foreign n) = env.callback n msg

    -- The code, and the message as the extensions leave it.
    unfoldable pub process_msg : Node → Cmd W (Code × Node)
    process_msg msg = do
      exts ← gets (λ w. w.h.exts)
      msg' ← ext_fire env exts true msg
      code ←
          listener_fire (run_callback msg') env.strings (λ w. w.h.subscriptions)
            (msg_channel json (some msg'))
      pure (code, msg')

    -- The same for NULL, which is no message and fires nothing but the extensions.
    unfoldable pub process_msg_null : Cmd W Code
    process_msg_null = do exts ← gets (λ w. w.h.exts); ext_fire_null env exts true; pure unknown

    -- The loop of `cometd_impl_process_sync`; the messages as they are afterwards.
    unfoldable pub process_all : List Node → Cmd W (List Node)
    process_all [] = pure []
    process_all (msg ∷ msgs) = do
      (code, msg') ← process_msg msg
      msgs' ← process_all msgs
      pure (msg' ∷ msgs')

    abbrev pub with_messages : Node → List Node → List Node → Node
    with_messages root [] msgs = root
    with_messages root (m ∷ ms) msgs = take_array msgs

    unfoldable pub process_sync : Node → Cmd W (Code × Node)
    process_sync root = do
      msgs ← process_all (get_elements root)
      pure (success, with_messages root (get_elements root) msgs)

    unfoldable pub run_send : SendCallback → Node → Cmd W (Option Node)
    run_send long_polling_send outgoing = transport_long_polling_send env outgoing
    run_send (foreign_send n) outgoing = env.foreign_send n outgoing

    abbrev pub post : Option Transport → Node → Cmd W (Option Node)
    post none outgoing = http_post_msg env outgoing
    post (some t) outgoing = run_send t.send outgoing

    abbrev pub finish : Code × Node → Cmd W Code
    finish (code, payload) =
        if is_success code
        then pure (if msg_is_successful json payload then success else unsuccessful)
        else error env code "processing error"

    abbrev pub receive_payload : Option Node → Cmd W Code
    receive_payload none = gets (λ w. w.h.last_error.code)
    receive_payload (some payload) = do r ← process_sync payload; finish r

    -- The copy that is sent shares its object with `msg`, so it has what the extensions write.
    unfoldable pub send_msg_sync : Node → Option Transport → Cmd W Code
    send_msg_sync msg t = do
      exts ← gets (λ w. w.h.exts)
      outgoing ← ext_fire env exts false msg
      payload ← post t (msg_wrap json outgoing)
      receive_payload payload

    abbrev pub need_transport : Code → Option Transport → Code
    need_transport success none = no_transport
    need_transport code t = code

    unfoldable pub impl_handshake : Cmd W Code
    impl_handshake = do
      transports ← gets (λ w. w.h.config.transports)
      msg ← on_conn (new_handshake_message json transports)
      code ← send_msg_sync msg none
      transport ← gets (λ w. w.h.conn.transport)
      pure (need_transport code transport)

  -- usleep, for a positive number of milliseconds
  unfoldable pub gthread_wait : ℤ → Cmd W (Unit {0})
  gthread_wait (ℤ.pos zero) = pure tt
  gthread_wait (ℤ.pos (suc n)) = modify (λ w. record w { sleeps = ℤ.pos (suc n) ∷ w.sleeps })
  gthread_wait (ℤ.negsuc n) = pure tt

  abbrev pub call_wait : LoopFunc → ℤ → Cmd W (Unit {0})
  call_wait gthread millis = gthread_wait millis
  call_wait (foreign_loop n) millis = env.foreign_wait n millis

  -- g_assert(h->wait != NULL)
  unfoldable pub loop_wait : ℤ → Cmd W (Unit {0})
  loop_wait millis = do f ← reads (λ w. non_null w.h.loop.wait); call_wait f millis

  -- One round: the wait, the attempt, the next backoff. `rest` are the rounds after this one; the
  -- `guint` that counts the attempts wraps.
  unfoldable pub handshake_round : Cmd W Code → (ℕ → ℤ → Code → Cmd W Code) → ℕ → ℤ → Cmd W Code
  handshake_round inner rest attempt backoff = do
    loop_wait backoff
    code ← impl_handshake inner
    backoff' ← gets (λ w. get_backoff w.h.config w.h.conn.advice attempt)
    (if is_minus_one backoff' then pure code else rest ((attempt + 1) % 2 ^ 32) backoff' code)

  -- The loop of `cometd_handshake`, one unit of fuel a round.
  unfoldable pub handshake_loop : Cmd W Code → ℕ → ℕ → ℤ → Code → Cmd W Code
  handshake_loop inner zero attempt backoff code = reads (λ w. starved)
  handshake_loop inner (suc fuel) attempt backoff code = do
    again ← gets should_handshake
    (if again then handshake_round inner (handshake_loop inner fuel) attempt backoff else pure code)

  -- `cometd_handshake`. The fuel bounds the rounds, and how deep a handshake starts in another.
  unfoldable pub handshake : ℕ → Cmd W Code
  handshake zero = reads (λ w. starved)
  handshake (suc fuel) = handshake_loop (handshake fuel) (suc fuel) 1 (pos 0) unknown
