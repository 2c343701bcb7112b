-- ===== src/Client/Process.antt =====
-- What a handshake response and a connect response do to the connection.
use c_cometd_client.Prelude.{
  refl, ◌+◌, ◌≡◌, ◌∙◌, ap, sym, and_then-reads, String, Bool, Bool-cases, true, false, Option, none,
  some, inl, inr, done, Cmd, if◌then◌else◌,
}
use c_cometd_client.Conn.Types.{Code, success, no_transport, Advice, Conn, Transport}
use c_cometd_client.Conn.{
  connected, unconnected, disconnecting, disconnected, handshake_success, advice_is_handshake,
  conn_take_advice, conn_set_transport, conn_set_client_id, conn_set_state,
}
use c_cometd_client.State.{Env, put_conn}
use c_cometd_client.Msg.{
  msg_is_successful, msg_client_id, msg_supported_connection_types, msg_advice,
}
use c_cometd_client.Transport.{transport_negotiate}
use c_cometd_client.Client.{W, in_state, handle_advice, run_process_handshake, run_process_connect}

-- The connection after a connect response that is processed: a new advice replaces the old one, none
-- leaves it, and the state says whether the response was successful.
abbrev pub connect_result : Conn → Option Advice → Bool → Conn
connect_result conn advice successful = record conn {
  state = if successful then connected else unconnected;
  advice = elim advice [ none ↦ conn.advice | some a ↦ some a ];
}

abbrev pub asks_handshake : Option Advice → Bool
asks_handshake none = false
asks_handshake (some advice) = advice_is_handshake advice

-- The connection after a handshake response.
abbrev pub handshake_result : Conn → Option Transport → Option String → Option Advice → Conn
handshake_result conn none id advice = record conn { advice = advice }
handshake_result conn (some t) id advice = record conn {
  state = handshake_success;
  client_id = id;
  transport = some t;
  advice = advice;
}

abbrev pub handshake_code : Option Transport → Code
handshake_code none = no_transport
handshake_code (some t) = success

module _ (env : Env) (handshake : Cmd (W env) Code) where
  open env use {json}
  open json use {Node}

  pub run_process_connect-stays :
      (msg : Node) (w : W env) (advice : Option Advice)
      → in_state env (disconnecting + disconnected) w ≡ false
      → msg_advice json msg ≡ done advice
      → ((msg_is_successful json msg ≡ false) → asks_handshake advice ≡ false)
      → run_process_connect env handshake msg w
        ≡ done (success, put_conn w (connect_result w.h.conn advice (msg_is_successful json msg)))
  unfolding run_process_connect handle_advice conn_take_advice conn_set_state
  run_process_connect-stays msg w none staying read calm =
      elim (Bool-cases (msg_is_successful json msg)) [
        | inl ok ↦ simp (staying, read, ok)
        | inr fails ↦ simp (staying, read, fails)
      ]
  run_process_connect-stays msg w (some advice) staying read calm =
      elim (Bool-cases (msg_is_successful json msg)) [
        | inl ok ↦ simp (staying, read, ok)
        | inr fails ↦ simp (staying, read, fails, calm fails)
      ]

  -- A connect response that comes while the client is leaving changes nothing. Any other one, whose advice
  -- can be read and does not ask for a handshake after a failure, makes the state connected or
  -- unconnected by its success, replaces the advice if it has one, and changes nothing else. The code is
  -- success in either case.
  pub run_process_connect-result :
      (msg : Node) (w : W env) (advice : Option Advice)
      → msg_advice json msg ≡ done advice
      → ((msg_is_successful json msg ≡ false) → asks_handshake advice ≡ false)
      → run_process_connect env handshake msg w
        ≡ done (
          success,
          if in_state env (disconnecting + disconnected) w
              then w
              else put_conn w (connect_result w.h.conn advice (msg_is_successful json msg)),
        )
  unfolding run_process_connect
  run_process_connect-result msg w advice read calm =
      elim (Bool-cases (in_state env (disconnecting + disconnected) w)) [
        | inl leaving ↦ simp leaving
        | inr staying ↦
            run_process_connect-stays msg w advice staying read calm
            ∙ ap
                (λ b. done (
                  success,
                  if b
                      then w
                      else put_conn w (connect_result w.h.conn advice (msg_is_successful json msg)),
                ))
                (sym staying)
      ]

  -- A failed connect response with the advice to handshake: the state becomes unconnected, the advice is
  -- taken, and a handshake runs from there; the code is success whatever that handshake's code is.
  pub run_process_connect-handshake :
      (msg : Node) (w w' : W env) (advice : Advice) (code : Code)
      → in_state env (disconnecting + disconnected) w ≡ false
      → msg_advice json msg ≡ done (some advice)
      → msg_is_successful json msg ≡ false
      → advice_is_handshake advice ≡ true
      → handshake (put_conn w (connect_result w.h.conn (some advice) false)) ≡ done (code, w')
      → run_process_connect env handshake msg w ≡ done (success, w')
  unfolding run_process_connect handle_advice conn_take_advice conn_set_state
  run_process_connect-handshake msg w w' advice code staying read fails asks run =
      simp (staying, read, fails, asks, run)

module _ (env : Env) where
  open env use {json}
  open json use {Node}

  -- A handshake response whose advice can be read, or which has none, and which names a client id where it
  -- negotiates a transport: with a transport it sets the transport, the client's id and the state
  -- handshake success; without one it leaves these three as they are, with the code no transport. In
  -- either case the advice is replaced, also by none, and nothing else changes.
  pub run_process_handshake-result :
      (msg : Node) (w : W env) (t : Option Transport) (id : String) (advice : Option Advice)
      → transport_negotiate w.h.config.transports (msg_supported_connection_types json msg) ≡ done t
      → ((u : Transport) → t ≡ some u → msg_client_id json msg ≡ done (some id))
      → msg_advice json msg ≡ done advice
      → run_process_handshake env msg w
        ≡ done (handshake_code t, put_conn w (handshake_result w.h.conn t (some id) advice))
  unfolding run_process_handshake conn_take_advice conn_set_transport conn_set_client_id
      conn_set_state
  run_process_handshake-result msg w none id advice chosen named read =
      and_then-reads
        (λ (w : W env).
          transport_negotiate w.h.config.transports (msg_supported_connection_types json msg))
        w none _ chosen
      ∙ and_then-reads (λ (w : W env). msg_advice json msg) w advice _ read
  run_process_handshake-result msg w (some t) id advice chosen named read =
      and_then-reads
        (λ (w : W env).
          transport_negotiate w.h.config.transports (msg_supported_connection_types json msg))
        w (some t) _ chosen
      ∙ simp (named t refl, read)
