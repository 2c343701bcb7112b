-- ===== src/Samples/Sessions.antt =====
-- Witnesses on the server's answers, the handshake and what the application calls.
use c_cometd_client.Prelude.{
  inr, ◌+◌, ◌<◌, ◌≤◌, ◌≡◌, refl, String, true, false, none, some, List, [], pos, if◌then◌else◌,
  arith, done, Cmd, pure,
}
use c_cometd_client.Conn.Types.{Code, success, no_transport, is_success, reconnect_retry}
use c_cometd_client.Conn.{
  connected, disconnecting, disconnected, uninitialized, advice_is_handshake,
}
use c_cometd_client.State.Types.{Listeners, foreign}
use c_cometd_client.State.{Post, put_conn}
use c_cometd_client.Msg.{
  holds_object, msg_is_successful, msg_supported_connection_types, msg_client_id, msg_advice,
  dup_strings, read_advice,
}
use c_cometd_client.Transport.{transport_negotiate, scan_types, scan_registry}
use c_cometd_client.Http.Failures.{IsUnreachable}
use c_cometd_client.Client.{W, in_state, run_process_connect, run_process_handshake, handshake}
use c_cometd_client.Client.Process.{
  connect_result, handshake_result, run_process_connect-result, run_process_handshake-result,
}
use c_cometd_client.Client.Offline.{IsOffline, handshake_gives_up}
use c_cometd_client.Event.{listener_add, listener_count}
use c_cometd_client.Event.Table.{lookup, insert}
use c_cometd_client.Session.{
  transport_long_polling, loop_gthread_new, is_meta_channel, unsubscribe, subscribe, add_listener,
}
use c_cometd_client.Session.Subscribing.{undelivered, removed, subscribe-fails}
use c_cometd_client.Session.Unsubscribing.{unsubscribe-local}
use c_cometd_client.Samples.Values.{Value, obj, text, number, truth, arr, field, end, cons, nil}
use c_cometd_client.Samples.World.{offline, world, short_config, sample_conn, chat, listeners}

unreachable : IsUnreachable offline
unreachable posts post = refl

-- A handshake that only says that it failed.
abbrev no_handshake : Cmd (W offline) Code
no_handshake = pure no_transport

abbrev advice_of : String → Value
advice_of reconnect =
    obj (field "reconnect" (text reconnect) (field "interval" (number (pos 50)) end))

-- A failed connect response with advice.
abbrev failed_connect : String → Value
failed_connect reconnect = obj (
    field "channel" (text "/meta/connect")
      (field "successful" (truth false) (field "advice" (advice_of reconnect) end)))

failed_connect_advice :
    msg_advice offline.json (failed_connect "retry")
    ≡ done (some (record { reconnect = reconnect_retry; interval = pos 50 }))
unfolding msg_advice holds_object read_advice
failed_connect_advice = refl

retry_is_calm :
    advice_is_handshake (record { reconnect = reconnect_retry; interval = pos 50 }) ≡ false
unfolding advice_is_handshake
retry_is_calm = refl

run_process_connect-result_example :
    run_process_connect offline no_handshake (failed_connect "retry") (world connected [])
    ≡ done (
      success,
      if in_state offline (disconnecting + disconnected) (world connected [])
          then world connected []
          else put_conn (world connected []) (
              connect_result
                (sample_conn connected)
                (some (record { reconnect = reconnect_retry; interval = pos 50 }))
                (msg_is_successful offline.json (failed_connect "retry"))),
    )
run_process_connect-result_example =
    run_process_connect-result offline no_handshake (failed_connect "retry") (world connected [])
      (some (record { reconnect = reconnect_retry; interval = pos 50 })) failed_connect_advice
      (λ fails. retry_is_calm)

-- A handshake response with two types of connection, the second of which is registered.
abbrev handshake_response : Value
handshake_response = obj (
    field "channel" (text "/meta/handshake") (
      field "clientId" (text "c2") (
        field "supportedConnectionTypes"
          (arr (cons (text "websocket") (cons (text "long-polling") nil)))
          (field "successful" (truth true) end))))

negotiated :
    transport_negotiate short_config.transports
      (msg_supported_connection_types offline.json handshake_response)
    ≡ done (some transport_long_polling)
unfolding transport_negotiate scan_types scan_registry msg_supported_connection_types holds_object
    dup_strings
negotiated = refl

response_client_id : msg_client_id offline.json handshake_response ≡ done (some "c2")
unfolding msg_client_id holds_object
response_client_id = refl

response_advice : msg_advice offline.json handshake_response ≡ done none
unfolding msg_advice holds_object
response_advice = refl

run_process_handshake-result_example :
    run_process_handshake offline handshake_response (world uninitialized [])
    ≡ done (
      success,
      put_conn (world uninitialized []) (
          handshake_result
            (sample_conn uninitialized)
            (some transport_long_polling)
            (some "c2")
            none),
    )
run_process_handshake-result_example =
    run_process_handshake-result offline handshake_response (world uninitialized [])
      (some transport_long_polling) "c2" none negotiated (λ u e. response_client_id) response_advice

world-IsOffline :
    IsOffline offline short_config uninitialized
      (some transport_long_polling)
      loop_gthread_new
      (world uninitialized [])
world-IsOffline = record {
  logging = tt;
  in_loop = refl;
  sends_by = refl;
  waits = refl;
  no_advice = refl;
  configured = refl;
  in_this = refl;
}

handshake_gives_up_example :
    (code : Code) × (w' : W offline) × (handshake offline 3 (world uninitialized [])
      ≡ done (code, w'))
    × (is_success code ≡ false)
    × IsOffline offline short_config uninitialized (some transport_long_polling) loop_gthread_new w'
    × (7 < w'.h.conn.msg_id_seed)
    × (w'.h.conn.msg_id_seed ≤ 7 + 3)
handshake_gives_up_example =
    handshake_gives_up offline unreachable short_config 0 2 uninitialized 2
      (some transport_long_polling) loop_gthread_new (world uninitialized []) refl refl
      (omega arith) refl (omega arith) world-IsOffline

no_meta : is_meta_channel "/chat/room" ≡ false
unfolding is_meta_channel
no_meta = refl

subscribe-fails_example :
    (posts : List Post) × (subscribe offline 1 "/chat/room" (foreign 6) (world connected listeners)
      ≡ (if true
          then add_listener offline "/chat/room"
              (foreign 6)
              (undelivered offline (world connected listeners) posts)
          else done (none, undelivered offline (world connected listeners) posts)))
subscribe-fails_example =
    subscribe-fails offline 1 unreachable "/chat/room" (foreign 6) (world connected listeners)
      no_meta refl refl

-- Two subscriptions of one channel.
abbrev twice : Listeners
twice = (listener_add listeners 1 "/chat/*" (foreign 6)).0

two_of_chat : listener_count twice "/chat/*" ≡ 2
unfolding listener_count lookup listener_add insert
two_of_chat = refl

unsubscribe-local_example :
    unsubscribe offline 1 (some chat) (world connected twice)
    ≡ done (success, removed offline chat (world connected twice))
unsubscribe-local_example =
    unsubscribe-local offline 1 chat (world connected twice)
      (inr (λ one. ground (arith, two_of_chat)))
