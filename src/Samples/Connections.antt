-- ===== src/Samples/Connections.antt =====
-- Witnesses on connecting, and on one message that is processed.
use c_cometd_client.Prelude.{◌≡◌, refl, true, none, some, [], ◌∷◌, done}
use c_cometd_client.Libs.Json.{JsonLaws}
use c_cometd_client.Conn.Types.{success}
use c_cometd_client.Conn.{conn_new, conn_is_state, conn_state}
use c_cometd_client.State.{Env, performed}
use c_cometd_client.Msg.{
  holds_object, msg_channel, msg_is_successful, msg_client_id, msg_advice,
  msg_supported_connection_types, dup_strings,
}
use c_cometd_client.Transport.{register_transport, transport_negotiate, scan_types, scan_registry}
use c_cometd_client.Client.{handshake}
use c_cometd_client.Client.Online.{IsWelcome, welcomed, handshake-welcomed}
use c_cometd_client.Session.{cometd_new, transport_long_polling, connect}
use c_cometd_client.Session.Creating.{on_handshake, cometd_new-hears}
use c_cometd_client.Session.Connecting.{started, connect-welcomed}
use c_cometd_client.Calls.{new_world}
use c_cometd_client.Samples.Values.{
  Value, obj, text, truth, arr, field, end, cons, nil, value_json, value_laws,
}
use c_cometd_client.Samples.Parts.{split_strings, split_laws}
use c_cometd_client.Samples.World.{offline}

abbrev response : Value
response = obj (
    field "channel" (text "/meta/handshake") (
      field "clientId" (text "c2") (
        field "supportedConnectionTypes" (arr (cons (text "long-polling") nil))
          (field "successful" (truth true) end))))

-- A server that answers every request with this response.
abbrev pub online : Env
online = record offline {
  json = value_json (λ node. some "[]") (λ body. some (arr (cons response nil)));
  perform = λ posts post. performed true 200 ("resp" ∷ "onse" ∷ []);
}

abbrev pub online_laws : JsonLaws online.json
online_laws = value_laws (λ node. some "[]") (λ body. some (arr (cons response nil)))

pub new-IsWelcome : IsWelcome online online_laws new_world "[]" transport_long_polling "c2" none
unfolding cometd_new conn_new register_transport conn_is_state conn_state holds_object msg_channel
    msg_is_successful msg_client_id msg_advice msg_supported_connection_types dup_strings
    transport_negotiate scan_types scan_registry
new-IsWelcome = record {
  no_exts = refl;
  waits = refl;
  no_advice = refl;
  idle = refl;
  handler = on_handshake;
  handles = refl;
  heard = (cometd_new-hears split_strings split_laws refl refl Value).0;
  chunk = "resp";
  chunks = "onse" ∷ [];
  code = 200;
  payload = arr (cons response nil);
  msg = response;
  printed = refl;
  replied = refl;
  code_ok = refl;
  loaded = refl;
  alone = refl;
  is_obj = refl;
  channel = refl;
  ok = refl;
  chosen = refl;
  named = refl;
  read = refl;
}

handshake-welcomed_example :
    handshake online 2 new_world
    ≡ done (success, welcomed online online_laws new_world "[]" transport_long_polling "c2" none)
handshake-welcomed_example =
    handshake-welcomed online online_laws 0 new_world "[]" transport_long_polling "c2" none
      new-IsWelcome

connect-welcomed_example :
    connect online 2 new_world
    ≡ done (
      success,
      started online (welcomed online online_laws new_world "[]" transport_long_polling "c2" none),
    )
unfolding cometd_new
connect-welcomed_example =
    connect-welcomed online online_laws 0 new_world "[]" transport_long_polling "c2" none
      new-IsWelcome refl
