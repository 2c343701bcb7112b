-- ===== src/Calls/Ids.antt =====
-- The building of messages takes ids and leaves the rest of the connection as it is.
use c_cometd_client.Prelude.{
  arith, String, Cmd, Keeps, keeps_rules, List, done-injective, ap, subst,
}
use c_cometd_client.Libs.Json.{JsonGlib}
use c_cometd_client.Conn.Types.{Conn, Transport}
use c_cometd_client.State.Keeping.{on_conn-Keeps}
use c_cometd_client.State.{on_conn}
use c_cometd_client.Msg.{next_id, msg_connect_new, msg_bad_connect_new}
use c_cometd_client.Messages.{
  new_handshake_message, new_publish_message, new_subscribe_message, new_unsubscribe_message,
}
use c_cometd_client.Calls.Sound.{ConnSound, ConnSound-IsPreorder, Sound, put_conn-Sound}

next_id-Keeps : Keeps ConnSound next_id
unfolding next_id
next_id-Keeps = record {
  at = λ c c' a e.
      subst (ConnSound c) (ap (λ p. p.1) (done-injective _ _ e))
        (record { state = λ h. h; ids = omega arith; transport = λ h. h; client_id = λ h. h });
}

module _ (json : JsonGlib) where
  open json use {Node}

  pub new_publish_message-Keeps :
      (channel : String) (message : Node)
      → Keeps ConnSound (new_publish_message json channel message)
  unfolding new_publish_message
  new_publish_message-Keeps channel message = search (keeps_rules, next_id-Keeps)

  pub new_handshake_message-Keeps :
      (transports : List Transport) → Keeps ConnSound (new_handshake_message json transports)
  unfolding new_handshake_message
  new_handshake_message-Keeps transports = search (keeps_rules, next_id-Keeps)

  pub new_subscribe_message-Keeps :
      (channel : String) → Keeps ConnSound (new_subscribe_message json channel)
  unfolding new_subscribe_message
  new_subscribe_message-Keeps channel = search (keeps_rules, next_id-Keeps)

  pub new_unsubscribe_message-Keeps :
      (channel : String) → Keeps ConnSound (new_unsubscribe_message json channel)
  unfolding new_unsubscribe_message
  new_unsubscribe_message-Keeps channel = search (keeps_rules, next_id-Keeps)

  pub msg_connect_new-Keeps : Keeps ConnSound (msg_connect_new json)
  unfolding msg_connect_new
  msg_connect_new-Keeps = search (keeps_rules, next_id-Keeps)

  pub msg_bad_connect_new-Keeps : Keeps ConnSound (msg_bad_connect_new json)
  unfolding msg_bad_connect_new
  msg_bad_connect_new-Keeps = search (keeps_rules, msg_connect_new-Keeps)

module _ {Node : Type 0} where
  -- A command on the connection, as one on the world.
  pub on_conn-KeepsSound :
      {A : Type 0} (m : Cmd Conn A) → Keeps ConnSound m → Keeps Sound (on_conn {Node = Node} m)
  on_conn-KeepsSound m h = on_conn-Keeps ConnSound Sound put_conn-Sound m h
