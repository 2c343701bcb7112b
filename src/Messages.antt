-- ===== src/Messages.antt =====
-- src/cometd.c, lines 587 to 706: the messages that the client sends. Each takes the next message id.
pub mod Fields
use c_cometd_client.Prelude.{
  ℕ, String, Bool, Option, none, some, List, [], ◌∷◌, ◌++◌, ℤ, pos, Outcome, Cmd, pure, gets, ◌>>=◌,
}
use c_cometd_client.Libs.Json.{JsonGlib}
use c_cometd_client.Conn.Types.{Transport, Conn}
use c_cometd_client.Msg.{
  id_field, data_field, client_id_field, channel_field, version_field, min_version_field,
  advice_field, subscription_field, channel_meta_handshake, channel_meta_subscribe,
  channel_meta_unsubscribe, next_id,
}

abbrev pub version : String
version = "1.0"

abbrev pub min_version : String
min_version = "0.9"

module _ (json : JsonGlib) where
  open json use {
    Node, Object, object_new, take_object, string_node, set_member, set_int_member,
    set_string_member, set_object_member, set_array_member,
  }

  -- The loop over the registered transports.
  abbrev pub name_nodes : List Transport → List Node
  name_nodes [] = []
  name_nodes (t ∷ entry) = string_node t.name ∷ name_nodes entry

  abbrev pub handshake_object : ℤ → List Transport → Object
  handshake_object seed transports =
      let obj = set_int_member object_new id_field seed in
      let obj = set_string_member obj channel_field (some channel_meta_handshake) in
      let obj = set_string_member obj version_field (some version) in
      let obj = set_string_member obj min_version_field (some min_version) in
      let advice = set_int_member object_new "timeout" (pos 60000) in
      let advice = set_int_member advice "interval" (pos 0) in
      let obj = set_object_member obj advice_field advice in
      set_array_member obj "supportedConnectionTypes" (name_nodes transports)

  unfoldable pub new_handshake_message : List Transport → Cmd Conn Node
  unfolding next_id
  new_handshake_message transports = do
    seed ← next_id
    pure (take_object (handshake_object seed transports))

  -- The members that every message but the handshake has.
  abbrev pub base_object : ℤ → String → Option String → Object
  base_object seed channel client_id =
      let obj = set_int_member object_new id_field seed in
      let obj = set_string_member obj channel_field (some channel) in
      set_string_member obj client_id_field client_id

  unfoldable pub new_publish_message : String → Node → Cmd Conn Node
  unfolding next_id
  new_publish_message channel message = do
    seed ← next_id
    client_id ← gets (λ conn. conn.client_id)
    pure (take_object (set_member (base_object seed channel client_id) data_field message))

  unfoldable pub new_subscribe_message : String → Cmd Conn Node
  unfolding next_id
  new_subscribe_message channel = do
    seed ← next_id
    client_id ← gets (λ conn. conn.client_id)
    let obj = base_object seed channel_meta_subscribe client_id
    pure (take_object (set_string_member obj subscription_field (some channel)))

  unfoldable pub new_unsubscribe_message : String → Cmd Conn Node
  unfolding next_id
  new_unsubscribe_message channel = do
    seed ← next_id
    client_id ← gets (λ conn. conn.client_id)
    let obj = base_object seed channel_meta_unsubscribe client_id
    pure (take_object (set_string_member obj subscription_field (some channel)))
