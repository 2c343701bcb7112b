-- ===== src/Messages/Fields.antt =====
-- What a receiver reads in the messages that the client builds.
use mathlib.Core.List.{append_assoc, append-nil, reverse-cons, reverse-reverse}
use c_cometd_client.Prelude.{
  ◌+◌, ◌≡◌, refl, ◌∙◌, reverse, String, false, Option, some, List, [], ◌∷◌, ◌++◌, ℤ, pos, done,
}
use c_cometd_client.Libs.Json.{JsonGlib, JsonLaws}
use c_cometd_client.Conn.Types.{Transport, Conn}
use c_cometd_client.Msg.{
  id_field, data_field, client_id_field, subscription_field, successful_field,
  channel_meta_handshake, channel_meta_subscribe, channel_meta_unsubscribe, channel_meta_connect,
  msg_channel, msg_is_successful, msg_supported_connection_types, msg_connect_new,
  msg_bad_connect_new, msg_set_boolean_member, connect_object, next_id, dup_strings,
}
use c_cometd_client.Messages.{
  base_object, handshake_object, name_nodes, new_handshake_message, new_publish_message,
  new_subscribe_message, new_unsubscribe_message,
}

abbrev pub transport_names : List Transport → List (Option String)
transport_names [] = []
transport_names (t ∷ ts) = some t.name ∷ transport_names ts

module _ (json : JsonGlib) (laws : JsonLaws json) where
  open json use {
    Node, Object, get_object, get_int_member, get_string_member, get_member, take_object,
    set_member, set_string_member,
  }

  -- What every message but the handshake says: its id, its channel, and the client's id.
  pub record Says (node : Node) (id : ℤ) (channel client : String) : Type 0 where
    pub obj : Object
    pub found : get_object node ≡ some obj
    pub id_said : get_int_member obj id_field ≡ id
    pub channel_said : msg_channel json (some node) ≡ some channel
    pub client_said : get_string_member obj client_id_field ≡ some client

  module _ (conn : Conn) (client : String) (known : conn.client_id ≡ some client)
      (channel : String) where
    -- A publish message has the next id, the channel that is published to, the client's id, and the
    -- data unchanged; only the seed of the ids changes in the connection.
    pub new_publish_message-Says :
        (message : Node)
        → (node : Node) × (new_publish_message json channel message conn
            ≡ done (node, record conn { msg_id_seed = conn.msg_id_seed + 1 }))
          × (says : Says node (pos (conn.msg_id_seed + 1)) channel client) × (get_member says.obj
                data_field
              ≡ some message)
    unfolding new_publish_message msg_channel
    new_publish_message-Says message = (
      take_object (
          set_member (base_object json (pos (conn.msg_id_seed + 1)) channel (some client))
            data_field message),
      rw known,
      record {
        obj =
            set_member (base_object json (pos (conn.msg_id_seed + 1)) channel (some client))
              data_field message;
        found = laws.get-take_object _;
        id_said = simp (
          base_object, laws.set_string_member_lem, laws.set_int_member_lem, laws.get_int_member_lem,
          laws.get_member-set, laws.get-int_node,
        );
        channel_said = simp (
          base_object, laws.type-take_object, laws.get-take_object, laws.set_string_member_lem,
          laws.get_string_member_lem, laws.get_member-set, laws.get-string_node,
        );
        client_said = simp (
          base_object, laws.set_string_member_lem, laws.get_string_member_lem, laws.get_member-set,
          laws.get-string_node,
        );
      },
      simp (base_object, laws.get_member-set),
    )

    abbrev asked : String → Object
    asked meta =
        set_string_member (base_object json (pos (conn.msg_id_seed + 1)) meta (some client))
          subscription_field (some channel)

    asked-Says :
        (meta : String) → Says (take_object (asked meta)) (pos (conn.msg_id_seed + 1)) meta client
    unfolding msg_channel
    asked-Says meta = record {
      obj = asked meta;
      found = laws.get-take_object _;
      id_said = simp (
        base_object, laws.set_string_member_lem, laws.set_int_member_lem, laws.get_int_member_lem,
        laws.get_member-set, laws.get-int_node,
      );
      channel_said = simp (
        base_object, laws.type-take_object, laws.get-take_object, laws.set_string_member_lem,
        laws.get_string_member_lem, laws.get_member-set, laws.get-string_node,
      );
      client_said = simp (
        base_object, laws.set_string_member_lem, laws.get_string_member_lem, laws.get_member-set,
        laws.get-string_node,
      );
    }

    subscription_said :
        (meta : String) → get_string_member (asked meta) subscription_field ≡ some channel
    subscription_said meta = simp (
      laws.set_string_member_lem, laws.get_string_member_lem, laws.get_member-set,
      laws.get-string_node,
    )

    -- The messages to subscribe and to unsubscribe have the next id, the meta channel of their kind,
    -- the client's id, and the channel as their subscription; only the seed changes.
    pub new_subscribe_message-Says :
        ((node : Node) × (new_subscribe_message json channel conn
            ≡ done (node, record conn { msg_id_seed = conn.msg_id_seed + 1 }))
          × (says : Says node (pos (conn.msg_id_seed + 1)) channel_meta_subscribe client)
          × (get_string_member says.obj subscription_field ≡ some channel))
        × ((node : Node) × (new_unsubscribe_message json channel conn
              ≡ done (node, record conn { msg_id_seed = conn.msg_id_seed + 1 }))
            × (says : Says node (pos (conn.msg_id_seed + 1)) channel_meta_unsubscribe client)
            × (get_string_member says.obj subscription_field ≡ some channel))
    unfolding new_subscribe_message new_unsubscribe_message msg_channel asked-Says
    new_subscribe_message-Says = (
      (
        take_object (asked channel_meta_subscribe),
        rw known,
        asked-Says channel_meta_subscribe,
        subscription_said channel_meta_subscribe,
      ),
      (
        take_object (asked channel_meta_unsubscribe),
        rw known,
        asked-Says channel_meta_unsubscribe,
        subscription_said channel_meta_unsubscribe,
      ),
    )

  dup_strings-reverse :
      (ts : List Transport) (acc : List (Option String))
      → dup_strings json (name_nodes json ts) acc ≡ reverse (transport_names ts) ++ acc
  unfolding dup_strings
  dup_strings-reverse [] acc = refl
  dup_strings-reverse (t ∷ ts) acc =
      dup_strings-reverse ts (json.get_string (json.string_node t.name) ∷ acc)
      ∙ rw (
        laws.get-string_node t.name,
        reverse-cons (some t.name) (transport_names ts),
        append_assoc,
      )

  -- The handshake message has the next id and the handshake channel, and its supported connection types
  -- are the names of the registered transports, in the registry's order.
  pub new_handshake_message-types :
      (conn : Conn) (transports : List Transport)
      → (node : Node) × (new_handshake_message json transports conn
          ≡ done (node, record conn { msg_id_seed = conn.msg_id_seed + 1 }))
        × (msg_channel json (some node) ≡ some channel_meta_handshake)
        × (msg_supported_connection_types json node ≡ transport_names transports)
  unfolding new_handshake_message msg_channel msg_supported_connection_types
  new_handshake_message-types conn transports = (
    take_object (handshake_object json (pos (conn.msg_id_seed + 1)) transports),
    refl,
    simp (
      handshake_object, laws.type-take_object, laws.get-take_object, laws.set_array_member_lem,
      laws.set_object_member_lem, laws.set_string_member_lem, laws.get_string_member_lem,
      laws.get_member-set, laws.get-string_node,
    ),
    simp (
      handshake_object,
      laws.type-take_object,
      laws.get-take_object,
      laws.set_array_member_lem,
      laws.get_array_member_lem,
      laws.get_member-set,
      laws.get-take_array,
      dup_strings-reverse transports,
      append-nil,
      reverse-reverse,
    ),
  )

  -- Where a transport and a client id are set, the message that stands for a failed receive is a
  -- connect message that is not successful; only the seed changes.
  pub msg_bad_connect_new-failed :
      (conn : Conn) (t : Transport) (client : String)
      → conn.transport ≡ some t
      → conn.client_id ≡ some client
      → (node : Node) × (msg_bad_connect_new json conn
          ≡ done (node, record conn { msg_id_seed = conn.msg_id_seed + 1 }))
        × (msg_channel json (some node) ≡ some channel_meta_connect)
        × (msg_is_successful json node ≡ false)
  unfolding msg_bad_connect_new msg_connect_new msg_set_boolean_member msg_channel msg_is_successful
      next_id
  msg_bad_connect_new-failed conn t client e known = (
    take_object (
        json.set_boolean_member
          (connect_object json (pos (conn.msg_id_seed + 1)) t.name (some client)) successful_field
          false),
    simp (e, known, laws.type-take_object, laws.get-take_object),
    simp (
      connect_object, laws.type-take_object, laws.get-take_object, laws.set_boolean_member_lem,
      laws.set_string_member_lem, laws.get_string_member_lem, laws.get_member-set,
      laws.get-string_node,
    ),
    simp (
      laws.type-take_object, laws.get-take_object, laws.set_boolean_member_lem, laws.has_member_lem,
      laws.get_boolean_member_lem, laws.get_member-set, laws.get-boolean_node,
    ),
  )
