-- ===== src/Calls/Numbering.antt =====
-- The ids of the messages that the client builds, src/cometd.c and src/msg.c.
use c_cometd_client.Prelude.{
  ℕ, ◌+◌, ◌<◌, ◌≡◌, ◌∙◌, refl, sym, subst, arith, inl, inr, String, false, Option, some, List, ℤ,
  pos, done, crash, done-injective, Option-cases, Cmd,
}
use c_cometd_client.Libs.Json.{JsonGlib, JsonLaws, bind}
use c_cometd_client.Conn.Types.{Transport, Conn}
use c_cometd_client.State.{Env, put_conn}
use c_cometd_client.Msg.{
  id_field, channel_meta_subscribe, channel_meta_unsubscribe, successful_field, next_id,
  connect_object, msg_connect_new, msg_bad_connect_new, msg_set_boolean_member,
}
use c_cometd_client.Messages.{
  base_object, handshake_object, new_handshake_message, new_publish_message, new_subscribe_message,
  new_unsubscribe_message,
}
use c_cometd_client.Client.{W}
use c_cometd_client.Calls.Posting.{ForeignSound}
use c_cometd_client.Calls.Calling.{run_calls-Keeps}
use c_cometd_client.Calls.{Call, run_calls}

-- The messages that the client builds, with what each is built from.
pub data Message (Node : Type 0) : Type 0 where
  handshake_message : List Transport → Message Node
  publish_message : String → Node → Message Node
  subscribe_message unsubscribe_message : String → Message Node
  connect_message bad_connect_message : Message Node

module _ (json : JsonGlib) where
  open json use {Node, get_object, get_int_member}

  abbrev pub build : Message Node → Cmd Conn Node
  build (handshake_message transports) = new_handshake_message json transports
  build (publish_message channel content) = new_publish_message json channel content
  build (subscribe_message channel) = new_subscribe_message json channel
  build (unsubscribe_message channel) = new_unsubscribe_message json channel
  build connect_message = msg_connect_new json
  build bad_connect_message = msg_bad_connect_new json

  -- The id that a receiver reads in a message.
  abbrev pub message_id : Node → Option ℤ
  message_id node = bind (get_object node) (λ o. some (get_int_member o id_field))

  module _ (laws : JsonLaws json) where
    -- The message has this id, and the seed is the same number.
    abbrev Numbered : ℕ → Node → Conn → Type 0
    Numbered n node c = (message_id node ≡ some (pos n)) × (c.msg_id_seed ≡ n)

    abbrev taken : Conn → Conn
    taken c = record c { msg_id_seed = c.msg_id_seed + 1 }

    numbered :
        (c c' : Conn) (node node' : Node) (m : Cmd Conn Node)
        → message_id node' ≡ some (pos (c.msg_id_seed + 1))
        → m c ≡ done (node', taken c)
        → m c ≡ done (node, c')
        → Numbered (c.msg_id_seed + 1) node c'
    numbered c c' node node' m id e run =
        subst (λ p. Numbered (c.msg_id_seed + 1) p.0 p.1) (done-injective _ _ (sym e ∙ run))
          (id, refl)

    handshake_id :
        (n : ℕ) (transports : List Transport)
        → message_id (json.take_object (handshake_object json (pos n) transports)) ≡ some (pos n)
    handshake_id n transports = simp (
      handshake_object, laws.get-take_object, laws.set_array_member_lem, laws.set_object_member_lem,
      laws.set_string_member_lem, laws.set_int_member_lem, laws.get_int_member_lem,
      laws.get_member-set, laws.get-int_node,
    )

    published_id :
        (n : ℕ) (channel client : String) (content : Node)
        → message_id (
            json.take_object
              (json.set_member (base_object json (pos n) channel (some client)) "data" content))
          ≡ some (pos n)
    published_id n channel client content = simp (
      laws.get-take_object, base_object, laws.set_string_member_lem, laws.set_int_member_lem,
      laws.get_int_member_lem, laws.get_member-set, laws.get-int_node,
    )

    abbrev asking : Conn → String → String → String → Node
    asking c client meta channel = json.take_object (
        json.set_string_member (base_object json (pos (c.msg_id_seed + 1)) meta (some client))
          "subscription" (some channel))

    asked_id :
        (n : ℕ) (meta client channel : String)
        → message_id (
            json.take_object (
              json.set_string_member
                (base_object json (pos n) meta (some client))
                "subscription"
                (some channel)))
          ≡ some (pos n)
    asked_id n meta client channel = simp (
      laws.get-take_object, base_object, laws.set_string_member_lem, laws.set_int_member_lem,
      laws.get_int_member_lem, laws.get_member-set, laws.get-int_node,
    )

    connect_id :
        (n : ℕ) (kind client : String)
        → message_id (json.take_object (connect_object json (pos n) kind (some client)))
          ≡ some (pos n)
    connect_id n kind client = simp (
      laws.get-take_object, connect_object, laws.set_string_member_lem, laws.set_int_member_lem,
      laws.get_int_member_lem, laws.get_member-set, laws.get-int_node,
    )

    bad_connect_id :
        (n : ℕ) (kind client : String)
        → message_id (
            json.take_object (
              json.set_boolean_member
                (connect_object json (pos n) kind (some client))
                successful_field
                false))
          ≡ some (pos n)
    bad_connect_id n kind client = simp (
      laws.get-take_object, connect_object, laws.set_boolean_member_lem, laws.set_string_member_lem,
      laws.set_int_member_lem, laws.get_int_member_lem, laws.get_member-set, laws.get-int_node,
    )

    -- Each message takes the next id.
    build-Numbered :
        (m : Message Node) (client : String) (c c' : Conn) (node : Node)
        → c.client_id ≡ some client
        → build m c ≡ done (node, c')
        → Numbered (c.msg_id_seed + 1) node c'
    unfolding new_handshake_message new_publish_message new_subscribe_message
        new_unsubscribe_message msg_connect_new msg_bad_connect_new msg_set_boolean_member next_id
    build-Numbered (handshake_message transports) client c c' node known run =
        numbered c c' node _ (build (handshake_message transports)) (handshake_id _ transports) refl
          run
    build-Numbered (publish_message channel content) client c c' node known run =
        let id = published_id (c.msg_id_seed + 1) channel client content in
        numbered c c' node
          (json.take_object (
            json.set_member (base_object json (pos (c.msg_id_seed + 1)) channel (some client))
              "data" content))
          (build (publish_message channel content)) id (rw known refl) run
    build-Numbered (subscribe_message channel) client c c' node known run =
        numbered c c' node (asking c client channel_meta_subscribe channel)
          (build (subscribe_message channel)) (asked_id _ _ client channel) (rw known refl) run
    build-Numbered (unsubscribe_message channel) client c c' node known run =
        numbered c c' node (asking c client channel_meta_unsubscribe channel)
          (build (unsubscribe_message channel)) (asked_id _ _ client channel) (rw known refl) run
    build-Numbered connect_message client c c' node known run = elim (Option-cases c.transport) [
      | inl nothing ↦
          let e : build connect_message c ≡ crash = rw nothing refl in absurd (ground arith)
      | inr (t, set) ↦
          numbered c c' node
            (json.take_object (connect_object json (pos (c.msg_id_seed + 1)) t.name (some client)))
            (build connect_message) (connect_id _ t.name client) (rw (set, known) refl) run
    ]
    build-Numbered bad_connect_message client c c' node known run =
        elim (Option-cases c.transport) [
          | inl nothing ↦
              let e : build bad_connect_message c ≡ crash = rw nothing refl in absurd (ground arith)
          | inr (t, set) ↦
              numbered c c' node
                (json.take_object (
                  json.set_boolean_member
                    (connect_object json (pos (c.msg_id_seed + 1)) t.name (some client))
                    successful_field false))
                (build bad_connect_message) (bad_connect_id _ t.name client)
                (simp (set, known, laws.type-take_object, laws.get-take_object)) run
        ]

module _ (env : Env) (laws : JsonLaws env.json) (outside : ForeignSound env) (fuel : ℕ)
    (calls : List (Call env.json.Node)) where
  open env use {json}
  open json use {Node}

  -- Where the code outside the repository keeps what the client's calls keep, and with the steps of no
  -- other thread between: the client builds a message (for a handshake, a publishing, a subscribing, an
  -- unsubscribing, a connect request, or a connect that failed), then a sequence of calls ends, then
  -- the client builds another message, with a client id set at both times. Then the id of the first
  -- message, as a receiver reads it, is less than that of the second.
  pub message_ids_increase :
      (w w' : W env) (m m' : Message Node) (client client' : String) (c c' : Conn)
      (node node' : Node)
      → w.h.conn.client_id ≡ some client
      → build json m w.h.conn ≡ done (node, c)
      → run_calls env fuel calls (put_conn w c) ≡ done (tt, w')
      → w'.h.conn.client_id ≡ some client'
      → build json m' w'.h.conn ≡ done (node', c')
      → (a : ℕ) × (b : ℕ) × (message_id json node ≡ some (pos a))
        × (message_id json node' ≡ some (pos b))
        × (a < b)
  message_ids_increase w w' m m' client client' c c' node node' known before e known' after =
      let sound = (run_calls-Keeps env outside fuel calls).at _ w' tt e in
      let (id, seed) = build-Numbered json laws m client w.h.conn c node known before in
      let (id', seed') = build-Numbered json laws m' client' w'.h.conn c' node' known' after in
      (
        w.h.conn.msg_id_seed + 1,
        w'.h.conn.msg_id_seed + 1,
        id,
        id',
        omega (arith, sound.conn.ids, seed),
      )
