-- ===== src/Receiving/Failing.antt =====
-- A receive by long polling from a server that cannot be reached, and what is made of it.
use c_cometd_client.Prelude.{
  ℕ, ◌+◌, ◌≡◌, ◌∙◌, ap, String, false, none, some, List, [], ◌∷◌, done, and_then_step,
  and_then-reads, non_null, pos,
}
use c_cometd_client.Libs.Json.{JsonGlib, JsonLaws}
use c_cometd_client.Conn.Types.{Conn, Transport}
use c_cometd_client.State.{Env, Post, put_conn, lift_conn}
use c_cometd_client.Msg.{
  successful_field, channel_meta_connect, connect_object, msg_channel, msg_is_successful,
  msg_advice, msg_wrap, msg_connect_new, msg_bad_connect_new, msg_set_boolean_member, next_id,
  msg_extract_connect, find_connect, holds_object,
}
use c_cometd_client.Http.{transport_long_polling_recv}
use c_cometd_client.Http.Failures.{IsUnreachable, transport_long_polling_send-fails}
use c_cometd_client.Client.{W}
use c_cometd_client.Session.{transport_long_polling}
use c_cometd_client.Receiving.{run_recv, or_bad_connect, recv}

module _ (json : JsonGlib) where
  open json use {Node, take_object, take_array}

  abbrev pub with_seed : Conn → ℕ → Conn
  with_seed conn seed = record conn { msg_id_seed = seed }

  pub msg_connect_new-some :
      (conn : Conn) (t : Transport)
      → conn.transport ≡ some t
      → msg_connect_new json conn
        ≡ done (
          take_object (connect_object json (pos (conn.msg_id_seed + 1)) t.name conn.client_id),
          with_seed conn (conn.msg_id_seed + 1),
        )
  unfolding msg_connect_new next_id
  msg_connect_new-some conn t e = simp e

  -- The message that stands for a failed receive.
  abbrev pub bad_connect : ℕ → String → String → Node
  bad_connect id transport client = take_object (
      json.set_boolean_member (connect_object json (pos id) transport (some client))
        successful_field false)

  module _ (laws : JsonLaws json) where
    msg_bad_connect_new-bad_connect :
        (conn : Conn) (t : Transport) (client : String)
        → conn.transport ≡ some t
        → conn.client_id ≡ some client
        → msg_bad_connect_new json conn
          ≡ done (
            bad_connect (conn.msg_id_seed + 1) t.name client,
            with_seed conn (conn.msg_id_seed + 1),
          )
    unfolding msg_bad_connect_new msg_connect_new next_id msg_set_boolean_member holds_object
    msg_bad_connect_new-bad_connect conn t client e known =
        simp (e, known, laws.type-take_object, laws.get-take_object)

    module _ (id : ℕ) (transport client : String) where
      pub bad_connect_channel :
          msg_channel json (some (bad_connect id transport client)) ≡ some channel_meta_connect
      unfolding msg_channel holds_object
      bad_connect_channel = simp (
        connect_object, laws.type-take_object, laws.get-take_object, laws.set_boolean_member_lem,
        laws.set_string_member_lem, laws.get_string_member_lem, laws.get_member-set,
        laws.get-string_node,
      )

      pub bad_connect_fails : msg_is_successful json (bad_connect id transport client) ≡ false
      unfolding msg_is_successful
      bad_connect_fails = simp (
        laws.type-take_object, laws.get-take_object, laws.set_boolean_member_lem,
        laws.has_member_lem, laws.get_boolean_member_lem, laws.get_member-set,
        laws.get-boolean_node,
      )

      pub bad_connect_advice : msg_advice json (bad_connect id transport client) ≡ done none
      unfolding msg_advice holds_object
      bad_connect_advice = simp (
        connect_object, laws.type-take_object, laws.get-take_object, laws.set_boolean_member_lem,
        laws.set_string_member_lem, laws.set_int_member_lem, laws.has_member_lem,
        laws.get_member-set, laws.get_member-new,
      )

    -- The extraction takes a connect message out of a payload that holds nothing else.
    extract_alone :
        (payload node : Node)
        → json.get_elements payload ≡ node ∷ []
        → msg_channel json (some node) ≡ some channel_meta_connect
        → msg_extract_connect json payload ≡ done (some node, take_array [])
    unfolding msg_extract_connect find_connect
    extract_alone payload node alone e =
        rw (alone, msg_extract_connect, find_connect, e) (simp alone)

    pub msg_extract_connect-msg_wrap :
        (node : Node)
        → msg_channel json (some node) ≡ some channel_meta_connect
        → msg_extract_connect json (msg_wrap json node) ≡ done (some node, take_array [])
    unfolding msg_wrap
    msg_extract_connect-msg_wrap node e =
        extract_alone (msg_wrap json node) node (laws.get-take_array (node ∷ [])) e

module _ (env : Env) where
  open env use {json}

  -- The world after a receive that failed: two more ids, and the requests.
  abbrev pub unanswered : W env → List Post → W env
  unanswered w posts = record w {
    h = record w.h { conn = with_seed json w.h.conn (w.h.conn.msg_id_seed + 1 + 1) };
    posts = posts;
  }

module _ (env : Env) (laws : JsonLaws env.json) (unreachable : IsUnreachable env) where
  open env use {json}
  open json use {Node}

  transport_long_polling_recv-fails :
      (w : W env) (t : Transport)
      → w.h.conn.transport ≡ some t
      → (posts : List Post) × (transport_long_polling_recv env w
          ≡ done (
            none,
            record (put_conn w (with_seed json w.h.conn (w.h.conn.msg_id_seed + 1))) {
              posts = posts;
            },
          ))
  unfolding transport_long_polling_recv
  transport_long_polling_recv-fails w t e =
      let connect =
        json.take_object
          (connect_object json (pos (w.h.conn.msg_id_seed + 1)) t.name w.h.conn.client_id) in
      let w₁ = put_conn w (with_seed json w.h.conn (w.h.conn.msg_id_seed + 1)) in
      let (posts, run) =
        transport_long_polling_send-fails env unreachable (msg_wrap json connect) w₁ in
      (posts, and_then_step _ (ap (lift_conn w) (msg_connect_new-some json w.h.conn t e)) ∙ run)

  -- Where the server cannot be reached, and the client's transport is long polling and its id is
  -- set, `cometd_recv` gives a payload of one message, a connect message that says it was not
  -- successful; two ids are used, and nothing changes but the requests.
  pub recv-fails :
      (w : W env) (client : String)
      → w.h.conn.transport ≡ some transport_long_polling
      → w.h.conn.client_id ≡ some client
      → (posts : List Post) × (recv env w
          ≡ done (
            msg_wrap json (bad_connect json (w.h.conn.msg_id_seed + 1 + 1) "long-polling" client),
            unanswered env w posts,
          ))
  unfolding recv run_recv
  recv-fails w client e known =
      let (posts, run) = transport_long_polling_recv-fails w transport_long_polling e in
      let w₁ = record (put_conn w (with_seed json w.h.conn (w.h.conn.msg_id_seed + 1))) {
        posts = posts;
      } in
      (
        posts,
        and_then-reads (λ (w : W env). non_null w.h.conn.transport) w transport_long_polling _
              (ap non_null e)
            ∙ and_then_step (or_bad_connect env) run
            ∙ and_then_step _ (
                ap (lift_conn w₁) (
                  msg_bad_connect_new-bad_connect json laws w₁.h.conn transport_long_polling client
                    e known)),
      )
