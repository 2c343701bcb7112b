-- ===== src/Msg/Advising.antt =====
-- The server's advice: what `msg_set_advice` writes, `msg_advice` reads; and what it cannot read.
use c_cometd_client.Prelude.{
  ◌≡◌, refl, ◌↔◌, Bool-cases, Option-cases, true, false, none, some, is_zero, arith, inl, inr, done,
  crash,
}
use c_cometd_client.Libs.Json.{JsonGlib, JsonLaws, NodeType, object}
use c_cometd_client.Conn.Types.{
  Reconnect, reconnect_none, reconnect_retry, reconnect_handshake, Advice,
}
use c_cometd_client.Msg.{
  advice_field, reconnect_name, holds_object, msg_advice, msg_set_advice, read_reconnect, is_object,
}

read_reconnect-name : (r old : Reconnect) → read_reconnect (reconnect_name r) old ≡ r
read_reconnect-name reconnect_none old = refl
read_reconnect-name reconnect_retry old = refl
read_reconnect-name reconnect_handshake old = refl

is_object→object : (t : NodeType) → is_object t ≡ true → t ≡ object
is_object→object t h = ground arith

module _ (json : JsonGlib) (laws : JsonLaws json) where
  open json use {
    Node, Object, get_object, has_member, get_object_member, get_string_member, get_int_member,
  }

  -- What `msg_set_advice` writes into a message that is an object, `msg_advice` reads back: each of
  -- the three kinds of advice with its interval.
  pub msg_advice-msg_set_advice :
      (msg : Node) (advice : Advice)
      → holds_object json msg ≡ true
      → msg_advice json (msg_set_advice json msg (some advice)) ≡ done (some advice)
  unfolding msg_advice msg_set_advice
  msg_advice-msg_set_advice msg advice h =
      let (obj, found) = laws.get_object-object msg (is_object→object _ h) in
      rw (h, found)
        (simp (
          laws.type-take_object, laws.get-take_object, laws.has_member_lem,
          laws.get_object_member_lem, laws.get_string_member_lem, laws.get_int_member_lem,
          laws.set_object_member_lem, laws.set_int_member_lem, laws.set_string_member_lem,
          laws.get_member-set, laws.get-int_node, laws.get-string_node, read_reconnect-name,
        ))

  -- The members of an advice that `msg_advice` cannot read.
  pub record LacksReconnect (msg : Node) : Type 0 where
    pub obj : Object
    pub advice_obj : Object
    pub holds : holds_object json msg ≡ true
    pub found : get_object msg ≡ some obj
    pub member : has_member obj advice_field ≡ true
    pub advised : get_object_member obj advice_field ≡ some advice_obj
    pub missing : get_string_member advice_obj "reconnect" ≡ none
    pub waits : is_zero (get_int_member advice_obj "interval") ≡ false

  msg_advice_of_LacksReconnect : (msg : Node) → LacksReconnect msg → msg_advice json msg ≡ crash
  unfolding msg_advice
  msg_advice_of_LacksReconnect msg l =
      rw (l.holds, l.found, l.member, l.advised, l.missing, l.waits)

  LacksReconnect-of_crash : (msg : Node) → msg_advice json msg ≡ crash → LacksReconnect msg
  unfolding msg_advice
  LacksReconnect-of_crash msg e = elim (Bool-cases (holds_object json msg)) [
    | inr other ↦ absurd (ground arith)
    | inl holds ↦ elim (Option-cases (get_object msg)) [
      | inl no_object ↦ absurd (ground arith)
      | inr (obj, found) ↦ elim (Bool-cases (has_member obj advice_field)) [
        | inr no_member ↦ absurd (ground arith)
        | inl member ↦ elim (Option-cases (get_object_member obj advice_field)) [
          | inl null ↦ absurd (ground arith)
          | inr (advice_obj, advised) ↦ record {
            obj = obj;
            advice_obj = advice_obj;
            holds = holds;
            found = found;
            member = member;
            advised = advised;
            missing = ground arith;
            waits = ground arith;
          }
        ]
      ]
    ]
  ]

  -- `msg_advice` crashes exactly at a message whose advice has an interval other than 0 and no text
  -- `reconnect`: the null pointer goes to `strcmp`.
  pub msg_advice-crash_iff : (msg : Node) → (msg_advice json msg ≡ crash) ↔ LacksReconnect msg
  msg_advice-crash_iff msg = (LacksReconnect-of_crash msg, msg_advice_of_LacksReconnect msg)
