-- ===== src/Msg.antt =====
-- src/msg.c: reading and writing Bayeux messages. The calls of json-glib are a parameter, `json`. A
-- node that the code may find to be NULL is an `Option`.
mod Names
pub mod Advising
pub mod Extracting
use c_cometd_client.Prelude.{
  ℕ, ◌+◌, String, Bool, true, false, Option, none, some, List, [], ◌∷◌, reverse, ℤ, pos, is_zero,
  str_eq, if◌then◌else◌, get_elem?, remove_idx, Outcome, done, crash, starved, Cmd, pure, reads,
  gets, non_null, ◌>>=◌,
}
use c_cometd_client.Libs.Json.{JsonGlib, NodeType, object, array, bind}
use c_cometd_client.Conn.Types.{
  Reconnect, reconnect_none, reconnect_retry, reconnect_handshake, Advice, Conn,
}
use c_cometd_client.Conn.{advice_new}
pub use Names.*

abbrev is_object : NodeType → Bool
is_object object = true
is_object _ = false

-- The result of the chain of tests in `msg_advice`: what `reconnect` says, else what it was.
abbrev read_reconnect : String → Reconnect → Reconnect
read_reconnect reconnect old =
    if str_eq "none" reconnect
    then reconnect_none
    else if str_eq "handshake" reconnect
    then reconnect_handshake
    else if str_eq "retry" reconnect
    then reconnect_retry
    else old

-- The switch of `msg_set_advice`.
abbrev pub reconnect_name : Reconnect → String
reconnect_name reconnect_none = "none"
reconnect_name reconnect_retry = "retry"
reconnect_name reconnect_handshake = "handshake"

-- ++(h->conn->msg_id_seed), a `long` within its range
unfoldable pub next_id : Cmd Conn ℤ
next_id conn =
    let seed = conn.msg_id_seed + 1 in done (pos seed, record conn { msg_id_seed = seed })

module _ (json : JsonGlib) where
  open json use {
    Node, Object, node_type, get_object, get_string, get_elements, take_object, take_array,
    object_new, has_member, get_string_member, get_int_member, get_boolean_member,
    get_object_member, get_array_member, set_string_member, set_int_member, set_boolean_member,
    set_object_member,
  }

  -- JSON_NODE_HOLDS_OBJECT
  unfoldable pub holds_object : Node → Bool
  holds_object node = is_object (node_type node)

  abbrev first_object : List Node → Option Object
  first_object [] = none
  first_object (node ∷ nodes) = get_object node

  abbrev message_object : NodeType → Node → Option Object
  message_object array node = first_object (get_elements node)
  message_object object node = get_object node
  message_object _ node = none

  abbrev read_successful : Option Object → Bool
  read_successful none = false
  read_successful (some msg) =
      if has_member msg successful_field then get_boolean_member msg successful_field else false

  unfoldable pub msg_is_successful : Node → Bool
  msg_is_successful node = read_successful (message_object (node_type node) node)

  abbrev has_data : Option Object → Bool
  has_data none = false
  has_data (some obj) = has_member obj data_field

  unfoldable pub msg_has_data : Node → Bool
  unfolding holds_object
  msg_has_data node = if holds_object node then has_data (get_object node) else false

  -- The channel of a message; NULL for no message, for one that is no object, and for one without.
  unfoldable pub msg_channel : Option Node → Option String
  unfolding holds_object
  msg_channel none = none
  msg_channel (some node) =
      if holds_object node
      then bind (get_object node) (λ obj. get_string_member obj channel_field)
      else none

  -- strdup of NULL is a crash.
  abbrev strdup : Option String → Outcome (Option String)
  strdup none = crash
  strdup (some s) = done (some s)

  unfoldable pub msg_client_id : Node → Outcome (Option String)
  unfolding holds_object
  msg_client_id node =
      if holds_object node
      then strdup (bind (get_object node) (λ obj. get_string_member obj client_id_field))
      else done none

  unfoldable pub dup_strings : List Node → List (Option String) → List (Option String)
  dup_strings [] types = types
  dup_strings (item ∷ items) types = dup_strings items (get_string item ∷ types)

  abbrev types_of : Option (List Node) → List (Option String)
  unfolding dup_strings
  types_of none = []
  types_of (some arr) = reverse (dup_strings arr [])

  -- A type that is no string is NULL.
  unfoldable pub msg_supported_connection_types : Node → List (Option String)
  unfolding holds_object dup_strings
  msg_supported_connection_types node =
      if holds_object node
      then types_of
          (bind (get_object node) (λ obj. get_array_member obj "supportedConnectionTypes"))
      else []

  abbrev write_boolean : String → Bool → Option Object → Outcome Node
  write_boolean member val none = crash
  write_boolean member val (some obj) = done (take_object (set_boolean_member obj member val))

  -- g_assert(JSON_NODE_HOLDS_OBJECT (node)), then the write.
  unfoldable pub msg_set_boolean_member : Node → String → Bool → Outcome Node
  unfolding holds_object
  msg_set_boolean_member node member val =
      if holds_object node then write_boolean member val (get_object node) else crash

  -- `reconnect` may be NULL, and `strcmp` reads it if the interval is not zero.
  unfoldable pub read_advice : Option String → ℤ → Outcome (Option Advice)
  unfolding advice_new
  read_advice none interval = if is_zero interval then done none else crash
  read_advice (some reconnect) interval = done (
      some (record advice_new {
        interval = interval;
        reconnect = read_reconnect reconnect advice_new.reconnect;
      }))

  abbrev advice_of : Option Object → Outcome (Option Advice)
  unfolding read_advice
  advice_of none = done none
  advice_of (some advice_obj) =
      read_advice (get_string_member advice_obj "reconnect") (get_int_member advice_obj "interval")

  abbrev advice_object : Object → Option Object
  advice_object obj =
      if has_member obj advice_field then get_object_member obj advice_field else none

  unfoldable pub msg_advice : Node → Outcome (Option Advice)
  unfolding holds_object read_advice
  msg_advice node =
      if holds_object node then advice_of (bind (get_object node) advice_object) else done none

  abbrev write_advice : Node → Advice → Option Object → Node
  write_advice msg advice none = msg
  write_advice msg advice (some obj) =
      let reconnect = reconnect_name advice.reconnect in
      let advice_obj =
        set_int_member (set_string_member object_new "reconnect" (some reconnect)) "interval"
          advice.interval in
      take_object (set_object_member obj advice_field advice_obj)

  unfoldable pub msg_set_advice : Node → Option Advice → Node
  unfolding holds_object
  msg_set_advice msg none = msg
  msg_set_advice msg (some advice) =
      if holds_object msg then write_advice msg advice (get_object msg) else msg

  -- `if (strcmp(COMETD_CHANNEL_META_CONNECT, channel) == 0) index = i`; `none` is the index -1.
  abbrev index_after : Option String → ℕ → Option ℕ → Outcome (Option ℕ)
  index_after none i index = crash
  index_after (some channel) i index =
      done (if str_eq channel_meta_connect channel then some i else index)

  -- The loop over the messages.
  unfoldable pub find_connect : List Node → ℕ → Option ℕ → Outcome (Option ℕ)
  find_connect [] i index = done index
  find_connect (msg ∷ msgs) i index = elim (index_after (msg_channel (some msg)) i index) [
    | done index' ↦ find_connect msgs (i + 1) index'
    | crash ↦ crash
    | starved ↦ starved
  ]

  abbrev take_connect : Node → Option ℕ → Option Node × Node
  take_connect payload none = (none, payload)
  take_connect payload (some index) =
      (get_elem? (get_elements payload) index, take_array (remove_idx (get_elements payload) index))

  -- The connect message or NULL, and the payload as it is afterwards.
  unfoldable pub msg_extract_connect : Node → Outcome (Option Node × Node)
  msg_extract_connect payload = elim (find_connect (get_elements payload) 0 none) [
    | done index ↦ done (take_connect payload index)
    | crash ↦ crash
    | starved ↦ starved
  ]

  unfoldable pub msg_wrap : Node → Node
  msg_wrap msg = take_array (msg ∷ [])

  -- The copy shares the message's object, so a later write into the one shows in the other.
  unfoldable pub msg_wrap_copy : Node → Node
  unfolding msg_wrap
  msg_wrap_copy msg = msg_wrap msg

  abbrev pub connect_object : ℤ → String → Option String → Object
  connect_object seed connection_type client_id =
      let obj = set_int_member object_new id_field seed in
      let obj = set_string_member obj channel_field (some channel_meta_connect) in
      let obj = set_string_member obj "connectionType" (some connection_type) in
      set_string_member obj "clientId" client_id

  -- A connection with no transport is a crash.
  unfoldable pub msg_connect_new : Cmd Conn Node
  msg_connect_new = do
    seed ← next_id
    transport ← reads (λ conn. non_null conn.transport)
    conn ← gets (λ conn. conn)
    pure (take_object (connect_object seed transport.name conn.client_id))

  unfoldable pub msg_bad_connect_new : Cmd Conn Node
  msg_bad_connect_new = do
    msg ← msg_connect_new
    reads (λ conn. msg_set_boolean_member msg successful_field false)
