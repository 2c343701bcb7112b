-- ===== src/Libs/Json.antt =====
-- json-glib, as msg.c, json.c, inbox.c, transport.c and cometd.c use it. A node is the value that it
-- holds; an operation that writes into an object returns the object as it is afterwards.
use c_cometd_client.Prelude.{
  String, ◌≡◌, Bool, true, false, Option, none, some, List, ℤ, pos, str_eq, if◌then◌else◌,
}

-- `JSON_NODE_TYPE`
pub data NodeType : Type 0 where
  object array value null : NodeType

abbrev pub is_some : {A : Type 0} → Option A → Bool
is_some none = false
is_some (some a) = true

abbrev pub from_member : {A B : Type 0} → B → (A → B) → Option A → B
from_member d f none = d
from_member d f (some a) = f a

abbrev pub bind : {A B : Type 0} → Option A → (A → Option B) → Option B
bind none f = none
bind (some a) f = f a

pub record JsonGlib : Type 1 where
  pub Node : Type 0
  pub Object : Type 0
  pub node_type : Node → NodeType
  -- json_node_get_object, json_node_get_string, json_node_get_int, json_node_get_boolean; `none` is
  -- the NULL that a node of another type gives.
  pub get_object : Node → Option Object
  pub get_string : Node → Option String
  pub get_int : Node → ℤ
  pub get_boolean : Node → Bool
  -- json_array_get_elements of json_node_get_array
  pub get_elements : Node → List Node
  -- json_node_new with json_node_take_object and json_node_take_array
  pub take_object : Object → Node
  pub take_array : List Node → Node
  -- the nodes that hold a text, a number, a truth value
  pub string_node : String → Node
  pub int_node : ℤ → Node
  pub boolean_node : Bool → Node
  -- json_object_new, json_object_get_member, json_object_set_member
  pub object_new : Object
  pub get_member : Object → String → Option Node
  pub set_member : Object → String → Node → Object
  -- json_object_has_member and the typed reads of a member
  pub has_member : Object → String → Bool
  pub get_string_member : Object → String → Option String
  pub get_int_member : Object → String → ℤ
  pub get_boolean_member : Object → String → Bool
  pub get_object_member : Object → String → Option Object
  pub get_array_member : Object → String → Option (List Node)
  -- the typed writes of a member
  pub set_string_member : Object → String → Option String → Object
  pub set_int_member : Object → String → ℤ → Object
  pub set_boolean_member : Object → String → Bool → Object
  pub set_object_member : Object → String → Object → Object
  pub set_array_member : Object → String → List Node → Object
  -- json_generator_to_data, and the root that json_parser_load_from_data leaves
  pub to_data : Option Node → Option String
  pub load_from_data : String → Option Node

-- What the documentation says of these calls. The typed reads and writes of a member are those of
-- the member's node; a member that is not there reads as NULL, 0 or FALSE.
module _ (json : JsonGlib) where
  open json use {
    Node, Object, node_type, get_object, get_string, get_int, get_boolean, get_elements,
    take_object, take_array, string_node, int_node, boolean_node, object_new, get_member,
    set_member, has_member, get_string_member, get_int_member, get_boolean_member,
    get_object_member, get_array_member, set_string_member, set_int_member, set_boolean_member,
    set_object_member, set_array_member,
  }

  pub record JsonLaws : Type 0 where
    pub type-take_object : (o : Object) → node_type (take_object o) ≡ object
    pub get_object-object :
        (n : Node) → node_type n ≡ object → (o : Object) × (get_object n ≡ some o)
    pub get-take_object : (o : Object) → get_object (take_object o) ≡ some o
    pub type-take_array : (ns : List Node) → node_type (take_array ns) ≡ array
    pub get-take_array : (ns : List Node) → get_elements (take_array ns) ≡ ns
    pub get-string_node : (s : String) → get_string (string_node s) ≡ some s
    pub get-int_node : (z : ℤ) → get_int (int_node z) ≡ z
    pub get-boolean_node : (b : Bool) → get_boolean (boolean_node b) ≡ b
    pub get_member-new : (k : String) → get_member object_new k ≡ none
    pub get_member-set :
        (o : Object) (k j : String) (n : Node)
        → get_member (set_member o k n) j ≡ (if str_eq k j then some n else get_member o j)
    pub has_member_lem : (o : Object) (k : String) → has_member o k ≡ is_some (get_member o k)
    pub get_string_member_lem :
        (o : Object) (k : String) → get_string_member o k ≡ bind (get_member o k) get_string
    pub get_object_member_lem :
        (o : Object) (k : String) → get_object_member o k ≡ bind (get_member o k) get_object
    pub get_array_member_lem :
        (o : Object) (k : String)
        → get_array_member o k ≡ bind (get_member o k) (λ n. some (get_elements n))
    pub get_int_member_lem :
        (o : Object) (k : String)
        → get_int_member o k ≡ from_member (pos 0) get_int (get_member o k)
    pub get_boolean_member_lem :
        (o : Object) (k : String)
        → get_boolean_member o k ≡ from_member false get_boolean (get_member o k)
    pub set_string_member_lem :
        (o : Object) (k s : String)
        → set_string_member o k (some s) ≡ set_member o k (string_node s)
    pub set_int_member_lem :
        (o : Object) (k : String) (z : ℤ) → set_int_member o k z ≡ set_member o k (int_node z)
    pub set_boolean_member_lem :
        (o : Object) (k : String) (b : Bool)
        → set_boolean_member o k b ≡ set_member o k (boolean_node b)
    pub set_object_member_lem :
        (o : Object) (k : String) (v : Object)
        → set_object_member o k v ≡ set_member o k (take_object v)
    pub set_array_member_lem :
        (o : Object) (k : String) (ns : List Node)
        → set_array_member o k ns ≡ set_member o k (take_array ns)
