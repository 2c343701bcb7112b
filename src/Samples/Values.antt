-- ===== src/Samples/Values.antt =====
-- A JSON type on which the calls of json-glib are functions that have the documented behaviour.
use c_cometd_client.Prelude.{
  ◌≡◌, refl, ap, String, Bool, false, Option, none, some, List, [], ◌∷◌, ℤ, pos, str_eq, eq_iff,
  if◌then◌else◌, arith,
}
use c_cometd_client.Libs.Json.{
  JsonGlib, JsonLaws, NodeType, object, array, value, is_some, from_member, bind,
}

-- The members of an object and the elements of an array are lists of their own.
mutual
  pub data Members : Type 0 where
    field : String → Value → Members → Members
    end : Members

  pub data Elements : Type 0 where
    cons : Value → Elements → Elements
    nil : Elements

  pub data Value : Type 0 where
    obj : Members → Value
    arr : Elements → Value
    truth : Bool → Value
    number : ℤ → Value
    text : String → Value
    null : Value

abbrev pub to_list : Elements → List Value
to_list nil = []
to_list (cons v vs) = v ∷ to_list vs

abbrev pub of_list : List Value → Elements
of_list [] = nil
of_list (v ∷ vs) = cons v (of_list vs)

to_list-of_list : (vs : List Value) → to_list (of_list vs) ≡ vs
to_list-of_list [] = refl
to_list-of_list (v ∷ vs) = ap (◌∷◌ v) (to_list-of_list vs)

abbrev pub type_of : Value → NodeType
type_of null = NodeType.null
type_of (text s) = value
type_of (number z) = value
type_of (truth b) = value
type_of (arr vs) = array
type_of (obj fs) = object

abbrev pub object_of : Value → Option Members
object_of (obj fs) = some fs
object_of _ = none

abbrev pub text_of : Value → Option String
text_of (text s) = some s
text_of _ = none

abbrev pub number_of : Value → ℤ
number_of (number z) = z
number_of _ = pos 0

abbrev pub truth_of : Value → Bool
truth_of (truth b) = b
truth_of _ = false

abbrev pub elements_of : Value → List Value
elements_of (arr vs) = to_list vs
elements_of _ = []

abbrev pub member : Members → String → Option Value
member end k = none
member (field j v fs) k = if str_eq j k then some v else member fs k

abbrev pub set_field : Members → String → Value → Members
set_field end k v = field k v end
set_field (field j w fs) k v = if str_eq j k then field j v fs else field j w (set_field fs k v)

member-set_field :
    (fs : Members) (k j : String) (v : Value)
    → member (set_field fs k v) j ≡ (if str_eq k j then some v else member fs j)
member-set_field end k j v = refl
member-set_field (field i w fs) k j v =
    ground (arith, eq_iff k j, eq_iff i k, eq_iff i j, member-set_field fs k j v)

abbrev pub text_or_null : Option String → Value
text_or_null none = null
text_or_null (some s) = text s

object_of_object : (v : Value) → type_of v ≡ object → (fs : Members) × (object_of v ≡ some fs)
object_of_object (obj fs) e = (fs, refl)
object_of_object null e = absurd (ground arith)
object_of_object (text s) e = absurd (ground arith)
object_of_object (number z) e = absurd (ground arith)
object_of_object (truth b) e = absurd (ground arith)
object_of_object (arr vs) e = absurd (ground arith)

-- json-glib over this type, with the generator and the parser left open.
abbrev pub value_json : (Option Value → Option String) → (String → Option Value) → JsonGlib
value_json to_data load = record {
  Node = Value;
  Object = Members;
  node_type = type_of;
  get_object = object_of;
  get_string = text_of;
  get_int = number_of;
  get_boolean = truth_of;
  get_elements = elements_of;
  take_object = obj;
  take_array = λ vs. arr (of_list vs);
  string_node = text;
  int_node = number;
  boolean_node = truth;
  object_new = end;
  get_member = member;
  set_member = set_field;
  has_member = λ o k. is_some (member o k);
  get_string_member = λ o k. bind (member o k) text_of;
  get_int_member = λ o k. from_member (pos 0) number_of (member o k);
  get_boolean_member = λ o k. from_member false truth_of (member o k);
  get_object_member = λ o k. bind (member o k) object_of;
  get_array_member = λ o k. bind (member o k) (λ n. some (elements_of n));
  set_string_member = λ o k s. set_field o k (text_or_null s);
  set_int_member = λ o k z. set_field o k (number z);
  set_boolean_member = λ o k b. set_field o k (truth b);
  set_object_member = λ o k v. set_field o k (obj v);
  set_array_member = λ o k vs. set_field o k (arr (of_list vs));
  to_data = to_data;
  load_from_data = load;
}

pub value_laws :
    (to_data : Option Value → Option String) (load : String → Option Value)
    → JsonLaws (value_json to_data load)
value_laws to_data load = record {
  type-take_object = λ o. refl;
  get_object-object = object_of_object;
  get-take_object = λ o. refl;
  type-take_array = λ vs. refl;
  get-take_array = to_list-of_list;
  get-string_node = λ s. refl;
  get-int_node = λ z. refl;
  get-boolean_node = λ b. refl;
  get_member-new = λ k. refl;
  get_member-set = member-set_field;
  has_member_lem = λ o k. refl;
  get_string_member_lem = λ o k. refl;
  get_object_member_lem = λ o k. refl;
  get_array_member_lem = λ o k. refl;
  get_int_member_lem = λ o k. refl;
  get_boolean_member_lem = λ o k. refl;
  set_string_member_lem = λ o k s. refl;
  set_int_member_lem = λ o k z. refl;
  set_boolean_member_lem = λ o k b. refl;
  set_object_member_lem = λ o k v. refl;
  set_array_member_lem = λ o k vs. refl;
}
