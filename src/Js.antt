-- ===== src/Js.antt =====
-- The JavaScript values that the code inspects: primitives, and objects on a heap with their kind,
-- prototype and own property descriptors. A `Proxy` stands for one whose every trap throws; one
-- whose traps only pass on to their target reads as the target does, except to `util.types.isProxy`.
use air_call_demo_recording.Base.{
  ℕ, ◌^◌, Bool, true, false, ◌&&◌, Option, none, some, List, [], ◌∷◌, get_elem?, ltb, ◌==◌,
  if◌then◌else◌,
}
use air_call_demo_recording.Base.Text.{Text, text_eq}

-- A number: `natural n` is n (and -0 is `natural 0`, since no code here tells them apart),
-- `finite` any other finite number by an identity of its own.
pub data Number : Type 0 where
  natural : ℕ → Number
  finite : ℕ → Number
  infinite : Bool → Number
  nan : Number

-- `exotic` is a symbol or a bigint, `ref` the address of an object.
pub data Value : Type 0 where
  undefined null : Value
  bool : Bool → Value
  num : Number → Value
  str : Text → Value
  exotic : ℕ → Value
  function : ℕ → Value
  ref : ℕ → Value

-- A property key; `index n` is the name that is the decimal numeral of n.
pub data Key : Type 0 where
  index : ℕ → Key
  name : Text → Key
  symbol : ℕ → Key

pub data Content : Type 0 where
  value : Value → Content
  accessor : Content

pub record Descriptor : Type 0 where
  pub enumerable : Bool
  pub content : Content

pub data Proto : Type 0 where
  object_prototype array_prototype set_prototype null_prototype other_prototype : Proto

-- The length of an array is a field of its kind; its own key "length" is among its properties.
pub data Kind : Type 0 where
  ordinary : Kind
  array : ℕ → Kind
  set_of : List Value → Kind
  proxy : Kind

pub record HeapObject : Type 0 where
  pub kind : Kind
  pub proto : Proto
  pub props : List (Key × Descriptor)

abbrev pub Heap : Type 0
Heap = List HeapObject

-- The object at an address, if the value is one. An address outside the heap, which no program
-- holds, is no object.
unfoldable pub deref : Heap → Value → Option HeapObject
deref h (ref a) = get_elem? h a
deref h _ = none

unfoldable pub key_eq : Key → Key → Bool
unfolding text_eq
key_eq (index m) (index n) = m == n
key_eq (name s) (name t) = text_eq s t
key_eq (symbol m) (symbol n) = m == n
key_eq _ _ = false

unfoldable pub find_property : Key → List (Key × Descriptor) → Option Descriptor
unfolding key_eq
find_property k [] = none
find_property k ((j, d) ∷ props) = if key_eq j k then some d else find_property k props

-- `Object.getOwnPropertyDescriptor(object, key)`.
unfoldable pub own_descriptor : HeapObject → Key → Option Descriptor
unfolding find_property
own_descriptor o k = find_property k o.props

unfoldable pub has_symbol_key : List (Key × Descriptor) → Bool
has_symbol_key [] = false
has_symbol_key ((symbol _, _) ∷ props) = true
has_symbol_key (_ ∷ props) = has_symbol_key props

abbrev plain_proto : Proto → Bool
plain_proto object_prototype = true
plain_proto null_prototype = true
plain_proto _ = false

abbrev plain_kind : Kind → Bool
plain_kind ordinary = true
plain_kind (set_of _) = true
plain_kind _ = false

abbrev as_plain : Option HeapObject → Option HeapObject
as_plain none = none
as_plain (some o) = if plain_kind o.kind && plain_proto o.proto then some o else none

-- `isPlainRecord(value)`: the object, if it is no array and its prototype is `Object.prototype` or
-- null. A proxy's trap throws, which the function catches as false.
unfoldable pub plain_record : Heap → Value → Option HeapObject
unfolding deref
plain_record h v = as_plain (deref h v)

-- `Number.isSafeInteger(value) && value >= 0`.
unfoldable pub is_safe_natural : Number → Bool
is_safe_natural (natural n) = ltb n (2 ^ 53)
is_safe_natural _ = false

unfoldable pub number_same : Number → Number → Bool
number_same (natural m) (natural n) = m == n
number_same (finite m) (finite n) = m == n
number_same (infinite true) (infinite true) = true
number_same (infinite false) (infinite false) = true
number_same nan nan = true
number_same _ _ = false

-- SameValueZero, the equality of `includes`, `Set` and `Map`.
unfoldable pub same_value : Value → Value → Bool
unfolding number_same text_eq
same_value undefined undefined = true
same_value null null = true
same_value (bool true) (bool true) = true
same_value (bool false) (bool false) = true
same_value (num m) (num n) = number_same m n
same_value (str s) (str t) = text_eq s t
same_value (exotic m) (exotic n) = m == n
same_value (function m) (function n) = m == n
same_value (ref m) (ref n) = m == n
same_value _ _ = false
