-- ===== src/MondayAdapter.antt =====
-- monday-callback-adapter.mjs. What a query gives is a tree, as JSON of the network is, or an error;
-- objects with getters or of other prototypes are left out. A lead is the tree that the adapter turns
-- into a text by `JSON.stringify`.
pub mod Lookup
pub mod Evidence
pub mod Resolution
mod Examples
use air_call_demo_recording.Base.{
  ℕ, zero, suc, ◌+◌, ◌-◌, ◌*◌, ◌/◌, ◌%◌, ◌^◌, ◌≤◌, ◌<◌, ◌≡◌, refl, sym, ap, ◌∙◌, ◌≢◌, ◌↔◌, ◌⊎◌, inl,
  inr, Bool, true, false, not, ◌&&◌, ◌||◌, Option, none, some, List, [], ◌∷◌, ◌++◌, map, arith, ltb,
  leb, ◌==◌, if◌then◌else◌, ==_iff, Bool-cases, Option-cases, and-both, length, take, get_elem?,
  get_elem?-lt, all, any, All, Attempt, returned, thrown,
}
use air_call_demo_recording.Base.Text.{Text, codes, text_eq, has, trim}
use air_call_demo_recording.Base.Text.Patterns.{is_digit, is_alnum, is_opaque, is_phone}
use air_call_demo_recording.Js.{Value, str}
use air_call_demo_recording.ConsentResolver.Leads.{
  Json, text, flag, arr, obj, Elements, nil, cons, elements, Fields, field, end, get, opaque_text,
  opaque_identifier,
}

pub record AdapterConfig : Type 0 where
  pub canonical_board_id : Text
  pub state_column_id : Text
  pub phone_column_ids : List Text
  pub allowed_phone_column_types : List Text
  pub state_source : Text

-- The configuration as it reads; a list is none where the property is no plain array, and the types
-- are none where they are not given.
pub record GivenConfig : Type 0 where
  pub canonical_board_id : Value
  pub state_column_id : Value
  pub state_source : Value
  pub query_given : Bool
  pub phone_column_ids : Option (List Value)
  pub allowed_phone_column_types : Option (Option (List Value))

infixl 5 ◌>>=◌ ◌>>◌
abbrev pub ◌>>=◌ {ℓ κ} : {A : Type ℓ} {B : Type κ} → Option A → (A → Option B) → Option B
none >>= k = none
some a >>= k = k a

abbrev pub ◌>>◌ {ℓ} : {B : Type ℓ} → Option (Unit {0}) → Option B → Option B
m >> k = m >>= λ u. k

abbrev pub guard : Bool → Option (Unit {0})
guard true = some tt
guard false = none

abbrev is_type_unit : ℕ → Bool
is_type_unit c = is_alnum c || c == b'_' || c == b'-'

-- TYPE_NAME
unfoldable pub is_type_name : Text → Bool
is_type_name [] = false
is_type_name (c ∷ t) = is_alnum c && not (is_digit c) && all is_type_unit t && leb (length t) 31

abbrev lower_unit : ℕ → ℕ
lower_unit c = if leb b'A' c && leb c b'Z' then c + 32 else c

-- `typeName`: the lower case of a type's name.
abbrev pub type_name : Text → Option Text
type_name t = if is_type_name t then some (map lower_unit t) else none

abbrev type_of_value : Value → Option Text
type_of_value (str t) = type_name t
type_of_value _ = none

unfoldable pub map_all : (Value → Option Text) → List Value → Option (List Text)
map_all f [] = some []
map_all f (v ∷ vs) = do t ← f v; ts ← map_all f vs; some (t ∷ ts)

unfoldable pub distinct : List Text → Bool
distinct [] = true
distinct (t ∷ ts) = not (has ts t) && distinct ts

abbrev bounded_list : (Value → Option Text) → List Value → Option (List Text)
bounded_list f vs = do
  guard (leb 1 (length vs) && leb (length vs) 16)
  ts ← map_all f vs
  guard (distinct ts)
  some ts

abbrev given_types : Option (Option (List Value)) → Option (List Value)
given_types none = some (str (codes "phone") ∷ [])
given_types (some vs) = vs

-- `validateConfig`
unfoldable pub validate_config : GivenConfig → Option AdapterConfig
validate_config c = do
  board ← opaque_identifier c.canonical_board_id
  column ← opaque_identifier c.state_column_id
  source ← opaque_identifier c.state_source
  guard c.query_given
  listed ← c.phone_column_ids
  phones ← bounded_list opaque_identifier listed
  guard (not (has phones column))
  configured ← given_types c.allowed_phone_column_types
  types ← bounded_list type_of_value configured
  some (record {
    canonical_board_id = board;
    state_column_id = column;
    phone_column_ids = phones;
    allowed_phone_column_types = types;
    state_source = source;
  })

pub record Column : Type 0 where
  pub id : Text
  pub content : Text
  pub kind : Text

pub record RawItem : Type 0 where
  pub id : Text
  pub board_id : Text
  pub columns : List Column

-- `ownValue`, `ownObject` and `ownArray`
abbrev pub own_value : Text → Json → Option Json
own_value k (obj fs) = get k fs
own_value k _ = none

abbrev pub as_object : Json → Option Json
as_object (obj fs) = some (obj fs)
as_object _ = none

abbrev pub as_array : Json → Option (List Json)
as_array (arr es) = some (elements es)
as_array _ = none

abbrev safe_text : Json → Option Text
safe_text (text t) = if leb (length t) 256 then some t else none
safe_text _ = none

abbrev type_of : Json → Option Text
type_of (text t) = type_name t
type_of _ = none

-- One column of `boundedColumns`, with its type in lower case.
unfoldable pub bounded_column : Json → Option Column
bounded_column j = do
  id ← own_value (codes "id") j
  id_text ← opaque_text id
  content ← own_value (codes "text") j
  content_text ← safe_text content
  kind ← own_value (codes "type") j
  kind_text ← type_of kind
  some (record { id = id_text; content = content_text; kind = kind_text })

unfoldable pub each {ℓ} : {A : Type ℓ} → (Json → Option A) → List Json → Option (List A)
each f [] = some []
each f (j ∷ js) = do a ← f j; rest ← each f js; some (a ∷ rest)

-- `boundedItem`
unfoldable pub bounded_item : ℕ → Json → Option RawItem
bounded_item limit j = do
  id ← own_value (codes "id") j
  id_text ← opaque_text id
  board ← own_value (codes "board") j
  board_object ← as_object board
  board_id ← own_value (codes "id") board_object
  board_text ← opaque_text board_id
  values ← own_value (codes "column_values") j
  listed ← as_array values
  guard (leb (length listed) limit)
  columns ← each bounded_column listed
  some (record { id = id_text; board_id = board_text; columns = columns })

-- `boundedItems`
unfoldable pub bounded_items : ℕ → ℕ → Json → Option (List RawItem)
bounded_items column_limit item_limit j = do
  listed ← as_array j
  guard (leb (length listed) item_limit)
  each (bounded_item column_limit) listed

unfoldable pub digits_of : Text → Text
digits_of [] = []
digits_of (c ∷ t) = if is_digit c then c ∷ digits_of t else digits_of t

-- `displayDigits` of a safe text.
abbrev pub display_digits : Text → Option Text
display_digits t = if is_phone (digits_of t) then some (digits_of t) else none

unfoldable pub columns_of : Text → List Column → List Column
columns_of id [] = []
columns_of id (c ∷ columns) =
    if text_eq c.id id then c ∷ columns_of id columns else columns_of id columns

abbrev add_new : Option Text → List Text → List Text
add_new none seen = seen
add_new (some t) seen = if has seen t then seen else seen ++ t ∷ []

unfoldable pub column_phones : List Text → List Column → List Text → List Text
column_phones types [] seen = seen
column_phones types (c ∷ columns) seen =
    column_phones types columns
      (if has types c.kind then add_new (display_digits c.content) seen else seen)

-- The phones of an item, each once, by the order of the phone columns.
unfoldable pub phones_of : List Text → List Text → List Column → List Text → List Text
phones_of types [] columns seen = seen
phones_of types (id ∷ ids) columns seen =
    phones_of types ids columns (column_phones types (columns_of id columns) seen)

-- What `canonicalObject` makes of an item.
pub record Lead : Type 0 where
  pub id : Text
  pub board_id : Text
  pub state_value : Text
  pub source : Text
  pub phones : List Text

abbrev is_empty : Text → Bool
is_empty [] = true
is_empty _ = false

abbrev only_state : List Column → Option Text
only_state (c ∷ []) =
    if not (is_empty (trim c.content)) && text_eq c.kind (codes "text")
    then some (trim c.content)
    else none
only_state _ = none

-- `canonicalObject`
unfoldable pub canonical_object : AdapterConfig → RawItem → Option Lead
canonical_object g item = do
  guard (text_eq item.board_id g.canonical_board_id)
  state ← only_state (columns_of g.state_column_id item.columns)
  some (record {
    id = item.id;
    board_id = g.canonical_board_id;
    state_value = state;
    source = g.state_source;
    phones = phones_of g.allowed_phone_column_types g.phone_column_ids item.columns [];
  })

abbrev digits_are : Option Text → Text → Bool
digits_are none expected = false
digits_are (some digits) expected = text_eq digits expected

-- `matchingPhone` of one phone column, which gives the expected phone or nothing.
unfoldable pub matching_phone : AdapterConfig → Text → Text → List Column → Bool
matching_phone g column expected [] = false
matching_phone g column expected (c ∷ columns) =
    text_eq column c.id
      && has g.allowed_phone_column_types c.kind
      && digits_are (display_digits c.content) expected
    || matching_phone g column expected columns
