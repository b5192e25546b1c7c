-- ===== src/ConsentResolver/Leads.antt =====
-- consent-resolver.mjs: the validation of one item. What `JSON.parse` yields is a tree; of the
-- properties of an object with one name the last counts.
use air_call_demo_recording.Base.{
  Bool, true, false, not, ◌&&◌, ◌||◌, Option, none, some, List, [], ◌∷◌, if◌then◌else◌, any,
}
use air_call_demo_recording.Base.Text.{Text, codes, text_eq}
use air_call_demo_recording.Base.Text.Patterns.{is_opaque, is_phone}
use air_call_demo_recording.Js.{Value, Number, str}
use air_call_demo_recording.Consent.States.{normalize_text}

mutual
  pub data Json : Type 0 where
    nothing : Json
    flag : Bool → Json
    number : Number → Json
    text : Text → Json
    arr : Elements → Json
    obj : Fields → Json

  pub data Elements : Type 0 where
    nil : Elements
    cons : Json → Elements → Elements

  pub data Fields : Type 0 where
    end : Fields
    field : Text → Json → Fields → Fields

abbrev pub elements : Elements → List Json
elements nil = []
elements (cons j js) = j ∷ elements js

pub data Method : Type 0 where
  no_method native_item_id unique_phone : Method

pub data ResolverReason : Type 0 where
  invalid_input invalid_canonical_board invalid_state_source missing_phone invalid_phone :
      ResolverReason
  invalid_native_item_id native_lookup_unavailable native_lookup_failed : ResolverReason
  invalid_native_lookup_result phone_lookup_unavailable phone_lookup_failed : ResolverReason
  invalid_phone_lookup_result phone_not_found phone_not_unique : ResolverReason
  native_phone_association_mismatch invalid_item canonical_board_mismatch : ResolverReason
  native_id_mismatch invalid_state_provenance phone_mismatch : ResolverReason

pub record Item : Type 0 where
  pub id : Text
  pub board_id : Text
  pub state : Text

-- `{ item, method, reason }`: an item and no reason, or a reason and no item.
pub data Resolution : Type 0 where
  resolved : Method → Item → Resolution
  no_record : Method → ResolverReason → Resolution

infixl 5 ◌>>=◌
abbrev ◌>>=◌ {ℓ κ} : {A : Type ℓ} {B : Type κ} → Option A → (A → Option B) → Option B
none >>= k = none
some a >>= k = k a

abbrev last_of : Bool → Json → Option Json → Option Json
last_of here j (some later) = some later
last_of true j none = some j
last_of false j none = none

-- `Object.hasOwn(value, key)` and `value[key]`.
unfoldable pub get : Text → Fields → Option Json
get k end = none
get k (field j v fs) = last_of (text_eq j k) v (get k fs)

abbrev when : Bool → Text → Option Text
when b t = if b then some t else none

unfoldable pub opaque_text : Json → Option Text
opaque_text (text t) = when (is_opaque t) t
opaque_text _ = none

unfoldable pub opaque_identifier : Value → Option Text
opaque_identifier (str t) = when (is_opaque t) t
opaque_identifier _ = none

unfoldable pub normalized_phone : Value → Option Text
normalized_phone (str t) = when (is_phone t) t
normalized_phone _ = none

abbrev is_source : Text → Json → Bool
is_source source (text t) = text_eq t source
is_source source _ = false

abbrev is_true : Json → Bool
is_true (flag b) = b
is_true _ = false

abbrev normal : Json → Option Text
normal (text t) = normalize_text t
normal _ = none

abbrev pub provenance : Text → Option Json → Option Json → Option Json → Option Text
provenance source given from checked = do
  v ← given
  s ← from
  verified ← checked
  if is_source source s && is_true verified then normal v else none

-- `validatedProvenanceState`
unfoldable pub validated_state : Text → Json → Option Text
validated_state source (obj fs) =
    provenance source (get (codes "value") fs) (get (codes "source") fs) (get (codes "verified") fs)
validated_state source _ = none

abbrev phone_is : Text → Json → Bool
phone_is expected (text t) = is_phone t && text_eq t expected
phone_is expected _ = false

abbrev phone_at : Text → Option Json → Bool
phone_at expected none = false
phone_at expected (some j) = phone_is expected j

abbrev phone_among : Text → Option Json → Bool
phone_among expected (some (arr phones)) = any (phone_is expected) (elements phones)
phone_among expected _ = false

-- `hasMatchingTrustedPhone`
unfoldable pub has_matching_phone : Fields → Text → Bool
has_matching_phone fs expected =
    phone_at expected (get (codes "phoneDigits") fs)
    || phone_among expected (get (codes "phones") fs)

pub record Snapshot : Type 0 where
  pub id : Json
  pub board_id : Json
  pub state : Json

-- `snapshotItem`
unfoldable pub snapshot_item : Fields → Option Snapshot
snapshot_item fs = do
  id ← get (codes "id") fs
  board ← get (codes "boardId") fs
  state ← get (codes "state") fs
  some (record { id = id; board_id = board; state = state })

abbrev pub differs : Option Text → Text → Bool
differs none id = false
differs (some expected) id = not (text_eq id expected)

module _ (board source : Text) (method : Method) (expected_id : Option Text) (phone : Text) where
  abbrev pub checked_state : Fields → Text → Option Text → Resolution
  checked_state fs id none = no_record method invalid_state_provenance
  checked_state fs id (some state) =
      if has_matching_phone fs phone
      then resolved method (record { id = id; board_id = board; state = state })
      else no_record method phone_mismatch

  abbrev pub checked_ids : Fields → Snapshot → Option Text → Option Text → Resolution
  checked_ids fs s none id = no_record method invalid_item
  checked_ids fs s (some b) none = no_record method invalid_item
  checked_ids fs s (some b) (some id) =
      if not (text_eq b board)
      then no_record method canonical_board_mismatch
      else if differs expected_id id
      then no_record method native_id_mismatch
      else checked_state fs id (validated_state source s.state)

  abbrev pub checked : Fields → Option Snapshot → Resolution
  checked fs none = no_record method invalid_item
  checked fs (some s) = checked_ids fs s (opaque_text s.board_id) (opaque_text s.id)

  abbrev validate : Json → Resolution
  validate (obj fs) = checked fs (snapshot_item fs)
  validate _ = no_record method invalid_item

-- `validateItem`; the expected phone is always given.
unfoldable pub validate_item : Json → Text → Text → Method → Option Text → Text → Resolution
validate_item item board source method expected_id phone =
    validate board source method expected_id phone item
