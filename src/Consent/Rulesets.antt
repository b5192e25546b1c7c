-- ===== src/Consent/Rulesets.antt =====
-- consent.mjs: the snapshots of own data properties and the validation of a ruleset.
use air_call_demo_recording.Base.{
  ℕ, zero, suc, Bool, true, false, not, ◌&&◌, ◌||◌, Option, none, some, List, [], ◌∷◌, Attempt,
  returned, thrown, if◌then◌else◌, all,
}
use air_call_demo_recording.Base.Text.{Text, codes, text_eq, has, trim}
use air_call_demo_recording.Js.{
  Value, undefined, bool, str, Key, index, name, symbol, value, accessor, Content, Descriptor,
  Proto, array_prototype, set_prototype, array, set_of, proxy, Kind, HeapObject, Heap, deref,
  own_descriptor, has_symbol_key, plain_record, same_value,
}
use air_call_demo_recording.Consent.States.{us_state_abbreviations}

pub record Ruleset : Type 0 where
  pub version : Text
  pub states : List (Text × Bool)

infixl 5 ◌>>=◌
abbrev ◌>>=◌ {ℓ κ} : {A : Type ℓ} {B : Type κ} → Option A → (A → Option B) → Option B
none >>= k = none
some a >>= k = k a

abbrev data_value : Content → Option Value
data_value (value v) = some v
data_value accessor = none

-- A key that must be an own data property.
unfoldable pub read_present : HeapObject → Key → Option Value
read_present o k = do d ← own_descriptor o k; data_value d.content

abbrev data_or_undefined : Option Descriptor → Option Value
data_or_undefined none = some undefined
data_or_undefined (some d) = data_value d.content

-- A key that may be missing, and must not be an accessor.
unfoldable pub read_optional : HeapObject → Key → Option Value
read_optional o k = data_or_undefined (own_descriptor o k)

abbrev pub as_flag : Descriptor → Option Bool
as_flag d = elim d.content [
  | accessor ↦ none
  | value v ↦ elim v [ bool b ↦ if d.enumerable then some b else none | _ ↦ none ]
]

abbrev pub put : Text → Option Bool → Option (List (Text × Bool)) → Option (List (Text × Bool))
put t none rest = none
put t (some b) none = none
put t (some b) (some states) = some ((t, b) ∷ states)

-- The loop of `snapshotStateMap`; a name that is a decimal numeral is no state.
unfoldable pub snapshot_states : List (Key × Descriptor) → Option (List (Text × Bool))
snapshot_states [] = some []
snapshot_states ((name t, d) ∷ props) =
    if has us_state_abbreviations t then put t (as_flag d) (snapshot_states props) else none
snapshot_states _ = none

abbrev is_nil {ℓ} : {A : Type ℓ} → List A → Bool
is_nil [] = true
is_nil _ = false

unfoldable pub snapshot_state_map : Heap → Value → Option (List (Text × Bool))
unfolding snapshot_states
snapshot_state_map h v = do
  o ← plain_record h v
  if has_symbol_key o.props || is_nil o.props then none else snapshot_states o.props

abbrev as_text : Value → Option Text
as_text (str t) = some t
as_text _ = none

abbrev pub text_at : HeapObject → ℕ → Option Text
text_at o i = do v ← read_present o (index i); as_text v

abbrev is_element_key : Key → Bool
is_element_key (index _) = true
is_element_key (name t) = text_eq t (codes "length")
is_element_key (symbol _) = true

abbrev is_symbol : Key → Bool
is_symbol (symbol _) = true
is_symbol _ = false

-- `names.length >= 1 && names.every(...)`, over the property names, which leave symbols out.
unfoldable pub names_are_elements : HeapObject → Bool
names_are_elements o =
    not (all (λ p. is_symbol p.0) o.props) && all (λ p. is_element_key p.0) o.props

-- The loop of `isApprovedVersion` over an array, with `left` rounds to go from index i.
unfoldable pub approved_from : HeapObject → Text → ℕ → ℕ → Bool
unfolding read_present names_are_elements
approved_from o version zero i = names_are_elements o
approved_from o version (suc left) i =
    let rest = approved_from o version left (suc i) in
    elim (text_at o i) [ none ↦ false | some t ↦ if text_eq t version then true else rest ]

abbrev proto_is_array : Proto → Bool
proto_is_array array_prototype = true
proto_is_array _ = false

abbrev proto_is_set : Proto → Bool
proto_is_set set_prototype = true
proto_is_set _ = false

-- `Set.prototype.has`.
unfoldable pub set_has : List Value → Text → Bool
set_has [] version = false
set_has (v ∷ members) version = same_value v (str version) || set_has members version

-- `instanceof Set` and the call of `Set.prototype.has`, which throws on an object that is no set: an
-- object whose prototype is that of the sets is an instance of Set.
abbrev approved_by_set : Text → HeapObject → Kind → Attempt Bool
approved_by_set version o (set_of members) =
    returned (proto_is_set o.proto && set_has members version)
approved_by_set version o proxy = thrown
approved_by_set version o _ = if proto_is_set o.proto then thrown else returned false

abbrev approved_by : Text → HeapObject → Kind → Attempt Bool
approved_by version o (array n) =
    if proto_is_array o.proto
    then returned (approved_from o version n 0)
    else approved_by_set version o (array n)
approved_by version o kind = approved_by_set version o kind

abbrev approved_by_object : Text → Option HeapObject → Attempt Bool
approved_by_object version none = returned false
approved_by_object version (some o) = approved_by version o o.kind

unfoldable pub is_approved_version : Heap → Value → Text → Attempt Bool
unfolding approved_from set_has
is_approved_version h versions version = approved_by_object version (deref h versions)

-- The text of `root.version` and the value of `root.states`, where both are own data properties.
unfoldable pub ruleset_root : Heap → Value → Option (Text × Value)
unfolding read_present
ruleset_root h v = do
  o ← plain_record h v
  version ← read_present o (name (codes "version"))
  states ← read_present o (name (codes "states"))
  t ← as_text version
  if is_nil (trim t) then none else some (t, states)

abbrev pub with_version : Text → Option (List (Text × Bool)) → Option Ruleset
with_version t none = none
with_version t (some states) = some (record { version = t; states = states })

abbrev pub when_approved : Attempt Bool → Option Ruleset → Attempt (Option Ruleset)
when_approved (returned true) r = returned r
when_approved (returned false) r = returned none
when_approved thrown r = thrown

abbrev pub validate_root : Heap → Value → Option (Text × Value) → Attempt (Option Ruleset)
validate_root h versions none = returned none
validate_root h versions (some (t, states)) =
    when_approved (is_approved_version h versions t) (with_version t (snapshot_state_map h states))

unfoldable pub validate_ruleset : Heap → Value → Value → Attempt (Option Ruleset)
unfolding ruleset_root
validate_ruleset h rules versions = validate_root h versions (ruleset_root h rules)
