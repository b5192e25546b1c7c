-- ===== src/Consent/Laws.antt =====
-- consent.mjs: when the classifier reports an eligible one-party state.
use air_call_demo_recording.Base.{
  Bool, true, ◌≡◌, refl, inl, inr, Option, none, some, List, [], ◌∷◌, returned, arith, Bool-cases,
  Option-cases, Attempt, thrown,
}
use air_call_demo_recording.Base.Text.{Text, text_eq}
use air_call_demo_recording.Js.{
  Value, bool, Key, index, name, symbol, value, Descriptor, HeapObject, Heap, find_property,
  own_descriptor, plain_record,
}
use air_call_demo_recording.Consent.States.{normalize_state}
use air_call_demo_recording.Consent.Rulesets.{
  snapshot_states, snapshot_state_map, is_approved_version, ruleset_root, put, as_flag,
  validate_root, Ruleset, validate_ruleset,
}
use air_call_demo_recording.Consent.{
  InputSnapshot, snapshot_input, state_flag, classify_snapshot, decide_recording_for_state,
  audit_only_eligible_one_party_state, classify,
}

-- An own enumerable data property with the value true.
abbrev pub flag_set : Descriptor
flag_set = record { enumerable = true; content = value (bool true) }

-- What makes a state eligible, on the objects themselves.
pub record IsEligible (h : Heap) (input : Value) : Type 0 where
  pub snapshot : InputSnapshot
  pub was_read : snapshot_input h input ≡ some snapshot
  pub state : Text
  pub normalised : normalize_state snapshot.state ≡ some state
  pub version : Text
  pub states : Value
  pub rules_read : ruleset_root h snapshot.rules ≡ some (version, states)
  pub approved : is_approved_version h snapshot.approved_ruleset_versions version ≡ returned true
  pub map : HeapObject
  pub map_read : plain_record h states ≡ some map
  pub flagged : own_descriptor map (name state) ≡ some flag_set

put-eq-some :
    (t : Text) (b : Option Bool) (rest : Option (List (Text × Bool))) (states : List (Text × Bool))
    → put t b rest ≡ some states
    → (c : Bool) × (st : List (Text × Bool)) × (b ≡ some c)
      × (rest ≡ some st)
      × (states ≡ (t, c) ∷ st)
put-eq-some t none rest states h = cc
put-eq-some t (some c) none states h = cc
put-eq-some t (some c) (some st) states h = (c, st, refl, refl, ground arith)

as_flag-true : (d : Descriptor) → as_flag d ≡ some true → d ≡ flag_set
as_flag-true d h = ground arith

snapshot_states-name :
    (t : Text) (d : Descriptor) (props : List (Key × Descriptor)) (states : List (Text × Bool))
    → snapshot_states ((name t, d) ∷ props) ≡ some states
    → put t (as_flag d) (snapshot_states props) ≡ some states
unfolding snapshot_states
snapshot_states-name t d props states h = ground arith

-- A flag of the snapshot that is set is an own enumerable property with the value true.
pub snapshot_states-flag :
    (props : List (Key × Descriptor)) (states : List (Text × Bool)) (s : Text)
    → snapshot_states props ≡ some states
    → state_flag s states ≡ some true
    → find_property (name s) props ≡ some flag_set
unfolding state_flag find_property
snapshot_states-flag [] states s h k = unfold snapshot_states in ground arith
snapshot_states-flag ((name t, d) ∷ props) states s h k =
    let (c, st, flag, rest, e) =
      put-eq-some t (as_flag d) (snapshot_states props) states
        (snapshot_states-name t d props states h) in
    elim (Bool-cases (text_eq t s)) [
      | inl same ↦ ground (arith, as_flag-true d)
      | inr other ↦ ground (arith, snapshot_states-flag props st s)
    ]
snapshot_states-flag ((index n, d) ∷ props) states s h k = unfold snapshot_states in cc
snapshot_states-flag ((symbol n, d) ∷ props) states s h k = unfold snapshot_states in cc

snapshot_state_map-flag :
    (h : Heap) (v : Value) (states : List (Text × Bool)) (s : Text)
    → snapshot_state_map h v ≡ some states
    → state_flag s states ≡ some true
    → (o : HeapObject) × (plain_record h v ≡ some o) × (own_descriptor o (name s) ≡ some flag_set)
unfolding own_descriptor
snapshot_state_map-flag h v states s e k = elim (Option-cases (plain_record h v)) [
  | inl missing ↦ unfold snapshot_state_map in cc
  | inr (o, found) ↦ (
    o,
    found,
    snapshot_states-flag o.props states s (unfold snapshot_state_map in ground arith) k,
  )
]

validate_root-some :
    (h : Heap) (versions : Value) (root : Option (Text × Value)) (r : Ruleset)
    → validate_root h versions root ≡ returned (some r)
    → (t : Text) × (states : Value) × (root ≡ some (t, states))
      × (is_approved_version h versions t ≡ returned true)
      × (snapshot_state_map h states ≡ some r.states)
validate_root-some h versions none r e = cc
validate_root-some h versions (some (t, states)) r e = (t, states, refl, ground arith, ground arith)

classify-eligible :
    (s : Text) (a : Attempt (Option Ruleset))
    → classify s a ≡ audit_only_eligible_one_party_state
    → (r : Ruleset) × (a ≡ returned (some r)) × (state_flag s r.states ≡ some true)
classify-eligible s thrown e = cc
classify-eligible s (returned none) e = cc
classify-eligible s (returned (some r)) e = (r, refl, ground arith)

classify_snapshot-eligible :
    (h : Heap) (i : Option InputSnapshot)
    → classify_snapshot h i ≡ audit_only_eligible_one_party_state
    → (j : InputSnapshot) × (s : Text) × (i ≡ some j)
      × (normalize_state j.state ≡ some s)
      × (classify s (validate_ruleset h j.rules j.approved_ruleset_versions)
          ≡ audit_only_eligible_one_party_state)
classify_snapshot-eligible h none e = cc
classify_snapshot-eligible h (some j) e = elim (Option-cases (normalize_state j.state)) [
  | inl missing ↦ absurd (ground arith)
  | inr (s, found) ↦ (j, s, refl, found, ground arith)
]

-- Whenever the classifier reports an eligible one-party state, on any heap and any input: the input
-- could be read without running an accessor, its state normalises to an abbreviation, its ruleset
-- has a version text that the approved versions accept, and the ruleset's states are a plain object
-- with an own enumerable data property for that abbreviation whose value is true.
pub decide_recording_for_state-IsEligible :
    (h : Heap) (input : Value)
    → (decide_recording_for_state h input).reason ≡ audit_only_eligible_one_party_state
    → IsEligible h input
unfolding decide_recording_for_state validate_ruleset
decide_recording_for_state-IsEligible h input e =
    let (i, s, was_read, normalised, labelled) =
      classify_snapshot-eligible h (snapshot_input h input) e in
    let (r, valid, flag) = classify-eligible s _ labelled in
    let (version, states, root, approved, mapped) =
      validate_root-some h i.approved_ruleset_versions (ruleset_root h i.rules) r valid in
    let (map, map_read, flagged) = snapshot_state_map-flag h states r.states s mapped flag in
    record {
      snapshot = i;
      was_read = was_read;
      state = s;
      normalised = normalised;
      version = version;
      states = states;
      rules_read = root;
      approved = approved;
      map = map;
      map_read = map_read;
      flagged = flagged;
    }
