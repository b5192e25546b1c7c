-- ===== src/Consent/Examples.antt =====
-- consent.mjs: runs of the classifier.
use air_call_demo_recording.Base.{
  ℕ, zero, suc, ◌<◌, ◌≡◌, refl, ◌↔◌, true, false, some, List, [], ◌∷◌, ◌++◌, map, arith, returned,
}
use air_call_demo_recording.Base.Text.{
  Text, codes, text_eq, trim, trim_start, trim_end, is_space, upper_unit, to_upper, has,
}
use air_call_demo_recording.Base.Text.Laws.{IsBlank}
use mathlib.Core.List.{Memᴰ}
use air_call_demo_recording.Js.{
  Value, bool, num, str, ref, natural, Key, index, name, value, Descriptor, object_prototype,
  array_prototype, set_prototype, ordinary, array, set_of, HeapObject, Heap, deref, key_eq,
  find_property, own_descriptor, has_symbol_key, plain_record, same_value,
}
use air_call_demo_recording.Consent.{
  audit_only_eligible_one_party_state, decide_recording_for_state, snapshot_object, snapshot_input,
  state_flag,
}
use air_call_demo_recording.Consent.States.{us_state_abbreviations, normalize_text, normalize_state}
use air_call_demo_recording.Consent.StateLaws.{
  lower_unit, normalize_state-normal, normalize_state-spelling,
}
use air_call_demo_recording.Consent.Rulesets.{
  read_present, read_optional, snapshot_states, snapshot_state_map, text_at, names_are_elements,
  set_has, is_approved_version, ruleset_root, validate_ruleset,
}
use air_call_demo_recording.Consent.Laws.{IsEligible, decide_recording_for_state-IsEligible}
use air_call_demo_recording.Consent.Versions.{is_approved_version-array, is_approved_version-set}

abbrev own : Value → Descriptor
own v = record { enumerable = true; content = value v }

abbrev plain_object : List (Key × Descriptor) → HeapObject
plain_object props = record { kind = ordinary; proto = object_prototype; props = props }

abbrev versions_set : HeapObject
versions_set = record { kind = set_of (str (codes "v1") ∷ []); proto = set_prototype; props = [] }

-- An array that lists the version "v1".
abbrev versions_array : HeapObject
versions_array = record {
  kind = array 1;
  proto = array_prototype;
  props =
      (index 0, own (str (codes "v1")))
      ∷ (name (codes "length"), record { enumerable = false; content = value (num (natural 1)) })
      ∷ [];
}

abbrev georgia : Heap
georgia =
    plain_object (
      (name (codes "state"), own (str (codes " ga")))
      ∷ (name (codes "ruleset"), own (ref 1))
      ∷ (name (codes "approvedRulesetVersions"), own (ref 3))
      ∷ [])
    ∷ plain_object (
        (name (codes "version"), own (str (codes "v1")))
        ∷ (name (codes "states"), own (ref 2))
        ∷ [])
    ∷ plain_object ((name (codes "GA"), own (bool true)) ∷ [])
    ∷ versions_set
    ∷ versions_array
    ∷ []

georgia_run :
    (decide_recording_for_state georgia (ref 0)).reason ≡ audit_only_eligible_one_party_state
unfolding decide_recording_for_state snapshot_input snapshot_object read_present read_optional
    plain_record deref own_descriptor find_property key_eq text_eq normalize_state normalize_text
    us_state_abbreviations trim trim_start trim_end is_space upper_unit to_upper has
    validate_ruleset ruleset_root is_approved_version set_has same_value snapshot_state_map
    snapshot_states has_symbol_key state_flag
georgia_run = refl

decide_recording_for_state-IsEligible_example : IsEligible georgia (ref 0)
decide_recording_for_state-IsEligible_example =
    decide_recording_for_state-IsEligible georgia (ref 0) georgia_run

at_set : deref georgia (ref 3) ≡ some versions_set
unfolding deref
at_set = refl

is_approved_version-set_example :
    (is_approved_version georgia (ref 3) (codes "v1") ≡ returned true)
    ↔ Memᴰ (str (codes "v1")) (str (codes "v1") ∷ [])
is_approved_version-set_example =
    is_approved_version-set georgia (ref 3) versions_set (str (codes "v1") ∷ []) (codes "v1") at_set
      refl refl

at_array : deref georgia (ref 4) ≡ some versions_array
unfolding deref
at_array = refl

only_elements : names_are_elements versions_array ≡ true
unfolding names_are_elements text_eq
only_elements = refl

are_texts : (j : ℕ) → j < 1 → (t : Text) × (text_at versions_array j ≡ some t)
unfolding own_descriptor find_property key_eq read_present
are_texts zero lt = (codes "v1", refl)
are_texts (suc j) lt = absurd (omega arith)

-- "v2" is not listed.
is_approved_version-array_example : is_approved_version georgia (ref 4) (codes "v2") ≡ returned true
is_approved_version-array_example =
    is_approved_version-array georgia (ref 4) versions_array 1 (codes "v2") at_array refl refl
      only_elements are_texts

florida_run : normalize_state (str (codes " fl ")) ≡ some (codes "FL")
unfolding normalize_state normalize_text us_state_abbreviations trim trim_start trim_end is_space
    upper_unit to_upper has text_eq
florida_run = refl

normalize_state-normal_example :
    (has us_state_abbreviations (codes "FL") ≡ true)
    × (normalize_state (str (codes "FL")) ≡ some (codes "FL"))
normalize_state-normal_example =
    normalize_state-normal (str (codes " fl ")) (codes "FL") florida_run

one-IsBlank : IsBlank (codes " ")
unfolding is_space
one-IsBlank = refl

normalize_state-spelling_example :
    normalize_state (str (codes " " ++ (map lower_unit (codes "FL") ++ codes " ")))
    ≡ normalize_state (str (codes "FL"))
normalize_state-spelling_example =
    normalize_state-spelling (codes " ") (codes "FL") (codes " ") one-IsBlank one-IsBlank
