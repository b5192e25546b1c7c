-- ===== src/Consent.antt =====
-- consent.mjs: the classifier that labels a caller's state under a supplied ruleset, for audit
-- only. `null` results are `none`; the throws that `decideRecordingForState` catches are `thrown`.
pub mod States
pub mod StateLaws
pub mod Rulesets
pub mod Laws
pub mod Versions
mod Examples
use air_call_demo_recording.Base.{
  Bool, true, false, ◌≡◌, Option, none, some, List, [], ◌∷◌, Attempt, returned, thrown,
  if◌then◌else◌,
}
use air_call_demo_recording.Base.Text.{Text, codes, text_eq}
use air_call_demo_recording.Js.{
  Value, undefined, Key, name, Heap, HeapObject, ordinary, object_prototype, plain_record,
}
use States.{normalize_state}
use Rulesets.{Ruleset, validate_ruleset, read_optional, read_present}

pub data Action : Type 0 where
  leave_disabled : Action

pub data Reason : Type 0 where
  audit_only_eligible_one_party_state not_one_party_state invalid_state invalid_ruleset : Reason

pub record Decision : Type 0 where
  pub action : Action
  pub reason : Reason

pub record InputSnapshot : Type 0 where
  pub state : Value
  pub rules : Value
  pub approved_ruleset_versions : Value

abbrev pub disabled : Reason → Decision
disabled r = record { action = leave_disabled; reason = r }

infixl 5 ◌>>=◌
abbrev pub ◌>>=◌ {ℓ κ} : {A : Type ℓ} {B : Type κ} → Option A → (A → Option B) → Option B
none >>= k = none
some a >>= k = k a

-- `snapshotInput` of an object that is a plain record.
unfoldable pub snapshot_object : HeapObject → Option InputSnapshot
snapshot_object o = do
  state ← read_present o (name (codes "state"))
  rules ← read_optional o (name (codes "ruleset"))
  versions ← read_optional o (name (codes "approvedRulesetVersions"))
  some (record { state = state; rules = rules; approved_ruleset_versions = versions })

-- The default of the parameter, `input = {}`.
abbrev empty_object : HeapObject
empty_object = record { kind = ordinary; proto = object_prototype; props = [] }

unfoldable pub snapshot_input : Heap → Value → Option InputSnapshot
unfolding snapshot_object
snapshot_input h undefined = snapshot_object empty_object
snapshot_input h v = do o ← plain_record h v; snapshot_object o

-- `Object.hasOwn(states, state)` and `states[state]`.
unfoldable pub state_flag : Text → List (Text × Bool) → Option Bool
unfolding text_eq
state_flag s [] = none
state_flag s ((t, b) ∷ states) = if text_eq t s then some b else state_flag s states

abbrev pub classify_flag : Option Bool → Reason
classify_flag none = invalid_state
classify_flag (some true) = audit_only_eligible_one_party_state
classify_flag (some false) = not_one_party_state

abbrev pub classify : Text → Attempt (Option Ruleset) → Reason
classify s thrown = invalid_ruleset
classify s (returned none) = invalid_ruleset
classify s (returned (some r)) = classify_flag (state_flag s r.states)

abbrev pub classify_snapshot : Heap → Option InputSnapshot → Reason
classify_snapshot h none = invalid_state
classify_snapshot h (some i) = elim (normalize_state i.state) [
  | none ↦ invalid_state
  | some s ↦ classify s (validate_ruleset h i.rules i.approved_ruleset_versions)
]

unfoldable pub decide_recording_for_state : Heap → Value → Decision
decide_recording_for_state h input = disabled (classify_snapshot h (snapshot_input h input))
