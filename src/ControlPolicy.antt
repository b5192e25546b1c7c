-- ===== src/ControlPolicy.antt =====
-- recording-control-policy.mjs: the pure boundary that authorises a request to resume a recording.
-- It reads a snapshot of its input, and denies with the reason of the first test that fails.
pub mod Snapshot
pub mod Termination
pub mod Faithful
pub mod Approval
pub mod Completeness
pub mod Authority
mod Examples
use air_call_demo_recording.Base.{
  ℕ, zero, suc, ◌+◌, ◌-◌, ◌*◌, ◌/◌, ◌%◌, ◌^◌, ◌≤◌, ◌<◌, ◌≡◌, refl, sym, ap, ◌∙◌, ◌≢◌, ◌↔◌, ◌⊎◌, inl,
  inr, Bool, true, false, not, ◌&&◌, ◌||◌, Option, none, some, List, [], ◌∷◌, ◌++◌, map, arith, ltb,
  leb, ◌==◌, if◌then◌else◌, ==_iff, Bool-cases, Option-cases, and-both, length, get_elem?,
  get_elem?-lt, all, any, All, Attempt, returned, thrown,
}
use air_call_demo_recording.Base.Text.{Text, codes, text_eq}
use air_call_demo_recording.Js.{
  Heap, Value, Key, name, Number, key_eq, number_same, is_safe_natural,
}
use Snapshot.{
  Plain, Items, Fields, nothing, flag, number, text, arr, obj, nil, cons, end, field, Snap, plain,
  invalid, out_of_fuel, snapshot,
}

pub data ControlAction : Type 0 where
  leave_disabled request_resume_recording : ControlAction

-- RECORDING_CONTROL_REASONS
pub data ControlReason : Type 0 where
  invalid_input mode_not_control_enabled kill_switch_not_clear policy_version_not_approved :
      ControlReason
  state_not_eligible consent_not_permitted consent_source_mismatch consent_not_verified :
      ControlReason
  pilot_users_not_configured call_user_not_in_pilot pilot_numbers_not_configured : ControlReason
  call_number_not_in_pilot unsupported_event control_approved : ControlReason

pub record ControlDecision : Type 0 where
  pub action : ControlAction
  pub reason : ControlReason

abbrev pub decision : ControlAction → ControlReason → ControlDecision
decision a r = record { action = a; reason = r }

abbrev pub denied : ControlReason → ControlDecision
denied r = decision leave_disabled r

-- PERMITTED_CONSENT; the dash is U+2014.
abbrev pub permitted_consent : Text
permitted_consent = codes "Verified " ++ 0x2014 ∷ codes " Permit Recording"

abbrev pub answered_event : Text
answered_event = codes "call.answered"

abbrev pub to_list : Items → List Plain
to_list nil = []
to_list (cons p items) = p ∷ to_list items

-- A property of a snapshot; a missing one, `undefined`, is `none`.
unfoldable pub get : Text → Fields → Option Plain
unfolding key_eq
get k end = none
get k (field j p fs) = if key_eq j (name k) then some p else get k fs

-- A property of a value that may be no record.
unfoldable pub get_in : Text → Option Plain → Option Plain
unfolding get
get_in k (some (obj fs)) = get k fs
get_in k _ = none

unfoldable pub is_record : Option Plain → Bool
is_record (some (obj fs)) = true
is_record _ = false

unfoldable pub is_text : Text → Option Plain → Bool
is_text t (some (text s)) = text_eq s t
is_text t _ = false

unfoldable pub is_flag : Bool → Option Plain → Bool
is_flag true (some (flag true)) = true
is_flag false (some (flag false)) = true
is_flag b _ = false

abbrev filled : Text → Bool
filled [] = false
filled _ = true

unfoldable pub non_empty_string : Plain → Bool
non_empty_string (text t) = filled t
non_empty_string _ = false

unfoldable pub valid_id : Plain → Bool
unfolding non_empty_string
valid_id (number n) = is_safe_natural n
valid_id p = non_empty_string p

-- SameValueZero on snapshots; two objects are never the same, since each is a copy of its own.
unfoldable pub plain_same : Plain → Plain → Bool
plain_same nothing nothing = true
plain_same (flag true) (flag true) = true
plain_same (flag false) (flag false) = true
plain_same (number m) (number n) = number_same m n
plain_same (text s) (text t) = text_eq s t
plain_same _ _ = false

unfoldable pub includes : List Plain → Plain → Bool
includes [] p = false
includes (q ∷ items) p = plain_same q p || includes items p

-- `new Set(items).size`
unfoldable pub set_size : List Plain → ℕ
set_size [] = 0
set_size (p ∷ items) = (if includes items p then 0 else 1) + set_size items

abbrev pub valid_items : (Plain → Bool) → List Plain → Bool
valid_items valid [] = false
valid_items valid (p ∷ items) = all valid (p ∷ items) && set_size (p ∷ items) == length (p ∷ items)

-- `validStringList` and `validIdList`, by the test on the members.
unfoldable pub valid_list : (Plain → Bool) → Option Plain → Bool
valid_list valid (some (arr items)) = valid_items valid (to_list items)
valid_list valid _ = false

abbrev pub list_includes : Option Plain → Plain → Bool
list_includes (some (arr items)) p = includes (to_list items) p
list_includes _ p = false

-- A value that passes `valid`, in a valid list of such.
unfoldable pub listed : (Plain → Bool) → Option Plain → Option Plain → Bool
listed valid none list = false
listed valid (some p) list = valid p && valid_list valid list && list_includes list p

abbrev pub same_source : Option Plain → Option Plain → Bool
same_source (some p) (some column) = non_empty_string column && plain_same p column
same_source _ _ = false

-- A member of a list that is known to be valid.
unfoldable pub member : Option Plain → Option Plain → Bool
member none list = false
member (some p) list = valid_id p && list_includes list p

-- The tests of `evaluateRecordingControlPolicy`, in its order.
unfoldable pub evaluate_fields : Fields → ControlReason
evaluate_fields fs =
    let consent = get (codes "consent") fs in
    let event = get (codes "event") fs in
    let users = get (codes "pilotUserIds") fs in
    let numbers = get (codes "pilotNumberIds") fs in
    if not (is_text (codes "CONTROL_ENABLED") (get (codes "mode") fs))
    then mode_not_control_enabled
    else if not (is_flag false (get (codes "killSwitch") fs))
    then kill_switch_not_clear
    else if not (
        listed non_empty_string (get (codes "policyVersion") fs)
          (get (codes "approvedPolicyVersions") fs))
    then policy_version_not_approved
    else if not
        (listed non_empty_string (get (codes "resolvedState") fs) (get (codes "eligibleStates") fs))
    then state_not_eligible
    else if not (is_record consent && is_text permitted_consent (get_in (codes "value") consent))
    then consent_not_permitted
    else if not (
        same_source (get_in (codes "source") consent)
          (get (codes "canonicalMondayConsentColumn") fs))
    then consent_source_mismatch
    else if not (is_flag true (get_in (codes "verified") consent))
    then consent_not_verified
    else if not (valid_list valid_id users)
    then pilot_users_not_configured
    else if not (is_record event && member (get_in (codes "userId") event) users)
    then call_user_not_in_pilot
    else if not (valid_list valid_id numbers)
    then pilot_numbers_not_configured
    else if not (is_record event && member (get_in (codes "numberId") event) numbers)
    then call_number_not_in_pilot
    else if not (is_text answered_event (get_in (codes "type") event))
    then unsupported_event
    else control_approved

abbrev pub decide_by : ControlReason → ControlDecision
decide_by control_approved = decision request_resume_recording control_approved
decide_by r = denied r

abbrev pub evaluate_snapshot : Snap Plain → ControlDecision
evaluate_snapshot (plain (obj fs)) = decide_by (evaluate_fields fs)
evaluate_snapshot _ = denied invalid_input

unfoldable pub evaluate_recording_control_policy : Heap → Value → ControlDecision
evaluate_recording_control_policy h input = evaluate_snapshot (snapshot h input)
