-- ===== src/ControlPolicy/Completeness.antt =====
-- recording-control-policy.mjs: a request that holds all that approval needs is approved.
use air_call_demo_recording.Base.{◌≡◌, refl, ◌∙◌, ◌↔◌, Bool, true, false, Option, some, List, arith}
use mathlib.Core.List.{Memᴰ}
use air_call_demo_recording.Base.Text.{Text, codes}
use air_call_demo_recording.Base.Text.Laws.{text_eq_refl}
use air_call_demo_recording.Js.{Number, natural, finite, infinite, nan, number_same}
use air_call_demo_recording.ControlPolicy.Snapshot.{Plain, Fields, nothing, flag, number, text, obj}
use air_call_demo_recording.ControlPolicy.{
  control_approved, permitted_consent, answered_event, is_record, is_text, is_flag,
  non_empty_string, valid_id, plain_same, includes, listed, member, same_source, evaluate_fields,
}
use air_call_demo_recording.ControlPolicy.Approval.{
  IsListed, IsApproved, get_in-obj, evaluate_fields-IsApproved,
}

number_same_refl : (n : Number) → number_same n n ≡ true
unfolding number_same
number_same_refl (natural n) = ground arith
number_same_refl (finite n) = ground arith
number_same_refl (infinite b) = ground arith
number_same_refl nan = refl

-- A text or a number is the same as itself.
plain_same_refl : (p : Plain) → valid_id p ≡ true → plain_same p p ≡ true
unfolding plain_same valid_id
plain_same_refl (text t) h = text_eq_refl t
plain_same_refl (number n) h = number_same_refl n
plain_same_refl nothing h = refl
plain_same_refl (flag b) h = ground arith
plain_same_refl _ h = ground arith

Memᴰ-includes :
    (p : Plain) {items : List Plain} → valid_id p ≡ true → Memᴰ p items → includes items p ≡ true
unfolding includes
Memᴰ-includes p ok (Memᴰ.head e) = rw (← e, plain_same_refl p ok)
Memᴰ-includes p ok (Memᴰ.tail m) = ground (arith, Memᴰ-includes p ok m)

string_is_id : (p : Plain) → non_empty_string p ≡ true → valid_id p ≡ true
unfolding non_empty_string valid_id
string_is_id (text t) h = h
string_is_id _ h = ground arith

IsListed-listed :
    (given list : Option Plain)
    → IsListed non_empty_string given list
    → listed non_empty_string given list ≡ true
unfolding listed
IsListed-listed given list (p, items, is_p, is_array, ok, valid, m) =
    ground (arith, Memᴰ-includes p (string_is_id p ok) m)

IsListed-member :
    (given list : Option Plain) → IsListed valid_id given list → member given list ≡ true
unfolding member
IsListed-member given list (p, items, is_p, is_array, ok, valid, m) =
    ground (arith, Memᴰ-includes p ok m)

is_text_refl : (t : Text) {p : Option Plain} → p ≡ some (text t) → is_text t p ≡ true
unfolding is_text
is_text_refl t e = rw (e, text_eq_refl t)

is_flag_refl : (b : Bool) {p : Option Plain} → p ≡ some (flag b) → is_flag b p ≡ true
unfolding is_flag
is_flag_refl b e = ground arith

is_record_refl : {p : Option Plain} {fs : Fields} → p ≡ some (obj fs) → is_record p ≡ true
unfolding is_record
is_record_refl e = rw e

same_source_refl :
    (t : Text) {p column : Option Plain}
    → p ≡ some (text t)
    → column ≡ some (text t)
    → non_empty_string (text t) ≡ true
    → same_source p column ≡ true
unfolding plain_same
same_source_refl t e f h = ground (arith, text_eq_refl t)

module _ (fs : Fields) (a : IsApproved fs) where
  open a use {consent, event, consent_given, event_given}

  climb : evaluate_fields fs ≡ control_approved
  unfolding evaluate_fields
  climb = ground (
    arith,
    is_text_refl _ a.mode,
    is_flag_refl false a.clear,
    IsListed-listed _ _ a.version,
    IsListed-listed _ _ a.state,
    is_record_refl consent_given,
    is_text_refl permitted_consent (get_in-obj (codes "value") consent_given ∙ a.permitted),
    same_source_refl a.column (get_in-obj (codes "source") consent_given ∙ a.from_column)
        a.column_given a.column_filled,
    is_flag_refl true (get_in-obj (codes "verified") consent_given ∙ a.verified),
    a.user.5,
    a.line.5,
    is_record_refl event_given,
    IsListed-member _ _ (rw (← get_in-obj (codes "userId") event_given) at a.user),
    IsListed-member _ _ (rw (← get_in-obj (codes "numberId") event_given) at a.line),
    is_text_refl answered_event (get_in-obj (codes "type") event_given ∙ a.answered),
  )

-- The ladder of tests approves a plain record exactly if it holds all that `IsApproved` names.
pub evaluate_fields_iff : (fs : Fields) → (evaluate_fields fs ≡ control_approved) ↔ IsApproved fs
evaluate_fields_iff fs = (evaluate_fields-IsApproved fs, climb fs)
