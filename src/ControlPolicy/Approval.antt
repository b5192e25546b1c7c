-- ===== src/ControlPolicy/Approval.antt =====
-- recording-control-policy.mjs: exactly when the boundary requests to resume a recording.
use air_call_demo_recording.Base.Text.Laws.{text_eq→eq}
use air_call_demo_recording.Js.{number_same, Number}
use air_call_demo_recording.Base.{
  ◌≡◌, refl, sym, ap, ◌∙◌, inl, inr, Bool, true, false, ◌&&◌, Option, none, some, List, [], ◌∷◌,
  arith, Bool-cases, and-both,
}
use mathlib.Core.List.{Memᴰ}
use air_call_demo_recording.Base.Text.{Text, codes}
use air_call_demo_recording.ControlPolicy.Snapshot.{
  nothing, Plain, Items, Fields, flag, text, arr, obj, number,
}
use air_call_demo_recording.ControlPolicy.{
  control_approved, permitted_consent, answered_event, to_list, get, get_in, is_record, is_text,
  is_flag, non_empty_string, valid_id, valid_list, listed, member, same_source, evaluate_fields,
  includes, plain_same, list_includes,
}

-- A text or an identifier that passes `valid`, among the members of a valid list.
abbrev pub IsListed : (Plain → Bool) → Option Plain → Option Plain → Type 0
IsListed valid given list =
    (p : Plain) × (items : Items) × (given ≡ some p)
    × (list ≡ some (arr items))
    × (valid p ≡ true)
    × (valid_list valid list ≡ true)
    × Memᴰ p (to_list items)

-- What an approved request holds.
pub record IsApproved (fs : Fields) : Type 0 where
  pub mode : get (codes "mode") fs ≡ some (text (codes "CONTROL_ENABLED"))
  pub clear : get (codes "killSwitch") fs ≡ some (flag false)
  pub version :
      IsListed non_empty_string
        (get (codes "policyVersion") fs)
        (get (codes "approvedPolicyVersions") fs)
  pub state :
      IsListed non_empty_string (get (codes "resolvedState") fs) (get (codes "eligibleStates") fs)
  pub consent : Fields
  pub consent_given : get (codes "consent") fs ≡ some (obj consent)
  pub permitted : get (codes "value") consent ≡ some (text permitted_consent)
  pub column : Text
  pub column_filled : non_empty_string (text column) ≡ true
  pub column_given : get (codes "canonicalMondayConsentColumn") fs ≡ some (text column)
  pub from_column : get (codes "source") consent ≡ some (text column)
  pub verified : get (codes "verified") consent ≡ some (flag true)
  pub event : Fields
  pub event_given : get (codes "event") fs ≡ some (obj event)
  pub user : IsListed valid_id (get (codes "userId") event) (get (codes "pilotUserIds") fs)
  pub line : IsListed valid_id (get (codes "numberId") event) (get (codes "pilotNumberIds") fs)
  pub answered : get (codes "type") event ≡ some (text answered_event)

ladder :
    (fs : Fields)
    → evaluate_fields fs ≡ control_approved
    → let consent = get (codes "consent") fs in
      let event = get (codes "event") fs in
      (is_text (codes "CONTROL_ENABLED") (get (codes "mode") fs) ≡ true)
      × (is_flag false (get (codes "killSwitch") fs) ≡ true)
      × (listed non_empty_string
            (get (codes "policyVersion") fs)
            (get (codes "approvedPolicyVersions") fs)
          ≡ true)
      × (listed non_empty_string (get (codes "resolvedState") fs) (get (codes "eligibleStates") fs)
          ≡ true)
      × (is_record consent && is_text permitted_consent (get_in (codes "value") consent) ≡ true)
      × (same_source
            (get_in (codes "source") consent)
            (get (codes "canonicalMondayConsentColumn") fs)
          ≡ true)
      × (is_flag true (get_in (codes "verified") consent) ≡ true)
      × (valid_list valid_id (get (codes "pilotUserIds") fs) ≡ true)
      × (is_record event && member (get_in (codes "userId") event) (get (codes "pilotUserIds") fs)
          ≡ true)
      × (valid_list valid_id (get (codes "pilotNumberIds") fs) ≡ true)
      × (is_record event
            && member (get_in (codes "numberId") event) (get (codes "pilotNumberIds") fs)
          ≡ true)
      × (is_text answered_event (get_in (codes "type") event) ≡ true)
unfolding evaluate_fields
ladder fs h = ground arith

is_text-true : (t : Text) (p : Option Plain) → is_text t p ≡ true → p ≡ some (text t)
unfolding is_text
is_text-true t none h = cc
is_text-true t (some (text s)) h = ap (λ u. some (text u)) (text_eq→eq s t h)
is_text-true t (some _) h = cc

is_flag-true : (b : Bool) (p : Option Plain) → is_flag b p ≡ true → p ≡ some (flag b)
unfolding is_flag
is_flag-true b p h = ground arith

is_record-true : (p : Option Plain) → is_record p ≡ true → (fs : Fields) × (p ≡ some (obj fs))
unfolding is_record
is_record-true none h = cc
is_record-true (some (obj fs)) h = (fs, refl)
is_record-true (some _) h = cc

number_same-true : (m n : Number) → number_same m n ≡ true → m ≡ n
unfolding number_same
number_same-true m n h = ground arith

plain_same-true : (p q : Plain) → plain_same p q ≡ true → p ≡ q
unfolding plain_same
plain_same-true nothing nothing h = refl
plain_same-true (flag a) (flag b) h = ground arith
plain_same-true (number m) (number n) h = ap number (number_same-true m n h)
plain_same-true (text s) (text t) h = ap text (text_eq→eq s t h)
plain_same-true _ _ h = ground arith

includes-Memᴰ : (items : List Plain) (p : Plain) → includes items p ≡ true → Memᴰ p items
unfolding includes
includes-Memᴰ [] p h = cc
includes-Memᴰ (q ∷ items) p h = elim (Bool-cases (plain_same q p)) [
  | inl same ↦ Memᴰ.head (sym (plain_same-true q p same))
  | inr other ↦ Memᴰ.tail (includes-Memᴰ items p (ground arith))
]

-- A list that includes a value is an array with that member.
list_includes-Memᴰ :
    (list : Option Plain) (p : Plain)
    → list_includes list p ≡ true
    → (items : Items) × (list ≡ some (arr items)) × Memᴰ p (to_list items)
list_includes-Memᴰ none p h = cc
list_includes-Memᴰ (some (arr items)) p h = (items, refl, includes-Memᴰ (to_list items) p h)
list_includes-Memᴰ (some _) p h = cc

listed-IsListed :
    (valid : Plain → Bool) (given list : Option Plain)
    → listed valid given list ≡ true
    → IsListed valid given list
unfolding listed
listed-IsListed valid none list h = cc
listed-IsListed valid (some p) list h =
    let (first, included) = and-both _ _ h in
    let (ok, valid_all) = and-both _ _ first in
    let (items, is_array, m) = list_includes-Memᴰ list p included in
    (p, items, refl, is_array, ok, valid_all, m)

member-IsListed :
    (given list : Option Plain)
    → valid_list valid_id list ≡ true
    → member given list ≡ true
    → IsListed valid_id given list
unfolding member
member-IsListed none list valid h = cc
member-IsListed (some p) list valid h =
    let (ok, included) = and-both _ _ h in
    let (items, is_array, m) = list_includes-Memᴰ list p included in
    (p, items, refl, is_array, ok, valid, m)

same_source-true :
    (p column : Option Plain)
    → same_source p column ≡ true
    → (t : Text) × (column ≡ some (text t))
      × (p ≡ some (text t))
      × (non_empty_string (text t) ≡ true)
unfolding non_empty_string
same_source-true none column h = cc
same_source-true (some p) none h = cc
same_source-true (some p) (some (text t)) h =
    let (ok, same) = and-both _ _ h in (t, refl, ap some (plain_same-true p (text t) same), ok)
same_source-true (some p) (some _) h = cc

pub get_in-obj :
    (k : Text) {p : Option Plain} {fs : Fields} → p ≡ some (obj fs) → get_in k p ≡ get k fs
unfolding get_in
get_in-obj k e = rw e

in_event :
    (k : Text) (list : Option Plain) {p : Option Plain} {fs : Fields}
    → p ≡ some (obj fs)
    → (is_record p && member (get_in k p) list) ≡ true
    → member (get k fs) list ≡ true
in_event k list {p} {fs} e h =
    rw (get_in-obj k e) at (and-both (is_record p) (member (get_in k p) list) h).1

-- The boundary requests to resume a recording only if the mode is CONTROL_ENABLED, the kill switch
-- is the flag false, the policy version and the resolved state are members of their lists of texts,
-- the consent is the permitted one, comes from the canonical column and is verified, the user and
-- the number of the call are members of the pilot's lists, all those lists are valid (not empty,
-- without repetitions), and the event is an answered call.
pub evaluate_fields-IsApproved :
    (fs : Fields) → evaluate_fields fs ≡ control_approved → IsApproved fs
evaluate_fields-IsApproved fs h =
    let (
      mode, clear, version, state, permitted, source, verified, users, user, numbers, line,
      answered,
    ) =
      ladder fs h in
    let (is_consent, permits) = and-both _ _ permitted in
    let (is_event, _) = and-both _ _ user in
    let (consent, ce) = is_record-true _ is_consent in
    let (event, ee) = is_record-true _ is_event in
    let (column, column_given, from, filled) = same_source-true _ _ source in
    record {
      mode = is_text-true _ _ mode;
      clear = is_flag-true _ _ clear;
      version = listed-IsListed _ _ _ version;
      state = listed-IsListed _ _ _ state;
      consent = consent;
      consent_given = ce;
      permitted = sym (get_in-obj _ ce) ∙ (is_text-true _ _ permits);
      column = column;
      column_filled = filled;
      column_given = column_given;
      from_column = sym (get_in-obj _ ce) ∙ from;
      verified = sym (get_in-obj _ ce) ∙ (is_flag-true _ _ verified);
      event = event;
      event_given = ee;
      user = member-IsListed _ _ users (in_event (codes "userId") _ ee user);
      line = member-IsListed _ _ numbers (in_event (codes "numberId") _ ee line);
      answered = sym (get_in-obj _ ee) ∙ (is_text-true _ _ answered);
    }
