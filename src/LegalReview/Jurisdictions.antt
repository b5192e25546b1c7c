-- ===== src/LegalReview/Jurisdictions.antt =====
-- legal-ruleset-review.mjs: what holds of the jurisdictions of a validated record.
use mathlib.Core.Path.{subst}
use air_call_demo_recording.Base.{
  ℕ, zero, suc, ◌+◌, ◌≤◌, ◌<◌, ◌≡◌, refl, ap, inl, inr, Bool, true, false, ◌&&◌, Option, none, some,
  List, [], ◌∷◌, arith, leb, Bool-cases, Option-cases, and-both, length, All,
}
use air_call_demo_recording.Base.Text.{Text, codes, text_eq, has}
use air_call_demo_recording.Js.{
  Value, bool, str, name, array, HeapObject, Heap, deref, Kind, ordinary, set_of, proxy,
}
use air_call_demo_recording.Consent.States.{us_state_abbreviations}
use air_call_demo_recording.LegalReview.Times.{
  iso_time, epoch, not_after, is_after, past_or_present, future,
}
use air_call_demo_recording.LegalReview.{
  Jurisdiction, Review, top_level_keys, own_data_value, exact_data_record, exact_array_data,
  of_fields, of_entry, extend, snapshot_from, of_array, of_kind, of_object, is_array_prototype,
  is_approved, valid_required_review, valid_evidence, snapshot_jurisdictions, review_of, of_record,
  safe_text, validate_legal_review,
}

-- A state of the table, reviewed at a time that is not after `now` and expiring at one that is.
pub record IsCurrent (now : ℕ) (j : Jurisdiction) : Type 0 where
  pub listed : has us_state_abbreviations j.state ≡ true
  pub reviewed : ℕ
  pub reviewed_at : iso_time j.reviewed_at ≡ some reviewed
  pub not_later : reviewed ≤ epoch + now
  pub expires : ℕ
  pub expires_at : iso_time j.expires_at ≡ some expires
  pub in_time : epoch + now < expires

-- No state comes twice.
abbrev pub IsDistinct : List Jurisdiction → Type 0
IsDistinct [] = Unit
IsDistinct (j ∷ js) = All (λ k. text_eq j.state k.state ≡ false) js × IsDistinct js

not_after-some :
    (o : Option ℕ) (now : ℕ) → not_after o now ≡ true → (t : ℕ) × (o ≡ some t) × (t ≤ epoch + now)
not_after-some none now e = cc
not_after-some (some t) now e = (t, refl, ground arith)

is_after-some :
    (o : Option ℕ) (now : ℕ) → is_after o now ≡ true → (t : ℕ) × (o ≡ some t) × (epoch + now < t)
is_after-some none now e = cc
is_after-some (some t) now e = (t, refl, ground arith)

current :
    (now : ℕ) (j : Jurisdiction)
    → has us_state_abbreviations j.state ≡ true
    → past_or_present (str j.reviewed_at) now ≡ true
    → future (str j.expires_at) now ≡ true
    → IsCurrent now j
unfolding past_or_present future
current now j listed past ahead =
    let (t, reviewed, before) = not_after-some (iso_time j.reviewed_at) now past in
    let (u, expires, after) = is_after-some (iso_time j.expires_at) now ahead in
    record {
      listed = listed;
      reviewed = t;
      reviewed_at = reviewed;
      not_later = before;
      expires = u;
      expires_at = expires;
      in_time = after;
    }

of_fields-IsCurrent :
    (now : ℕ) (seen : List Text) (s e a r x : Value) (j : Jurisdiction)
    → of_fields now seen s e a r x ≡ some j
    → IsCurrent now j × (has seen j.state ≡ false)
of_fields-IsCurrent now seen (str s) (bool true) (str a) (str r) (str x) j e =
    (current now j (ground arith) (ground arith) (ground arith), ground arith)
of_fields-IsCurrent now seen s e a r x j k = absurd (ground arith)

of_entry-IsCurrent :
    (now : ℕ) (seen : List Text) (o : Option HeapObject) (j : Jurisdiction)
    → of_entry now seen o ≡ some j
    → IsCurrent now j × (has seen j.state ≡ false)
of_entry-IsCurrent now seen none j e = cc
of_entry-IsCurrent now seen (some o) j e = of_fields-IsCurrent now seen _ _ _ _ _ j e

extend-some :
    (entry : Option Jurisdiction) (rest : Option (List Jurisdiction)) (js : List Jurisdiction)
    → extend entry rest ≡ some js
    → (j : Jurisdiction) × (ks : List Jurisdiction) × (entry ≡ some j)
      × (rest ≡ some ks)
      × (js ≡ j ∷ ks)
extend-some none rest js e = cc
extend-some (some j) none js e = cc
extend-some (some j) (some ks) js e = (j, ks, refl, refl, ground arith)

-- Apart from the states seen before.
abbrev IsApart : List Text → List Jurisdiction → Type 0
IsApart seen js = All (λ j. has seen j.state ≡ false) js

IsApart-tail :
    (s : Text) (seen : List Text) (js : List Jurisdiction)
    → IsApart (s ∷ seen) js
    → All (λ k. text_eq s k.state ≡ false) js × IsApart seen js
unfolding has
IsApart-tail s seen [] h = (tt, tt)
IsApart-tail s seen (j ∷ js) (h, hs) =
    let (others, rest) = IsApart-tail s seen js hs in ((ground arith, others), (ground arith, rest))

snapshot_from-IsCurrent :
    (h : Heap) (now : ℕ) (o : HeapObject) (left i : ℕ) (seen : List Text) (js : List Jurisdiction)
    → snapshot_from h now o left i seen ≡ some js
    → All (IsCurrent now) js × IsDistinct js × IsApart seen js × (length js ≡ left)
unfolding snapshot_from
snapshot_from-IsCurrent h now o zero i seen [] e = (tt, tt, tt, refl)
snapshot_from-IsCurrent h now o zero i seen (j ∷ js) e = cc
snapshot_from-IsCurrent h now o (suc left) i seen js e =
    let (j, ks, entry, rest, split) = extend-some _ _ js e in
    let (now_current, fresh) = of_entry-IsCurrent now seen _ j entry in
    let (all_current, distinct, apart, count) =
      snapshot_from-IsCurrent h now o left (suc i) (j.state ∷ seen) ks (rw entry at rest) in
    let (others, before) = IsApart-tail j.state seen ks apart in
    rw split ((now_current, all_current), (others, distinct), (fresh, before), ap suc count)

-- What a validated list of jurisdictions holds.
abbrev pub AreCurrent : ℕ → List Jurisdiction → Type 0
AreCurrent now js = All (IsCurrent now) js × IsDistinct js × (1 ≤ length js)

of_array-AreCurrent :
    (h : Heap) (now : ℕ) (o : HeapObject) (n : ℕ) (js : List Jurisdiction)
    → of_array h now o n ≡ some js
    → AreCurrent now js
of_array-AreCurrent h now o n js e =
    elim (Bool-cases (is_array_prototype o && leb 1 n && exact_array_data o n)) [
      | inl ok ↦
          let (all_current, distinct, _, count) =
            snapshot_from-IsCurrent h now o n 0 [] js (rw ok at e) in
          (all_current, distinct, ground arith)
      | inr bad ↦ absurd (ground arith)
    ]

of_object-AreCurrent :
    (h : Heap) (now : ℕ) (o : Option HeapObject) (js : List Jurisdiction)
    → of_object h now o ≡ some js
    → AreCurrent now js
of_object-AreCurrent h now none js e = cc
of_object-AreCurrent h now (some o) js e = by_kind o.kind e
  where
    by_kind : (k : Kind) → of_kind h now o k ≡ some js → AreCurrent now js
    by_kind (array n) e = of_array-AreCurrent h now o n js e
    by_kind ordinary e = cc
    by_kind (set_of _) e = cc
    by_kind proxy e = cc

review_of-some :
    (b : Bool) (version : Value) (o : Option (List Jurisdiction)) (r : Review)
    → review_of b version o ≡ some r
    → (b ≡ true) × (version ≡ str r.ruleset_version) × (o ≡ some r.jurisdictions)
review_of-some true (str version) (some js) r e = ground arith
review_of-some b version o r e = absurd (ground arith)

of_record-some :
    (h : Heap) (now : ℕ) (o : HeapObject) (r : Review)
    → of_record h now o ≡ some r
    → (is_approved o ≡ true)
      × (safe_text (str r.ruleset_version) ≡ true)
      × (valid_required_review h now (own_data_value o (name (codes "requiredReview"))) ≡ true)
      × (valid_evidence h now (own_data_value o (name (codes "requiredJurisdictionEvidence")))
          ≡ true)
      × AreCurrent now r.jurisdictions
unfolding snapshot_jurisdictions
of_record-some h now o r e =
    let version = own_data_value o (name (codes "rulesetVersion")) in
    let review = valid_required_review h now (own_data_value o (name (codes "requiredReview"))) in
    let evidence =
      valid_evidence h now (own_data_value o (name (codes "requiredJurisdictionEvidence"))) in
    let (valid, given, js) =
      review_of-some (is_approved o && safe_text version && review && evidence) version
        (snapshot_jurisdictions h now (own_data_value o (name (codes "jurisdictions")))) r e in
    let (rest, evident) = and-both (is_approved o && safe_text version && review) evidence valid in
    let (rest2, reviewed) = and-both (is_approved o && safe_text version) review rest in
    let (approved, safe) = and-both (is_approved o) (safe_text version) rest2 in
    (
      approved,
      subst (λ x. safe_text x ≡ true) given safe,
      reviewed,
      evident,
      of_object-AreCurrent h now (deref h (own_data_value o (name (codes "jurisdictions"))))
          r.jurisdictions js,
    )

-- Whatever the record on the heap is: if its structure is valid at a time, then it has at least one
-- jurisdiction, no state comes twice, each state is an abbreviation of the table whose review lies
-- at or before that time and whose expiry lies after it; the required review of all four roles and
-- the evidence are valid at that time; and the version is a safe text.
pub validate_legal_review-AreCurrent :
    (h : Heap) (now : ℕ) (v : Value) (r : Review)
    → validate_legal_review h now v ≡ some r
    → (o : HeapObject) × (exact_data_record h v top_level_keys ≡ some o)
      × (is_approved o ≡ true)
      × (safe_text (str r.ruleset_version) ≡ true)
      × (valid_required_review h now (own_data_value o (name (codes "requiredReview"))) ≡ true)
      × (valid_evidence h now (own_data_value o (name (codes "requiredJurisdictionEvidence")))
          ≡ true)
      × AreCurrent now r.jurisdictions
unfolding validate_legal_review
validate_legal_review-AreCurrent h now v r e =
    elim (Option-cases (exact_data_record h v top_level_keys)) [
      | inl missing ↦ absurd (ground arith)
      | inr (o, found) ↦
          let (approved, safe, reviewed, evident, jurisdictions) =
            of_record-some h now o r (ground arith) in
          (o, found, approved, safe, reviewed, evident, jurisdictions)
    ]
