-- ===== src/LegalReview.antt =====
-- legal-ruleset-review.mjs: the structural validation of a legal-review record. Times are counted in
-- milliseconds from the beginning of the year 0, and `now` is `Date.now()`.
pub mod Times
pub mod Jurisdictions
mod Examples
use air_call_demo_recording.Base.{
  ℕ, zero, suc, ◌+◌, ◌-◌, ◌*◌, ◌/◌, ◌%◌, ◌^◌, ◌≤◌, ◌<◌, ◌≡◌, refl, sym, ap, ◌∙◌, ◌≢◌, ◌↔◌, ◌⊎◌, inl,
  inr, Bool, true, false, not, ◌&&◌, ◌||◌, Option, none, some, List, [], ◌∷◌, ◌++◌, map, arith, ltb,
  leb, ◌==◌, if◌then◌else◌, ==_iff, Bool-cases, Option-cases, and-both, length, take, get_elem?,
  get_elem?-lt, all, any, All, Attempt, returned, thrown,
}
use air_call_demo_recording.Base.Text.{Text, codes, text_eq, trim, has}
use air_call_demo_recording.Js.{
  Value, undefined, bool, num, str, natural, Key, index, name, symbol, Content, value, accessor,
  Descriptor, array_prototype, array, HeapObject, Heap, deref, own_descriptor, has_symbol_key,
  plain_record, Kind,
}
use air_call_demo_recording.Consent.States.{us_state_abbreviations}
use Times.{past_or_present, future}

-- What is kept of a jurisdiction; `eligible` is true for each.
pub record Jurisdiction : Type 0 where
  pub state : Text
  pub legal_authority_reference : Text
  pub reviewed_at : Text
  pub expires_at : Text

pub record Review : Type 0 where
  pub ruleset_version : Text
  pub jurisdictions : List Jurisdiction

abbrev pub top_level_keys : List Text
top_level_keys =
    codes "schemaVersion"
    ∷ codes "documentType"
    ∷ codes "status"
    ∷ codes "recordingActionsPermitted"
    ∷ codes "runtimeEligible"
    ∷ codes "rulesetVersion"
    ∷ codes "jurisdictions"
    ∷ codes "requiredReview"
    ∷ codes "requiredJurisdictionEvidence"
    ∷ []

-- REVIEW_ROLES
abbrev pub review_roles : List (Text × Text)
review_roles =
    (codes "legalCounsel", codes "memorandumReference")
    ∷ (codes "privacySecurity", codes "assessmentReference")
    ∷ (codes "operationalOwner", codes "trainingReference")
    ∷ (codes "executiveApprover", codes "approvalReference")
    ∷ []

abbrev pub evidence_keys : List Text
evidence_keys =
    codes "businessStateSource"
    ∷ codes "humanRecordingConsent"
    ∷ codes "legalAuthority"
    ∷ codes "reviewedAt"
    ∷ codes "expiresAt"
    ∷ []

abbrev pub jurisdiction_keys : List Text
jurisdiction_keys =
    codes "state"
    ∷ codes "eligible"
    ∷ codes "legalAuthorityReference"
    ∷ codes "reviewedAt"
    ∷ codes "expiresAt"
    ∷ []

abbrev pub within : ℕ → ℕ → ℕ → Bool
within lo hi c = leb lo c && leb c hi

-- The control and format characters of the basic plane.
abbrev pub is_hidden_unit : ℕ → Bool
is_hidden_unit c =
    within 0x0 0x1F c
    || within 0x7F 0x9F c
    || c == 0xAD
    || within 0x600 0x605 c
    || c == 0x61C
    || c == 0x6DD
    || c == 0x70F
    || within 0x890 0x891 c
    || c == 0x8E2
    || c == 0x180E
    || within 0x200B 0x200F c
    || within 0x202A 0x202E c
    || within 0x2060 0x2064 c
    || within 0x2066 0x206F c
    || c == 0xFEFF
    || within 0xFFF9 0xFFFB c

-- The format characters of the other planes, as their surrogates.
abbrev pub is_hidden_pair : ℕ → ℕ → Bool
is_hidden_pair p c =
    p == 0xD804 && (c == 0xDCBD || c == 0xDCCD)
    || p == 0xD80D && within 0xDC30 0xDC3F c
    || p == 0xD82F && within 0xDCA0 0xDCA3 c
    || p == 0xD834 && within 0xDD73 0xDD7A c
    || p == 0xDB40 && (c == 0xDC01 || within 0xDC20 0xDC7F c)

-- SAFE_TEXT, with the unit before.
unfoldable pub is_visible : ℕ → Text → Bool
is_visible before [] = true
is_visible before (c ∷ t) =
    not (is_hidden_unit c) && not (is_hidden_pair before c) && is_visible c t

abbrev is_filled : Text → Bool
is_filled [] = false
is_filled _ = true

unfoldable pub safe_text : Value → Bool
safe_text (str t) = is_filled t && leb (length t) 4096 && is_filled (trim t) && is_visible 0 t
safe_text _ = false

abbrev data_of : Option Descriptor → Value
data_of none = undefined
data_of (some d) = elim d.content [ value v ↦ v | accessor ↦ undefined ]

unfoldable pub own_data_value : HeapObject → Key → Value
own_data_value o k = data_of (own_descriptor o k)

abbrev is_data : Content → Bool
is_data (value v) = true
is_data accessor = false

abbrev key_among : List Text → Key → Bool
key_among keys (name t) = has keys t
key_among keys _ = false

-- `exactDataRecord`: the object, if it has the keys and no other, all with data.
abbrev exactly : List Text → HeapObject → Option HeapObject
exactly keys o =
    if all (λ p. key_among keys p.0 && is_data p.1.content) o.props && length o.props == length keys
    then some o
    else none

unfoldable pub exact_data_record : Heap → Value → List Text → Option HeapObject
exact_data_record h v keys = elim (plain_record h v) [ none ↦ none | some o ↦ exactly keys o ]

abbrev is_exact : Option HeapObject → Bool
is_exact none = false
is_exact (some o) = true

abbrev has_data : Option Descriptor → Bool
has_data none = false
has_data (some d) = is_data d.content

-- The elements from `i` on are there, with data.
unfoldable pub elements_have_data : HeapObject → ℕ → ℕ → Bool
elements_have_data o zero i = true
elements_have_data o (suc left) i =
    has_data (own_descriptor o (index i)) && elements_have_data o left (suc i)

abbrev is_length : Key → Bool
is_length (name t) = text_eq t (codes "length")
is_length _ = false

unfoldable pub exact_array_data : HeapObject → ℕ → Bool
exact_array_data o n =
    not (has_symbol_key o.props)
    && length o.props == n + 1
    && any (λ p. is_length p.0) o.props
    && elements_have_data o n 0

-- A role's record.
abbrev role_holds : Heap → ℕ → Text → Option HeapObject → Bool
role_holds h now reference none = false
role_holds h now reference (some o) =
    safe_text (own_data_value o (name (codes "name")))
    && safe_text (own_data_value o (name reference))
    && past_or_present (own_data_value o (name (codes "completedAt"))) now

abbrev role_valid : Heap → ℕ → HeapObject → Text × Text → Bool
role_valid h now review (role, reference) = role_holds h now reference (
    exact_data_record h (own_data_value review (name role))
      (codes "name" ∷ codes "completedAt" ∷ reference ∷ []))

unfoldable pub valid_required_review : Heap → ℕ → Value → Bool
valid_required_review h now v = elim (exact_data_record h v (map (λ p. p.0) review_roles)) [
  | none ↦ false
  | some review ↦ all (role_valid h now review) review_roles
]

abbrev is_literal : Text → Value → Bool
is_literal t (str s) = text_eq s t
is_literal t _ = false

unfoldable pub valid_evidence : Heap → ℕ → Value → Bool
valid_evidence h now v = elim (exact_data_record h v evidence_keys) [
  | none ↦ false
  | some o ↦
      is_literal (codes "Sales Board 7727339040.State text_2: business-address State")
        (own_data_value o (name (codes "businessStateSource")))
      && is_literal
          (codes "Separate approved human-consent control: not configured in audit runtime")
          (own_data_value o (name (codes "humanRecordingConsent")))
      && safe_text (own_data_value o (name (codes "legalAuthority")))
      && past_or_present (own_data_value o (name (codes "reviewedAt"))) now
      && future (own_data_value o (name (codes "expiresAt"))) now
]

-- An entry by the values of its keys, with the states of the entries before it.
abbrev pub of_fields : ℕ → List Text → Value → Value → Value → Value → Value → Option Jurisdiction
of_fields now seen (str s) (bool true) (str a) (str r) (str e) =
    if has us_state_abbreviations s
      && not (has seen s)
      && safe_text (str a)
      && past_or_present (str r) now
      && future (str e) now
    then some (record { state = s; legal_authority_reference = a; reviewed_at = r; expires_at = e })
    else none
of_fields now seen _ _ _ _ _ = none

abbrev pub of_entry : ℕ → List Text → Option HeapObject → Option Jurisdiction
of_entry now seen none = none
of_entry now seen (some o) =
    of_fields now seen (own_data_value o (name (codes "state")))
      (own_data_value o (name (codes "eligible")))
      (own_data_value o (name (codes "legalAuthorityReference")))
      (own_data_value o (name (codes "reviewedAt"))) (own_data_value o (name (codes "expiresAt")))

abbrev pub extend : Option Jurisdiction → Option (List Jurisdiction) → Option (List Jurisdiction)
extend (some j) (some js) = some (j ∷ js)
extend _ _ = none

abbrev pub with_state : Option Jurisdiction → List Text → List Text
with_state none seen = seen
with_state (some j) seen = j.state ∷ seen

-- The loop of `snapshotJurisdictions`, over the elements from `i` on.
unfoldable pub snapshot_from :
    Heap → ℕ → HeapObject → ℕ → ℕ → List Text → Option (List Jurisdiction)
snapshot_from h now o zero i seen = some []
snapshot_from h now o (suc left) i seen =
    let entry =
      of_entry now seen (exact_data_record h (own_data_value o (index i)) jurisdiction_keys) in
    extend entry (snapshot_from h now o left (suc i) (with_state entry seen))

abbrev is_array_prototype : HeapObject → Bool
is_array_prototype o = elim o.proto [ array_prototype ↦ true | _ ↦ false ]

abbrev pub of_array : Heap → ℕ → HeapObject → ℕ → Option (List Jurisdiction)
of_array h now o n =
    if is_array_prototype o && leb 1 n && exact_array_data o n
    then snapshot_from h now o n 0 []
    else none

abbrev pub of_kind : Heap → ℕ → HeapObject → Kind → Option (List Jurisdiction)
of_kind h now o (array n) = of_array h now o n
of_kind h now o _ = none

abbrev pub of_object : Heap → ℕ → Option HeapObject → Option (List Jurisdiction)
of_object h now none = none
of_object h now (some o) = of_kind h now o o.kind

unfoldable pub snapshot_jurisdictions : Heap → ℕ → Value → Option (List Jurisdiction)
snapshot_jurisdictions h now v = of_object h now (deref h v)

abbrev pub is_one : Value → Bool
is_one (num (natural n)) = n == 1
is_one _ = false

abbrev pub is_false : Value → Bool
is_false (bool false) = true
is_false _ = false

abbrev pub is_approved : HeapObject → Bool
is_approved o =
    is_one (own_data_value o (name (codes "schemaVersion")))
    && is_literal (codes "LEGAL_REVIEW_RECORD") (own_data_value o (name (codes "documentType")))
    && is_literal (codes "APPROVED") (own_data_value o (name (codes "status")))
    && is_false (own_data_value o (name (codes "recordingActionsPermitted")))
    && is_false (own_data_value o (name (codes "runtimeEligible")))

abbrev pub review_of : Bool → Value → Option (List Jurisdiction) → Option Review
review_of true (str version) (some js) =
    some (record { ruleset_version = version; jurisdictions = js })
review_of _ _ _ = none

abbrev pub of_record : Heap → ℕ → HeapObject → Option Review
of_record h now o =
    let version = own_data_value o (name (codes "rulesetVersion")) in
    review_of
      (is_approved o
        && safe_text version
        && valid_required_review h now (own_data_value o (name (codes "requiredReview")))
        && valid_evidence h now (own_data_value o (name (codes "requiredJurisdictionEvidence"))))
      version (snapshot_jurisdictions h now (own_data_value o (name (codes "jurisdictions"))))

unfoldable pub validate_legal_review : Heap → ℕ → Value → Option Review
validate_legal_review h now v = elim (exact_data_record h v top_level_keys) [
  | none ↦ none
  | some o ↦ of_record h now o
]
