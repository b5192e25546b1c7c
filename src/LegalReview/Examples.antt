-- ===== src/LegalReview/Examples.antt =====
-- legal-ruleset-review.mjs: the validation of a record.
use air_call_demo_recording.Base.{ℕ, ◌≡◌, refl, true, false, some, List, [], ◌∷◌}
use air_call_demo_recording.Base.Text.{
  Text, codes, text_eq, has, trim, trim_start, trim_end, is_space,
}
use air_call_demo_recording.Base.Text.Patterns.{is_digit}
use air_call_demo_recording.Js.{
  Value, bool, num, str, ref, natural, Key, index, name, value, Descriptor, object_prototype,
  array_prototype, ordinary, array, HeapObject, Heap, deref, key_eq, find_property, own_descriptor,
  has_symbol_key, plain_record,
}
use air_call_demo_recording.Consent.States.{us_state_abbreviations}
use air_call_demo_recording.LegalReview.Times.{
  fraction, millis, is_leap, days_before_month, days_in_month, days_before_year, time_of, iso_time,
  past_or_present, future,
}
use air_call_demo_recording.LegalReview.{
  Review, top_level_keys, is_approved, is_visible, safe_text, own_data_value, exact_data_record,
  elements_have_data, exact_array_data, valid_required_review, valid_evidence, snapshot_from,
  snapshot_jurisdictions, validate_legal_review,
}
use air_call_demo_recording.LegalReview.Jurisdictions.{AreCurrent, validate_legal_review-AreCurrent}

abbrev own : Value → Descriptor
own v = record { enumerable = true; content = value v }

abbrev plain_object : List (Key × Descriptor) → HeapObject
plain_object props = record { kind = ordinary; proto = object_prototype; props = props }

abbrev reviewed_at : Value
reviewed_at = str (codes "2024-02-29T12:00:00Z")

abbrev expires_at : Value
expires_at = str (codes "2027-01-01T00:00:00.5Z")

abbrev role : Text → HeapObject
role reference = plain_object (
    (name (codes "name"), own (str (codes "A. Reviewer")))
    ∷ (name (codes "completedAt"), own reviewed_at)
    ∷ (name reference, own (str (codes "memo 1")))
    ∷ [])

abbrev review_heap : Heap
review_heap =
    plain_object (
      (name (codes "schemaVersion"), own (num (natural 1)))
      ∷ (name (codes "documentType"), own (str (codes "LEGAL_REVIEW_RECORD")))
      ∷ (name (codes "status"), own (str (codes "APPROVED")))
      ∷ (name (codes "recordingActionsPermitted"), own (bool false))
      ∷ (name (codes "runtimeEligible"), own (bool false))
      ∷ (name (codes "rulesetVersion"), own (str (codes "v1")))
      ∷ (name (codes "jurisdictions"), own (ref 1))
      ∷ (name (codes "requiredReview"), own (ref 3))
      ∷ (name (codes "requiredJurisdictionEvidence"), own (ref 8))
      ∷ [])
    ∷ record {
      kind = array 1;
      proto = array_prototype;
      props =
          (index 0, own (ref 2))
          ∷ (
            name (codes "length"),
            record { enumerable = false; content = value (num (natural 1)) },
          )
          ∷ [];
    }
    ∷ plain_object (
        (name (codes "state"), own (str (codes "GA")))
        ∷ (name (codes "eligible"), own (bool true))
        ∷ (name (codes "legalAuthorityReference"), own (str (codes "statute")))
        ∷ (name (codes "reviewedAt"), own reviewed_at)
        ∷ (name (codes "expiresAt"), own expires_at)
        ∷ [])
    ∷ plain_object (
        (name (codes "legalCounsel"), own (ref 4))
        ∷ (name (codes "privacySecurity"), own (ref 5))
        ∷ (name (codes "operationalOwner"), own (ref 6))
        ∷ (name (codes "executiveApprover"), own (ref 7))
        ∷ [])
    ∷ role (codes "memorandumReference")
    ∷ role (codes "assessmentReference")
    ∷ role (codes "trainingReference")
    ∷ role (codes "approvalReference")
    ∷ plain_object (
        (
          name (codes "businessStateSource"),
          own (str (codes "Sales Board 7727339040.State text_2: business-address State")),
        )
        ∷ (
          name (codes "humanRecordingConsent"),
          own (
              str
                (codes "Separate approved human-consent control: not configured in audit runtime")),
        )
        ∷ (name (codes "legalAuthority"), own (str (codes "statute")))
        ∷ (name (codes "reviewedAt"), own reviewed_at)
        ∷ (name (codes "expiresAt"), own expires_at)
        ∷ [])
    ∷ []

-- 2025-01-01
abbrev new_year : ℕ
new_year = 1735689600000

abbrev georgia_review : Review
georgia_review = record {
  ruleset_version = codes "v1";
  jurisdictions =
      record {
        state = codes "GA";
        legal_authority_reference = codes "statute";
        reviewed_at = codes "2024-02-29T12:00:00Z";
        expires_at = codes "2027-01-01T00:00:00.5Z";
      }
      ∷ [];
}

validated_run : validate_legal_review review_heap new_year (ref 0) ≡ some georgia_review
unfolding validate_legal_review exact_data_record plain_record deref own_descriptor find_property
    key_eq text_eq has own_data_value safe_text is_visible trim trim_start trim_end is_space
    valid_required_review valid_evidence past_or_present future iso_time millis fraction time_of
    days_before_year days_before_month days_in_month is_leap is_digit snapshot_jurisdictions
    exact_array_data elements_have_data has_symbol_key snapshot_from us_state_abbreviations
validated_run = refl

validate_legal_review-AreCurrent_example :
    (o : HeapObject) × (exact_data_record review_heap (ref 0) top_level_keys ≡ some o)
    × (is_approved o ≡ true)
    × (safe_text (str (codes "v1")) ≡ true)
    × (valid_required_review review_heap new_year (own_data_value o (name (codes "requiredReview")))
        ≡ true)
    × (valid_evidence review_heap new_year
          (own_data_value o (name (codes "requiredJurisdictionEvidence")))
        ≡ true)
    × AreCurrent new_year georgia_review.jurisdictions
validate_legal_review-AreCurrent_example =
    validate_legal_review-AreCurrent review_heap new_year (ref 0) georgia_review validated_run
