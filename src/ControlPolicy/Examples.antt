-- ===== src/ControlPolicy/Examples.antt =====
-- recording-control-policy.mjs: runs of the policy on an approved request.
use air_call_demo_recording.Base.{◌≡◌, refl, ◌≢◌, ◌↔◌, true, false, List, [], ◌∷◌}
use air_call_demo_recording.Base.Text.{codes, text_eq}
use air_call_demo_recording.Js.{
  Value, bool, num, str, ref, natural, Key, index, name, value, Descriptor, object_prototype,
  array_prototype, ordinary, array, HeapObject, Heap, deref, key_eq, find_property, own_descriptor,
  number_same, is_safe_natural,
}
use air_call_demo_recording.ControlPolicy.Snapshot.{
  Fields, obj, plain, out_of_fuel, snapshot, snapshot_plain_data, snapshot_object,
  snapshot_elements, snapshot_fields, seen_before, text, arr, cons, nil, field, end, flag, Plain,
}
use air_call_demo_recording.ControlPolicy.{
  request_resume_recording, control_approved, permitted_consent, answered_event,
  evaluate_recording_control_policy, evaluate_fields, get, get_in, is_record, is_text, is_flag,
  non_empty_string, valid_id, plain_same, includes, set_size, valid_list, listed, member, number,
}
use air_call_demo_recording.ControlPolicy.Approval.{IsApproved}
use air_call_demo_recording.ControlPolicy.Authority.{evaluate_recording_control_policy-Copies}
use air_call_demo_recording.ControlPolicy.Completeness.{evaluate_fields_iff}
use air_call_demo_recording.ControlPolicy.Faithful.{Copies, snapshot_plain_data-Copies}
use air_call_demo_recording.ControlPolicy.Termination.{snapshot-ends}

abbrev own : Value → Descriptor
own v = record { enumerable = true; content = value v }

abbrev plain_object : List (Key × Descriptor) → HeapObject
plain_object props = record { kind = ordinary; proto = object_prototype; props = props }

abbrev single : Value → HeapObject
single v = record {
  kind = array 1;
  proto = array_prototype;
  props =
      (index 0, own v)
      ∷ (name (codes "length"), record { enumerable = false; content = value (num (natural 1)) })
      ∷ [];
}

abbrev approved_heap : Heap
approved_heap =
    plain_object (
      (name (codes "mode"), own (str (codes "CONTROL_ENABLED")))
      ∷ (name (codes "killSwitch"), own (bool false))
      ∷ (name (codes "policyVersion"), own (str (codes "v1")))
      ∷ (name (codes "approvedPolicyVersions"), own (ref 1))
      ∷ (name (codes "resolvedState"), own (str (codes "GA")))
      ∷ (name (codes "eligibleStates"), own (ref 2))
      ∷ (name (codes "canonicalMondayConsentColumn"), own (str (codes "consent")))
      ∷ (name (codes "consent"), own (ref 3))
      ∷ (name (codes "pilotUserIds"), own (ref 4))
      ∷ (name (codes "pilotNumberIds"), own (ref 4))
      ∷ (name (codes "event"), own (ref 5))
      ∷ [])
    ∷ single (str (codes "v1"))
    ∷ single (str (codes "GA"))
    ∷ plain_object (
        (name (codes "value"), own (str permitted_consent))
        ∷ (name (codes "source"), own (str (codes "consent")))
        ∷ (name (codes "verified"), own (bool true))
        ∷ [])
    ∷ single (num (natural 7))
    ∷ plain_object (
        (name (codes "type"), own (str answered_event))
        ∷ (name (codes "userId"), own (num (natural 7)))
        ∷ (name (codes "numberId"), own (num (natural 7)))
        ∷ [])
    ∷ []

approved_run :
    (evaluate_recording_control_policy approved_heap (ref 0)).action ≡ request_resume_recording
unfolding evaluate_recording_control_policy snapshot snapshot_plain_data snapshot_object
    snapshot_elements snapshot_fields seen_before deref evaluate_fields get get_in is_record is_text
    is_flag non_empty_string valid_id plain_same includes set_size valid_list listed member
    own_descriptor find_property key_eq text_eq number_same is_safe_natural
approved_run = refl

evaluate_recording_control_policy-Copies_example :
    (fs : Fields) × Copies approved_heap (ref 0) (obj fs) × IsApproved fs
evaluate_recording_control_policy-Copies_example =
    evaluate_recording_control_policy-Copies approved_heap (ref 0) approved_run

abbrev pilots : Plain
pilots = arr (cons (number (natural 7)) nil)

abbrev verified_consent : Plain
verified_consent = obj (
    field (name (codes "value")) (text permitted_consent) (
      field (name (codes "source")) (text (codes "consent"))
        (field (name (codes "verified")) (flag true) end)))

abbrev answered_call : Plain
answered_call = obj (
    field (name (codes "type")) (text answered_event) (
      field (name (codes "userId")) (number (natural 7))
        (field (name (codes "numberId")) (number (natural 7)) end)))

abbrev approved_fields : Fields
approved_fields = field (name (codes "mode")) (text (codes "CONTROL_ENABLED")) (
    field (name (codes "killSwitch")) (flag false) (
      field (name (codes "policyVersion")) (text (codes "v1")) (
        field (name (codes "approvedPolicyVersions")) (arr (cons (text (codes "v1")) nil)) (
          field (name (codes "resolvedState")) (text (codes "GA")) (
            field (name (codes "eligibleStates")) (arr (cons (text (codes "GA")) nil)) (
              field (name (codes "canonicalMondayConsentColumn")) (text (codes "consent")) (
                field (name (codes "pilotUserIds")) pilots (
                  field (name (codes "pilotNumberIds")) pilots (
                    field (name (codes "consent")) verified_consent
                      (field (name (codes "event")) answered_call end))))))))))

fields_run : evaluate_fields approved_fields ≡ control_approved
unfolding evaluate_fields get get_in is_record is_text is_flag non_empty_string valid_id plain_same
    includes set_size valid_list listed member key_eq text_eq number_same is_safe_natural
fields_run = refl

evaluate_fields_iff_example :
    (evaluate_fields approved_fields ≡ control_approved) ↔ IsApproved approved_fields
evaluate_fields_iff_example = evaluate_fields_iff approved_fields

snapshot-ends_example : snapshot approved_heap (ref 0) ≢ out_of_fuel
snapshot-ends_example = snapshot-ends approved_heap (ref 0)

copied_run :
    snapshot_plain_data approved_heap 3 [] (ref 1) ≡ plain (arr (cons (text (codes "v1")) nil))
unfolding snapshot_plain_data snapshot_object snapshot_elements seen_before own_descriptor
    find_property key_eq text_eq
copied_run = refl

snapshot_plain_data-Copies_example :
    Copies approved_heap (ref 1) (arr (cons (text (codes "v1")) nil))
snapshot_plain_data-Copies_example =
    snapshot_plain_data-Copies approved_heap 3 [] (ref 1) (arr (cons (text (codes "v1")) nil))
      copied_run
