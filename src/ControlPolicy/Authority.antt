-- ===== src/ControlPolicy/Authority.antt =====
-- recording-control-policy.mjs: where the authority to resume a recording comes from.
use air_call_demo_recording.Base.{suc, ◌≡◌, refl, [], arith, length}
use air_call_demo_recording.Js.{Heap, Value}
use air_call_demo_recording.ControlPolicy.Snapshot.{
  Snap, Plain, Fields, obj, plain, invalid, out_of_fuel, snapshot,
}
use air_call_demo_recording.ControlPolicy.{
  ControlReason, request_resume_recording, control_approved, decide_by, evaluate_snapshot,
  evaluate_fields, evaluate_recording_control_policy,
}
use air_call_demo_recording.ControlPolicy.Approval.{IsApproved}
use air_call_demo_recording.ControlPolicy.Completeness.{evaluate_fields_iff}
use air_call_demo_recording.ControlPolicy.Faithful.{Copies, snapshot_plain_data-Copies}

decide_by-request :
    (r : ControlReason) → (decide_by r).action ≡ request_resume_recording → r ≡ control_approved
decide_by-request r e = ground arith

evaluate_snapshot-request :
    (s : Snap Plain)
    → (evaluate_snapshot s).action ≡ request_resume_recording
    → (fs : Fields) × (s ≡ plain (obj fs)) × (evaluate_fields fs ≡ control_approved)
evaluate_snapshot-request (plain (obj fs)) e = (fs, refl, decide_by-request (evaluate_fields fs) e)
evaluate_snapshot-request invalid e = cc
evaluate_snapshot-request out_of_fuel e = cc
evaluate_snapshot-request (plain _) e = cc

-- On any heap, hostile objects included: the boundary requests to resume a recording only if its
-- input is, all the way down, made of own enumerable data properties of ordinary records and arrays
-- (no proxy, no accessor, no cycle), and the plain record that it is holds all that approval needs.
pub evaluate_recording_control_policy-Copies :
    (h : Heap) (input : Value)
    → (evaluate_recording_control_policy h input).action ≡ request_resume_recording
    → (fs : Fields) × Copies h input (obj fs) × IsApproved fs
unfolding evaluate_recording_control_policy snapshot
evaluate_recording_control_policy-Copies h input e =
    let (fs, is_plain, approved) = evaluate_snapshot-request _ e in
    (
      fs,
      snapshot_plain_data-Copies h (suc (length h)) [] input (obj fs) is_plain,
      (evaluate_fields_iff fs).0 approved,
    )
