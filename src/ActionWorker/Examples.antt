-- ===== src/ActionWorker/Examples.antt =====
-- recording-action-worker.mjs: a run that dispatches.
use air_call_demo_recording.Base.{ℕ, ◌++◌, ◌+◌, ◌≡◌, refl, true, some, List, [], ◌∷◌, returned}
use air_call_demo_recording.Base.Text.{Text, codes, text_eq}
use air_call_demo_recording.Base.Text.Patterns.{
  is_opaque, is_opaque_unit, is_alnum, is_digit, is_phone, is_hash, is_hex_unit,
}
use air_call_demo_recording.ActionWorker.{
  WorkerClaim, raw_claim, WorkerContext, context, Revalidation, WorkerMethods, dispatched,
  sound_claim, valid_context, is_authorized, run_once,
}
use air_call_demo_recording.ActionWorker.Runs.{IsDispatched, run_once-IsDispatched}

abbrev hex_digits : Text
hex_digits = codes "0123456789abcdef0123456789abcdef0123456789abcdef0123456789abcdef"

abbrev first_claim : WorkerClaim
first_claim = record {
  action_key_hash = hex_digits;
  lease_token = codes "t1";
  attempt = 1;
  control_epoch = 1;
}

abbrev call_context : WorkerContext
call_context = record {
  call_id = codes "call1";
  phone_digits = codes "4045550100";
  item_id = some (codes "lead1");
  evidence_digest = hex_digits;
}

abbrev approval : Revalidation
approval = record {
  authorized = true;
  item_id = some (codes "lead1");
  evidence_digest = some hex_digits;
}

-- A store whose state counts the calls; the preparation gives the lease's token, and the dispatch that
-- token before the call's id.
abbrev counting : WorkerMethods ℕ Text Text
counting = record {
  claim_next = λ n. (returned (raw_claim first_claim), n + 1);
  resolve = λ c n. (returned (context call_context), n + 1);
  prepare = λ c n. (returned c.lease_token, n + 1);
  execute = λ token id n. (returned (token ++ id), n + 1);
  retry = λ c delay n. (returned true, n + 1);
  cancel = λ c reason n. (returned true, n + 1);
  revalidate = λ x n. (returned (some approval), n + 1);
  audit = λ c digest n. (returned tt, n + 1);
}

abbrev delays : List ℕ
delays = 1000 ∷ 5000 ∷ []

dispatched_run : run_once counting delays 0 ≡ (dispatched (codes "t1call1"), 6)
unfolding run_once sound_claim valid_context is_authorized text_eq is_opaque is_opaque_unit is_alnum
    is_digit is_phone is_hash is_hex_unit
dispatched_run = refl

run_once-IsDispatched_example : IsDispatched counting delays 0 (codes "t1call1") 6
run_once-IsDispatched_example =
    run_once-IsDispatched counting delays 0 6 (codes "t1call1") dispatched_run
