-- ===== src/ActionStore/Dispatch.antt =====
-- postgres-recording-action-store.mjs: `executeWithDispatchFence`, the one place that calls the
-- provider. The environment decides how the provider and each statement after it fare.
use air_call_demo_recording.Base.{
  ℕ, Bool, true, false, ◌&&◌, Option, none, some, ◌==◌, if◌then◌else◌, Attempt, returned, thrown,
}
use air_call_demo_recording.ActionStore.{
  ActionStatus, dispatching, succeeded, outcome_unknown, FailureCode, provider_ambiguous,
  finalization_ambiguous, Scope, ActionRow, Tables, Claim, put, active, is_status, token_is,
  epoch_is,
}

-- How the transaction of one dispatch ends once the provider was called: the outcome is committed; a
-- statement before the COMMIT fails, and all is rolled back; or the COMMIT fails, having taken
-- effect or not, and then the statement that marks the action ambiguous works or fails.
pub data Ending : Type 0 where
  committed : Ending
  rolled_back : Ending
  commit_failed : (applied marked : Bool) → Ending

pub record Weather : Type 0 where
  pub now : ℕ
  pub provider_returns : Bool
  pub ending : Ending

-- Whether the provider was called, the outcome that is returned, and the tables.
pub record Dispatched : Type 0 where
  pub called : Bool
  pub outcome : Attempt ActionStatus
  pub tables : Tables

abbrev pub outcome_status : Bool → ActionStatus
outcome_status true = succeeded
outcome_status false = outcome_unknown

abbrev outcome_failure : Bool → Option FailureCode
outcome_failure true = none
outcome_failure false = some provider_ambiguous

abbrev pub final_row : ActionRow → ActionStatus → Option FailureCode → ℕ → ActionRow
final_row r status failure now = record r {
  status = status;
  lease_token = none;
  lease_expires_at = none;
  completed_at = some now;
  failure_code = failure;
}

abbrev pub settled : Claim → ActionRow → Tables → Tables
settled c row t = record t {
  outbox = put c.action_key (some row) t.outbox;
  capabilities = put c.action_key none t.capabilities;
}

abbrev pub after_commit : Weather → Claim → ActionRow → Tables → Tables
after_commit w c r t =
    settled c
      (final_row r (outcome_status w.provider_returns) (outcome_failure w.provider_returns) w.now) t

-- The statement after a failed COMMIT: it marks the row that is still dispatching to this claim.
abbrev pub mark_ambiguous : Bool → Bool → Weather → Claim → ActionRow → Tables → Tables
mark_ambiguous true marked w c r t = after_commit w c r t
mark_ambiguous false true w c r t =
    settled c (final_row r outcome_unknown (some finalization_ambiguous) w.now) t
mark_ambiguous false false w c r t = t

abbrev pub called_provider : Weather → Ending → Claim → ActionRow → Tables → Dispatched
called_provider w committed c r t = record {
  called = true;
  outcome = returned (outcome_status w.provider_returns);
  tables = after_commit w c r t;
}
called_provider w rolled_back c r t = record { called = true; outcome = thrown; tables = t }
called_provider w (commit_failed applied marked) c r t = record {
  called = true;
  outcome = returned outcome_unknown;
  tables = mark_ambiguous applied marked w c r t;
}

-- The fence: the action is dispatching to this claim, and the control still has its epoch.
abbrev pub fence_open : Option Scope → Weather → Claim → Tables → ActionRow → Bool
fence_open scope w c t r =
    active t scope w.now
    && t.control.control_epoch == c.control_epoch
    && token_is r.lease_token c.lease_token
    && epoch_is r.claim_epoch c.control_epoch
    && is_status r.status dispatching

abbrev pub fenced : Option Scope → Weather → Claim → Tables → Option ActionRow → Dispatched
fenced scope w c t none = record { called = false; outcome = thrown; tables = t }
fenced scope w c t (some r) =
    if fence_open scope w c t r
    then called_provider w w.ending c r t
    else record { called = false; outcome = thrown; tables = t }

unfoldable pub execute_with_dispatch_fence : Option Scope → Weather → Claim → Tables → Dispatched
execute_with_dispatch_fence scope w c t = fenced scope w c t (t.outbox c.action_key)
