-- ===== src/Retention/Finalizer.antt =====
-- two-party-retention-finalizer.mjs: one run of the worker. Its calls of Aircall and Monday are kept
-- in a log, and an Outside says how they and the store's statements end.
use air_call_demo_recording.Base.{
  Bool, true, false, ◌&&◌, Option, none, some, List, ◌∷◌, if◌then◌else◌, Attempt, returned, thrown,
  ℕ,
}
use air_call_demo_recording.Base.Text.{Text}
use air_call_demo_recording.Base.Text.Patterns.{is_opaque}
use air_call_demo_recording.ConsentStore.{Connection}
use air_call_demo_recording.Retention.{
  RetentionStatus, delete_pending, delete_requested, delete_confirmed, ExceptionCode,
  dependency_failure, monday_writer_race, invalid_action_state, RetentionTables, RetentionDecision,
}
use air_call_demo_recording.Retention.Actions.{
  RetentionClaim, mark_delete_requested, mark_delete_confirmed, mark_monday_cleared,
  release_for_reconcile, mark_exception, claim_next,
}

-- A call of Aircall or of Monday, for the call whose recording it is.
pub data RemoteCall : Type 0 where
  delete_recording : (call : Text) → RemoteCall
  found_unavailable : (call : Text) → RemoteCall
  found_available : (call : Text) → RemoteCall
  unanswered : (call : Text) → RemoteCall
  clear_link : (call item : Text) → RemoteCall
  read_link : (call item : Text) → RemoteCall

pub record Outside : Type 0 where
  pub delete_works : Bool
  pub unavailable : Attempt Bool
  pub clear_works : Bool
  pub link : Attempt (Option Text)
  pub at_mark : Connection
  pub at_exception : Connection

pub data RetentionOutcome : Type 0 where
  delete_was_requested awaiting_provider_reconciliation : RetentionOutcome
  delete_was_confirmed link_was_cleared : RetentionOutcome
  exceptional : ExceptionCode → RetentionOutcome

-- The tables and the log, its last call first.
pub record Work : Type 0 where
  pub tables : RetentionTables
  pub log : List RemoteCall

abbrev pub logged : RemoteCall → Work → Work
logged call w = record w { log = call ∷ w.log }

abbrev pub after_exception :
    ExceptionCode → Work → Attempt (Unit {0}) × RetentionTables → Attempt RetentionOutcome × Work
after_exception code w (returned _, t) = (returned (exceptional code), record w { tables = t })
after_exception code w (thrown, t) = (thrown, record w { tables = t })

-- `fail`
unfoldable pub fail :
    Outside → RetentionClaim → ExceptionCode → Work → Attempt RetentionOutcome × Work
fail o a code w = after_exception code w (mark_exception o.at_exception a code w.tables)

-- A transition, and the outcome that is reported if it works; what it throws is caught.
abbrev pub after_mark :
    Outside
    → RetentionClaim
    → RetentionOutcome
    → Work
    → Attempt (Unit {0}) × RetentionTables
    → Attempt RetentionOutcome × Work
after_mark o a r w (returned _, t) = (returned r, record w { tables = t })
after_mark o a r w (thrown, t) = fail o a dependency_failure (record w { tables = t })

abbrev pub request_deletion : Outside → RetentionClaim → Work → Attempt RetentionOutcome × Work
request_deletion o a w =
    let asked = logged (delete_recording a.provider_call_id) w in
    if o.delete_works
    then after_mark o a delete_was_requested asked (mark_delete_requested o.at_mark a asked.tables)
    else fail o a dependency_failure asked

abbrev pub after_lookup :
    Outside → RetentionClaim → Attempt Bool → Work → Attempt RetentionOutcome × Work
after_lookup o a thrown w = fail o a dependency_failure (logged (unanswered a.provider_call_id) w)
after_lookup o a (returned false) w =
    let seen = logged (found_available a.provider_call_id) w in
    after_mark o a awaiting_provider_reconciliation seen
      (release_for_reconcile o.at_mark a seen.tables)
after_lookup o a (returned true) w =
    let seen = logged (found_unavailable a.provider_call_id) w in
    after_mark o a delete_was_confirmed seen (mark_delete_confirmed o.at_mark a seen.tables)

-- The end of `finalizeMonday`, whose errors `runOnce` does not catch: it is returned, not awaited.
abbrev pub after_clear_mark :
    Work → Attempt (Unit {0}) × RetentionTables → Attempt RetentionOutcome × Work
after_clear_mark w (returned _, t) = (returned link_was_cleared, record w { tables = t })
after_clear_mark w (thrown, t) = (thrown, record w { tables = t })

abbrev pub after_read :
    Outside → RetentionClaim → Attempt (Option Text) → Work → Attempt RetentionOutcome × Work
after_read o a thrown w = (thrown, w)
after_read o a (returned (some value)) w = fail o a monday_writer_race w
after_read o a (returned none) w = after_clear_mark w (mark_monday_cleared o.at_mark a w.tables)

abbrev pub finalize_monday : Outside → RetentionClaim → Work → Attempt RetentionOutcome × Work
finalize_monday o a w =
    let asked = logged (clear_link a.provider_call_id a.calls_item_id) w in
    if o.clear_works
    then after_read o a o.link (logged (read_link a.provider_call_id a.calls_item_id) asked)
    else (thrown, asked)

-- The body of `runOnce` on a claim that is valid.
abbrev pub act_on :
    Outside → RetentionClaim → RetentionStatus → Work → Attempt RetentionOutcome × Work
act_on o a delete_pending w = request_deletion o a w
act_on o a delete_requested w = after_lookup o a o.unavailable w
act_on o a delete_confirmed w = finalize_monday o a w
act_on o a _ w = fail o a invalid_action_state w

abbrev is_claim_status : RetentionStatus → Bool
is_claim_status delete_pending = true
is_claim_status delete_requested = true
is_claim_status delete_confirmed = true
is_claim_status _ = false

-- `validateClaim`; an id of the store is a numeral.
abbrev pub valid_claim : RetentionClaim → Bool
valid_claim a =
    is_opaque a.provider_call_id && is_opaque a.calls_item_id && is_claim_status a.status

-- `runOnce` from the claim on.
unfoldable pub act : Outside → RetentionClaim → Work → Attempt RetentionOutcome × Work
act o a w = if valid_claim a then act_on o a a.status w else (thrown, w)

abbrev as_some : Attempt RetentionOutcome → Attempt (Option RetentionOutcome)
as_some (returned r) = returned (some r)
as_some thrown = thrown

abbrev pub after_claim :
    Outside
    → Work
    → Attempt (Option RetentionClaim) × RetentionTables
    → Attempt (Option RetentionOutcome) × Work
after_claim o w (thrown, t) = (thrown, record w { tables = t })
after_claim o w (returned none, t) = (returned none, record w { tables = t })
after_claim o w (returned (some a), t) =
    let (result, after) = act o a (record w { tables = t }) in (as_some result, after)

-- `runOnce`; none is idle.
unfoldable pub run_once :
    (Text → Text → Option RetentionDecision)
    → Outside
    → Connection
    → (now : ℕ) → (token : Text) → (id : ℕ) → Work
    → Attempt (Option RetentionOutcome) × Work
run_once unseal o c now token id w = after_claim o w (claim_next unseal c now token id w.tables)
