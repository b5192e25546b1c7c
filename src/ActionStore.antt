-- ===== src/ActionStore.antt =====
-- postgres-recording-action-store.mjs over the tables of migrations/002-recording-action-store.sql:
-- the outbox of approved recording actions. Rows are found by their key's hash; the time of the
-- database is an argument of each operation, and so is the row that the query of `claim` picks, since
-- locks held by others decide it. `tokens` come from node:crypto's randomUUID.
pub mod Requests
pub mod Dispatch
pub mod History
pub mod OnceOnly
pub mod KillSwitch
mod Examples
use air_call_demo_recording.Base.{
  ℕ, zero, suc, ◌+◌, ◌-◌, ◌*◌, ◌/◌, ◌%◌, ◌^◌, ◌≤◌, ◌<◌, ◌≡◌, refl, sym, ap, ◌∙◌, ◌≢◌, ◌↔◌, ◌⊎◌, inl,
  inr, Bool, true, false, not, ◌&&◌, ◌||◌, Option, none, some, List, [], ◌∷◌, ◌++◌, map, arith, ltb,
  leb, ◌==◌, if◌then◌else◌, ==_iff, Bool-cases, Option-cases, and-both, length, take, get_elem?,
  get_elem?-lt, all, any, All, Attempt, returned, thrown,
}
use air_call_demo_recording.Base.Text.{Text, text_eq}

pub data ActionStatus : Type 0 where
  pending leased retry_scheduled dispatching succeeded failed outcome_unknown canceled :
      ActionStatus

pub data FailureCode : Type 0 where
  dependency_unavailable authorization_denied authorization_expired unknown_key : FailureCode
  provider_ambiguous finalization_ambiguous manual_cancel : FailureCode

pub record Control : Type 0 where
  pub actions_enabled : Bool
  pub control_epoch : ℕ

-- What an activation authorises; a row of recording_action_activations adds when.
pub record Scope : Type 0 where
  pub deployment_hash : Text
  pub policy_hash : Text
  pub pilot_hash : Text
  pub consent_column_hash : Text

pub record Activation : Type 0 where
  pub scope : Scope
  pub control_epoch : ℕ
  pub expires_at : ℕ

pub record DecisionRow : Type 0 where
  pub approved : Bool
  pub policy_key_hash : Text
  pub evidence_digest : Option Text
  pub decided_at : ℕ

pub record ActionRow : Type 0 where
  pub decision_key : Text
  pub status : ActionStatus
  pub attempt_count : ℕ
  pub max_attempts : ℕ
  pub available_at : ℕ
  pub lease_token : Option Text
  pub lease_expires_at : Option ℕ
  pub claim_epoch : Option ℕ
  pub failure_code : Option FailureCode
  pub completed_at : Option ℕ

-- The encrypted context of an action, until it expires.
pub record Capability : Type 0 where
  pub key_id : Text
  pub ciphertext : Text
  pub expires_at : ℕ

pub record Tables : Type 0 where
  pub control : Control
  pub activations : Text → Option Activation
  pub decisions : Text → Option DecisionRow
  pub outbox : Text → Option ActionRow
  pub capabilities : Text → Option Capability

-- What `claim` returns, and what the later operations of its worker present.
pub record Claim : Type 0 where
  pub action_key : Text
  pub lease_token : Text
  pub control_epoch : ℕ

abbrev pub put {ℓ} : {A : Type ℓ} → Text → Option A → (Text → Option A) → Text → Option A
put k row rows j = if text_eq j k then row else rows j

abbrev pub same_scope : Scope → Scope → Bool
same_scope a b =
    text_eq a.deployment_hash b.deployment_hash
    && text_eq a.policy_hash b.policy_hash
    && text_eq a.pilot_hash b.pilot_hash
    && text_eq a.consent_column_hash b.consent_column_hash

abbrev pub in_force : Control → Scope → ℕ → Option Activation → Bool
in_force c scope now none = false
in_force c scope now (some a) =
    c.actions_enabled
    && a.control_epoch == c.control_epoch
    && ltb now a.expires_at
    && same_scope a.scope scope

-- `activeActivationPredicate` with the scope of the configuration, which may be missing.
unfoldable pub active : Tables → Option Scope → ℕ → Bool
active t none now = false
active t (some scope) now = in_force t.control scope now (t.activations scope.deployment_hash)

abbrev pub is_status : ActionStatus → ActionStatus → Bool
is_status pending pending = true
is_status leased leased = true
is_status retry_scheduled retry_scheduled = true
is_status dispatching dispatching = true
is_status succeeded succeeded = true
is_status failed failed = true
is_status outcome_unknown outcome_unknown = true
is_status canceled canceled = true
is_status _ _ = false

abbrev pub token_is : Option Text → Text → Bool
token_is none t = false
token_is (some s) t = text_eq s t

abbrev pub epoch_is : Option ℕ → ℕ → Bool
epoch_is none e = false
epoch_is (some n) e = n == e

abbrev pub later : Option ℕ → ℕ → Bool
later none now = false
later (some t) now = ltb now t

abbrev pub not_later : Option ℕ → ℕ → Bool
not_later none now = false
not_later (some t) now = leb t now

-- `setActionsEnabled(false)`: the audit row that it adds is not kept here.
unfoldable pub disable_actions : Tables → Tables
disable_actions t = record t {
  control = record { actions_enabled = false; control_epoch = t.control.control_epoch + 1 };
}

-- `activateWithAttestation`, with the scope and the expiry of an artifact that verifies.
unfoldable pub activate : Scope → ℕ → Tables → Tables
activate scope expires_at t =
    let epoch = t.control.control_epoch + 1 in
    record t {
      control = record { actions_enabled = true; control_epoch = epoch };
      activations =
          put scope.deployment_hash
            (some (record { scope = scope; control_epoch = epoch; expires_at = expires_at }))
            t.activations;
    }

abbrev pub due : ActionRow → ℕ → Bool
due r now =
    (is_status r.status pending || is_status r.status retry_scheduled) && leb r.available_at now
    || is_status r.status leased && not_later r.lease_expires_at now

abbrev pub leased_row : ActionRow → Text → ℕ → ℕ → ActionRow
leased_row r token until epoch = record r {
  status = leased;
  attempt_count = r.attempt_count + 1;
  lease_token = some token;
  lease_expires_at = some until;
  claim_epoch = some epoch;
}

-- `claim`, where `key` is the candidate.
unfoldable pub claim : Option Scope → ℕ → ℕ → Text → Text → Tables → Option Claim × Tables
claim scope lease_ms now token key t = elim (t.outbox key) [
  | none ↦ (none, t)
  | some r ↦
      if active t scope now && due r now && ltb r.attempt_count r.max_attempts
      then (
        some (record {
          action_key = key;
          lease_token = token;
          control_epoch = t.control.control_epoch;
        }),
        record t {
          outbox =
              put key (some (leased_row r token (now + lease_ms) t.control.control_epoch)) t.outbox;
        },
      )
      else (none, t)
]

-- A row that is leased to the claim.
abbrev pub leased_to : ActionRow → Claim → Bool
leased_to r c = token_is r.lease_token c.lease_token && is_status r.status leased

abbrev pub decided_after : Option DecisionRow → ℕ → ℕ → Bool
decided_after none max_age now = false
decided_after (some d) max_age now = ltb now (d.decided_at + max_age)

abbrev pub unexpired : Option Capability → ℕ → Bool
unexpired none now = false
unexpired (some c) now = ltb now c.expires_at

abbrev pub dispatching_row : ActionRow → ActionRow
dispatching_row r = record r { status = dispatching; lease_expires_at = none }

abbrev pub may_dispatch : Option Scope → ℕ → ℕ → Claim → Tables → ActionRow → Bool
may_dispatch scope max_age now c t r =
    leased_to r c
    && later r.lease_expires_at now
    && epoch_is r.claim_epoch c.control_epoch
    && t.control.control_epoch == c.control_epoch
    && active t scope now
    && decided_after (t.decisions r.decision_key) max_age now
    && unexpired (t.capabilities c.action_key) now

-- `prepareDispatch`; it throws where no row is updated.
unfoldable pub prepare_dispatch :
    Option Scope → ℕ → ℕ → Claim → Tables → Attempt (Unit {0}) × Tables
prepare_dispatch scope max_age now c t = elim (t.outbox c.action_key) [
  | none ↦ (thrown, t)
  | some r ↦
      if may_dispatch scope max_age now c t r
      then (returned tt, record t { outbox = put c.action_key (some (dispatching_row r)) t.outbox })
      else (thrown, t)
]

abbrev pub retried_row : ActionRow → ℕ → ℕ → ActionRow
retried_row r delay now =
    if leb r.max_attempts r.attempt_count
    then record r {
      status = failed;
      available_at = now + delay;
      lease_token = none;
      lease_expires_at = none;
      claim_epoch = none;
      completed_at = some now;
      failure_code = some dependency_unavailable;
    }
    else record r {
      status = retry_scheduled;
      available_at = now + delay;
      lease_token = none;
      lease_expires_at = none;
      claim_epoch = none;
      completed_at = none;
      failure_code = none;
    }

-- `scheduleRetry`
unfoldable pub schedule_retry : ℕ → ℕ → Claim → Tables → Attempt ActionStatus × Tables
schedule_retry delay now c t = elim (t.outbox c.action_key) [
  | none ↦ (thrown, t)
  | some r ↦
      if leased_to r c && later r.lease_expires_at now
      then (
        returned (retried_row r delay now).status,
        record t { outbox = put c.action_key (some (retried_row r delay now)) t.outbox },
      )
      else (thrown, t)
]

abbrev pub canceled_row : ActionRow → FailureCode → ℕ → ActionRow
canceled_row r reason now = record r {
  status = canceled;
  failure_code = some reason;
  lease_token = none;
  lease_expires_at = none;
  completed_at = some now;
}

-- `cancel`, with one of the TERMINAL reasons; the answer is whether a capability was deleted.
unfoldable pub cancel : FailureCode → ℕ → Claim → Tables → Bool × Tables
cancel reason now c t = elim (t.outbox c.action_key) [
  | none ↦ (false, t)
  | some r ↦
      if leased_to r c
      then (
        elim (t.capabilities c.action_key) [ none ↦ false | some _ ↦ true ],
        record t {
          outbox = put c.action_key (some (canceled_row r reason now)) t.outbox;
          capabilities = put c.action_key none t.capabilities;
        },
      )
      else (false, t)
]
