-- ===== src/ActionStore/Requests.antt =====
-- postgres-recording-action-store.mjs: the decisions and the approved actions that are recorded.
-- `encrypt` is AES-256-GCM under the active key, from a key id, the bound data and a context; the
-- context's own text stands for the object that is encrypted as JSON.
use air_call_demo_recording.Base.{
  ℕ, ◌+◌, Bool, true, false, not, ◌&&◌, Option, none, some, leb, if◌then◌else◌, Attempt, returned,
  thrown,
}
use air_call_demo_recording.Base.Text.{Text, text_eq}
use air_call_demo_recording.Base.Text.Patterns.{is_hash, is_opaque, is_phone, is_correlation}
use air_call_demo_recording.ActionStore.{
  pending, Scope, DecisionRow, ActionRow, Tables, put, active,
}

pub record Context : Type 0 where
  pub call_id : Text
  pub phone_digits : Text
  pub item_id : Text
  pub evidence_digest : Text

-- The request of `enqueueApprovedAction`; the numbers are given or left to their defaults.
pub record Request : Type 0 where
  pub action_key_hash : Text
  pub target_key_hash : Text
  pub decision_key_hash : Text
  pub policy_key_hash : Text
  pub evidence_digest : Text
  pub approved : Bool
  pub is_resume_recording : Bool
  pub context : Context
  pub correlation : Option Text
  pub max_attempts : Option ℕ
  pub capability_ttl_ms : Option ℕ

-- `int`
unfoldable pub int_in : Option ℕ → ℕ → ℕ → ℕ → Option ℕ
int_in none d lo hi = some d
int_in (some n) d lo hi = if leb lo n && leb n hi then some n else none

-- `safeContext`; the user and the number, which it only checks for being identifiers, are left out.
unfoldable pub safe_context : Context → Bool
safe_context c =
    is_opaque c.call_id
    && is_phone c.phone_digits
    && is_opaque c.item_id
    && is_hash c.evidence_digest

abbrev optional_correlation : Option Text → Bool
optional_correlation none = true
optional_correlation (some t) = is_correlation t

-- The tests of `safeEnqueue`.
unfoldable pub safe_request : Request → Bool
safe_request x =
    is_hash x.action_key_hash
    && is_hash x.target_key_hash
    && is_hash x.decision_key_hash
    && is_hash x.policy_key_hash
    && is_hash x.evidence_digest
    && x.approved
    && x.is_resume_recording
    && safe_context x.context
    && optional_correlation x.correlation

pub data Enqueued : Type 0 where
  kill_switch : Enqueued
  enqueued : (is_duplicate : Bool) → Enqueued

abbrev same_digest : Option Text → Text → Bool
same_digest none t = false
same_digest (some s) t = text_eq s t

-- A decision that is there already must be approved, under the same policy and evidence.
abbrev pub agrees : Option DecisionRow → Request → Bool
agrees none x = true
agrees (some d) x =
    d.approved
    && text_eq d.policy_key_hash x.policy_key_hash
    && same_digest d.evidence_digest x.evidence_digest

abbrev decision_or_new : Option DecisionRow → Request → ℕ → DecisionRow
decision_or_new (some d) x now = d
decision_or_new none x now = record {
  approved = true;
  policy_key_hash = x.policy_key_hash;
  evidence_digest = some x.evidence_digest;
  decided_at = now;
}

abbrev pub new_action : Request → ℕ → ℕ → ActionRow
new_action x most now = record {
  decision_key = x.decision_key_hash;
  status = pending;
  attempt_count = 0;
  max_attempts = most;
  available_at = now;
  lease_token = none;
  lease_expires_at = none;
  claim_epoch = none;
  failure_code = none;
  completed_at = none;
}

abbrev with_decision : Request → ℕ → Tables → Tables
with_decision x now t = record t {
  decisions =
      put x.decision_key_hash (some (decision_or_new (t.decisions x.decision_key_hash) x now))
        t.decisions;
}

module _ (encrypt : Text → Text → Context → Text) (key_id : Text) where
  abbrev insert_action : Request → ℕ → ℕ → ℕ → Tables → Option ActionRow → Attempt Enqueued × Tables
  insert_action x most ttl now t (some r) = (returned (enqueued true), t)
  insert_action x most ttl now t none = (
    returned (enqueued false),
    record t {
      outbox = put x.action_key_hash (some (new_action x most now)) t.outbox;
      capabilities =
          put x.action_key_hash
            (some (record {
              key_id = key_id;
              ciphertext = encrypt key_id x.action_key_hash x.context;
              expires_at = now + ttl;
            }))
            t.capabilities;
    },
  )

  abbrev enqueue_with :
      Option Scope → ℕ → Request → Tables → Option ℕ → Option ℕ → Attempt Enqueued × Tables
  enqueue_with scope now x t (some most) (some ttl) =
      if not (active t scope now)
      then (returned kill_switch, t)
      else if agrees (t.decisions x.decision_key_hash) x
      then insert_action x most ttl now (with_decision x now t) (t.outbox x.action_key_hash)
      else (thrown, t)
  enqueue_with scope now x t _ _ = (thrown, t)

  -- `enqueueApprovedAction`: one transaction, which is rolled back where it throws.
  unfoldable pub enqueue_approved_action :
      Option Scope → ℕ → Request → Tables → Attempt Enqueued × Tables
  enqueue_approved_action scope now x t =
      if safe_request x
      then enqueue_with scope now x t (int_in x.max_attempts 3 1 20)
          (int_in x.capability_ttl_ms 180000 1000 3600000)
      else (thrown, t)

abbrev denied_or_old : Option DecisionRow → Text → ℕ → DecisionRow
denied_or_old (some d) policy now = d
denied_or_old none policy now = record {
  approved = false;
  policy_key_hash = policy;
  evidence_digest = none;
  decided_at = now;
}

-- `recordDecision`, of a decision that denies.
unfoldable pub record_decision :
    ℕ → Text → Text → Bool → Option Text → Tables → Attempt (Unit {0}) × Tables
record_decision now decision_key policy approved correlation t =
    if is_hash decision_key && is_hash policy && not approved && optional_correlation correlation
    then (
      returned tt,
      record t {
        decisions =
            put decision_key (some (denied_or_old (t.decisions decision_key) policy now))
              t.decisions;
      },
    )
    else (thrown, t)
