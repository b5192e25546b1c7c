-- ===== src/ActionWorker.antt =====
-- recording-action-worker.mjs: one run of the worker over a store, a revalidation and an audit, all of
-- which act on one state. What a call returns is given as the worker reads it, and a claim's key and a
-- context's fields as texts.
pub mod Runs
mod Examples
use air_call_demo_recording.Base.{
  ℕ, zero, suc, ◌+◌, ◌-◌, ◌*◌, ◌/◌, ◌%◌, ◌^◌, ◌≤◌, ◌<◌, ◌≡◌, refl, sym, ap, ◌∙◌, ◌≢◌, ◌↔◌, ◌⊎◌, inl,
  inr, Bool, true, false, not, ◌&&◌, ◌||◌, Option, none, some, List, [], ◌∷◌, ◌++◌, map, arith, ltb,
  leb, ◌==◌, if◌then◌else◌, ==_iff, Bool-cases, Option-cases, and-both, length, take, get_elem?,
  get_elem?-lt, all, any, All, Attempt, returned, thrown,
}
use air_call_demo_recording.Base.Text.{Text, text_eq}
use air_call_demo_recording.Base.Text.Patterns.{is_opaque, is_phone, is_hash}

-- What `snapshotClaim` keeps.
pub record WorkerClaim : Type 0 where
  pub action_key_hash : Text
  pub lease_token : Text
  pub attempt : ℕ
  pub control_epoch : ℕ

-- What `claimNext` returns: nothing, an object without such fields, or one with them.
pub data RawClaim : Type 0 where
  no_claim malformed : RawClaim
  raw_claim : WorkerClaim → RawClaim

pub record WorkerContext : Type 0 where
  pub call_id : Text
  pub phone_digits : Text
  pub item_id : Option Text
  pub evidence_digest : Text

-- What `resolveAuthorizationContext` returns.
pub data ContextAnswer : Type 0 where
  unknown_key no_context : ContextAnswer
  context : WorkerContext → ContextAnswer

-- What `revalidate` returns, where `authorized` is whether the field is true.
pub record Revalidation : Type 0 where
  pub authorized : Bool
  pub item_id : Option Text
  pub evidence_digest : Option Text

pub data Reason : Type 0 where
  capability_failure unknown_key_reason revalidation_failure : Reason
  authorization_denied authorization_expired audit_failure : Reason

-- Whether the row that a method saved has the status that it asked for.
pub data WorkerOutcome (D : Type 0) : Type 0 where
  store_failure idle malformed_claim dispatch_fence_failure : WorkerOutcome D
  canceled : (saved : Bool) → Reason → WorkerOutcome D
  deferred : (saved : Bool) → Reason → (delay : ℕ) → WorkerOutcome D
  dispatched : D → WorkerOutcome D

-- The methods of the store over what `prepareDispatch` returns, which the worker hands on to
-- `executeWithDispatchFence`; the provider's call, of the given id, is inside `execute`.
pub record WorkerMethods (S : Type 0) (D : Type 0) (P : Type 0) : Type 0 where
  pub claim_next : S → Attempt RawClaim × S
  pub resolve : WorkerClaim → S → Attempt ContextAnswer × S
  pub prepare : WorkerClaim → S → Attempt P × S
  pub execute : P → Text → S → Attempt D × S
  pub retry : WorkerClaim → ℕ → S → Attempt Bool × S
  pub cancel : WorkerClaim → Reason → S → Attempt Bool × S
  pub revalidate : WorkerContext → S → Attempt (Option Revalidation) × S
  pub audit : WorkerClaim → Text → S → Attempt (Unit {0}) × S

unfoldable pub sound_claim : WorkerClaim → Bool
sound_claim c = is_hash c.action_key_hash && leb 1 c.attempt

unfoldable pub valid_context : WorkerContext → Bool
valid_context x = is_opaque x.call_id && is_phone x.phone_digits && is_hash x.evidence_digest

abbrev pub same_text : Option Text → Option Text → Bool
same_text none none = true
same_text (some s) (some t) = text_eq s t
same_text _ _ = false

unfoldable pub is_authorized : Option Revalidation → WorkerContext → Bool
is_authorized none x = false
is_authorized (some r) x =
    r.authorized
    && same_text r.item_id x.item_id
    && same_text r.evidence_digest (some x.evidence_digest)

module _ {S D P : Type 0} (m : WorkerMethods S D P) (delays : List ℕ) where
  abbrev after_cancel : Reason → Attempt Bool × S → WorkerOutcome D × S
  after_cancel r (thrown, s) = (store_failure, s)
  after_cancel r (returned saved, s) = (canceled saved r, s)

  unfoldable pub terminal : WorkerClaim → Reason → S → WorkerOutcome D × S
  terminal c r s = after_cancel r (m.cancel c r s)

  abbrev after_retry : Reason → ℕ → Attempt Bool × S → WorkerOutcome D × S
  after_retry r delay (thrown, s) = (store_failure, s)
  after_retry r delay (returned saved, s) = (deferred saved r delay, s)

  abbrev defer_by : WorkerClaim → Reason → Option ℕ → S → WorkerOutcome D × S
  defer_by c r none s = terminal c authorization_expired s
  defer_by c r (some delay) s = after_retry r delay (m.retry c delay s)

  unfoldable pub defer : WorkerClaim → Reason → S → WorkerOutcome D × S
  defer c r s = defer_by c r (get_elem? delays (c.attempt - 1)) s

  abbrev pub after_execute : Attempt D × S → WorkerOutcome D × S
  after_execute (thrown, s) = (dispatch_fence_failure, s)
  after_execute (returned d, s) = (dispatched d, s)

  abbrev pub after_prepare : WorkerClaim → WorkerContext → Attempt P × S → WorkerOutcome D × S
  after_prepare c x (thrown, s) = terminal c authorization_denied s
  after_prepare c x (returned p, s) = after_execute (m.execute p x.call_id s)

  abbrev pub after_audit :
      WorkerClaim → WorkerContext → Attempt (Unit {0}) × S → WorkerOutcome D × S
  after_audit c x (thrown, s) = defer c audit_failure s
  after_audit c x (returned _, s) = after_prepare c x (m.prepare c s)

  abbrev pub after_revalidate :
      WorkerClaim → WorkerContext → Attempt (Option Revalidation) × S → WorkerOutcome D × S
  after_revalidate c x (thrown, s) = defer c revalidation_failure s
  after_revalidate c x (returned r, s) =
      if is_authorized r x
      then after_audit c x (m.audit c x.evidence_digest s)
      else terminal c authorization_denied s

  abbrev pub after_resolve : WorkerClaim → Attempt ContextAnswer × S → WorkerOutcome D × S
  after_resolve c (thrown, s) = defer c capability_failure s
  after_resolve c (returned unknown_key, s) = terminal c unknown_key_reason s
  after_resolve c (returned no_context, s) = defer c capability_failure s
  after_resolve c (returned (context x), s) =
      if valid_context x
      then after_revalidate c x (m.revalidate x s)
      else defer c capability_failure s

  abbrev pub after_claim : Attempt RawClaim × S → WorkerOutcome D × S
  after_claim (thrown, s) = (store_failure, s)
  after_claim (returned no_claim, s) = (idle, s)
  after_claim (returned malformed, s) = (malformed_claim, s)
  after_claim (returned (raw_claim c), s) =
      if sound_claim c then after_resolve c (m.resolve c s) else (malformed_claim, s)

  unfoldable pub run_once : S → WorkerOutcome D × S
  run_once s = after_claim (m.claim_next s)
