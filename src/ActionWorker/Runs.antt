-- ===== src/ActionWorker/Runs.antt =====
-- recording-action-worker.mjs: what precedes a dispatch.
use air_call_demo_recording.Base.{
  ℕ, ◌≡◌, refl, inl, inr, true, Option, List, arith, Bool-cases, Attempt, returned, thrown,
}
use air_call_demo_recording.ActionWorker.{
  WorkerClaim, raw_claim, WorkerContext, context, Revalidation, Reason, dispatched, WorkerMethods,
  sound_claim, valid_context, is_authorized, terminal, defer, run_once, after_revalidate,
  after_prepare, after_audit, RawClaim, ContextAnswer, after_execute, after_claim, after_resolve,
  unknown_key, no_claim, no_context, malformed,
}

module _ {S D P : Type 0} (m : WorkerMethods S D P) (delays : List ℕ) where
  -- The calls of a run that dispatches, one after the other on one state.
  pub record IsDispatched (s : S) (d : D) (s' : S) : Type 0 where
    pub claim : WorkerClaim
    pub sound : sound_claim claim ≡ true
    pub s1 : S
    pub claimed : m.claim_next s ≡ (returned (raw_claim claim), s1)
    pub authorization : WorkerContext
    pub valid : valid_context authorization ≡ true
    pub s2 : S
    pub resolved : m.resolve claim s1 ≡ (returned (context authorization), s2)
    pub revalidation : Option Revalidation
    pub authorized : is_authorized revalidation authorization ≡ true
    pub s3 : S
    pub revalidated : m.revalidate authorization s2 ≡ (returned revalidation, s3)
    pub s4 : S
    pub audited : m.audit claim authorization.evidence_digest s3 ≡ (returned tt, s4)
    pub s5 : S
    pub dispatch : P
    pub prepared : m.prepare claim s4 ≡ (returned dispatch, s5)
    pub executed : m.execute dispatch authorization.call_id s5 ≡ (returned d, s')

  terminal-dispatched :
      (c : WorkerClaim) (r : Reason) (s : S) (d : D) (s' : S)
      → terminal m delays c r s ≡ (dispatched d, s')
      → ⊥
  unfolding terminal
  terminal-dispatched c r s d s' e = ground arith

  defer-dispatched :
      (c : WorkerClaim) (r : Reason) (s : S) (d : D) (s' : S)
      → defer m delays c r s ≡ (dispatched d, s')
      → ⊥
  unfolding defer terminal
  defer-dispatched c r s d s' e = ground arith

  module _ (d : D) (s' : S) where
    after_execute-dispatched :
        (p : Attempt D × S) → after_execute m delays p ≡ (dispatched d, s') → p ≡ (returned d, s')
    after_execute-dispatched (thrown, t) e = absurd (ground arith)
    after_execute-dispatched (returned x, t) e = ground arith

    after_prepare-dispatched :
        (c : WorkerClaim) (x : WorkerContext) (p : Attempt P × S)
        → after_prepare m delays c x p ≡ (dispatched d, s')
        → (a : P) × (t : S) × (p ≡ (returned a, t)) × (m.execute a x.call_id t ≡ (returned d, s'))
    after_prepare-dispatched c x (thrown, t) e = absurd (terminal-dispatched c _ t d s' e)
    after_prepare-dispatched c x (returned a, t) e =
        (a, t, refl, after_execute-dispatched (m.execute a x.call_id t) e)

    after_audit-dispatched :
        (c : WorkerClaim) (x : WorkerContext) (p : Attempt (Unit {0}) × S)
        → after_audit m delays c x p ≡ (dispatched d, s')
        → (t : S) × (p ≡ (returned tt, t))
          × (after_prepare m delays c x (m.prepare c t) ≡ (dispatched d, s'))
    after_audit-dispatched c x (thrown, t) e = absurd (defer-dispatched c _ t d s' e)
    after_audit-dispatched c x (returned u, t) e = (t, refl, e)

    after_revalidate-dispatched :
        (c : WorkerClaim) (x : WorkerContext) (p : Attempt (Option Revalidation) × S)
        → after_revalidate m delays c x p ≡ (dispatched d, s')
        → (r : Option Revalidation) × (t : S) × (p ≡ (returned r, t))
          × (is_authorized r x ≡ true)
          × (after_audit m delays c x (m.audit c x.evidence_digest t) ≡ (dispatched d, s'))
    after_revalidate-dispatched c x (thrown, t) e = absurd (defer-dispatched c _ t d s' e)
    after_revalidate-dispatched c x (returned r, t) e = elim (Bool-cases (is_authorized r x)) [
      | inl ok ↦ (r, t, refl, ok, rw ok at e)
      | inr denied ↦ absurd (terminal-dispatched c _ t d s' (rw denied at e))
    ]

    after_resolve-dispatched :
        (c : WorkerClaim) (p : Attempt ContextAnswer × S)
        → after_resolve m delays c p ≡ (dispatched d, s')
        → (x : WorkerContext) × (t : S) × (p ≡ (returned (context x), t))
          × (valid_context x ≡ true)
          × (after_revalidate m delays c x (m.revalidate x t) ≡ (dispatched d, s'))
    after_resolve-dispatched c (thrown, t) e = absurd (defer-dispatched c _ t d s' e)
    after_resolve-dispatched c (returned unknown_key, t) e =
        absurd (terminal-dispatched c _ t d s' e)
    after_resolve-dispatched c (returned no_context, t) e = absurd (defer-dispatched c _ t d s' e)
    after_resolve-dispatched c (returned (context x), t) e = elim (Bool-cases (valid_context x)) [
      | inl ok ↦ (x, t, refl, ok, rw ok at e)
      | inr bad ↦ absurd (defer-dispatched c _ t d s' (rw bad at e))
    ]

    after_claim-dispatched :
        (p : Attempt RawClaim × S)
        → after_claim m delays p ≡ (dispatched d, s')
        → (c : WorkerClaim) × (t : S) × (p ≡ (returned (raw_claim c), t))
          × (sound_claim c ≡ true)
          × (after_resolve m delays c (m.resolve c t) ≡ (dispatched d, s'))
    after_claim-dispatched (thrown, t) e = absurd (ground arith)
    after_claim-dispatched (returned no_claim, t) e = absurd (ground arith)
    after_claim-dispatched (returned malformed, t) e = absurd (ground arith)
    after_claim-dispatched (returned (raw_claim c), t) e = elim (Bool-cases (sound_claim c)) [
      | inl ok ↦ (c, t, refl, ok, rw ok at e)
      | inr bad ↦ absurd (ground arith)
    ]

-- Whatever the store, the revalidation and the audit do: a run that ends in a dispatch has made these
-- calls, each on the state that the one before left, and none threw: a claim that is sound, its context with valid identifiers, a revalidation that authorizes the context's item and
-- evidence, the audit, the preparation of the claim, and at once the execution, under the store's fence,
-- of what the preparation returned, for the call of the context.
pub run_once-IsDispatched :
    {S D P : Type 0} (m : WorkerMethods S D P) (delays : List ℕ) (s s' : S) (d : D)
    → run_once m delays s ≡ (dispatched d, s')
    → IsDispatched m delays s d s'
unfolding run_once
run_once-IsDispatched m delays s s' d e =
    let (c, s1, claimed, sound, e1) = after_claim-dispatched m delays d s' (m.claim_next s) e in
    let (x, s2, resolved, valid, e2) =
      after_resolve-dispatched m delays d s' c (m.resolve c s1) e1 in
    let (r, s3, revalidated, authorized, e3) =
      after_revalidate-dispatched m delays d s' c x (m.revalidate x s2) e2 in
    let (s4, audited, e4) =
      after_audit-dispatched m delays d s' c x (m.audit c x.evidence_digest s3) e3 in
    let (dispatch, s5, prepared, executed) =
      after_prepare-dispatched m delays d s' c x (m.prepare c s4) e4 in
    record {
      claim = c;
      sound = sound;
      s1 = s1;
      claimed = claimed;
      authorization = x;
      valid = valid;
      s2 = s2;
      resolved = resolved;
      revalidation = r;
      authorized = authorized;
      s3 = s3;
      revalidated = revalidated;
      s4 = s4;
      audited = audited;
      s5 = s5;
      dispatch = dispatch;
      prepared = prepared;
      executed = executed;
    }
