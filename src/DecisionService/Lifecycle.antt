-- ===== src/DecisionService/Lifecycle.antt =====
-- consent-decision-service.mjs: every claim that the service holds is finalized or released.
use air_call_demo_recording.Base.{
  ◌≡◌, refl, sym, ap, ◌∙◌, ◌≢◌, ◌⊎◌, inl, inr, true, false, Option, none, some, Bool-cases, Attempt,
  returned, thrown,
}
use air_call_demo_recording.Base.Text.{Text}
use air_call_demo_recording.Js.{Heap, HeapObject, Value}
use air_call_demo_recording.ConsentResolver.Leads.{Json}
use air_call_demo_recording.ConsentStore.{dependency_failure, invalid_event, Result, Lease}
use air_call_demo_recording.DecisionService.Envelope.{
  EventEnvelope, snapshot_event, ClaimAnswer, duplicate_claim, claimed, malformed,
  snapshot_claim_result,
}
use air_call_demo_recording.DecisionService.{
  Dependencies, StoreMethods, ServiceOutcome, decided, duplicate, disabled,
  is_resolver_dependency_failure, classify_resolution, correlation_prefix, resolve_event, give_up,
  finalized, finish, answered, after_claim, process_envelope, process,
}

decided_inv :
    {S : Type 0} {a b : Result} {x y : S}
    → ◌≡◌ {A = ServiceOutcome × S} (decided a, x) (decided b, y)
    → (a ≡ b) × (x ≡ y)
decided_inv e = (
  let same : ◌≡◌ {A = ServiceOutcome} (decided _) (decided _) = ap (λ p. p.0) e in cc,
  ap (λ p. p.1) e,
)

decided-ne-duplicate :
    {S : Type 0} {r : Result} {x y : S}
    → ◌≡◌ {A = ServiceOutcome × S} (duplicate, x) (decided r, y)
    → ⊥
decided-ne-duplicate e =
    let same : ◌≡◌ {A = ServiceOutcome} duplicate (decided _) = ap (λ p. p.0) e in cc

module _ (hash : Text → Text) (parse : Text → Option Json) {S : Type 0} (store : StoreMethods S)
    (d : Dependencies) where
  -- The decision that the service takes on an event that it could resolve.
  abbrev pub decision_of : EventEnvelope → Result
  decision_of e = disabled (classify_resolution d (resolve_event hash parse store d e))

  -- The store finalized the decision under the lease, and returned.
  pub record IsFinalized (e : EventEnvelope) (lease : Lease) (s : S) (r : Result) (s' : S)
      : Type 0 where
    pub resolvable : is_resolver_dependency_failure (resolve_event hash parse store d e) ≡ false
    pub is_decision : r ≡ decision_of e
    pub stored :
        store.finalize lease (decision_of e) (correlation_prefix hash e.event_key e.call_id) s
        ≡ (returned tt, s')

  -- The lease was released, on the state after the claim or after a finalization that threw.
  pub record IsReleased (e : EventEnvelope) (lease : Lease) (s : S) (r : Result) (s' : S)
      : Type 0 where
    pub is_failure : r ≡ disabled dependency_failure
    pub before : S
    pub released : s' ≡ (store.release lease before).1
    pub reason :
        ((is_resolver_dependency_failure (resolve_event hash parse store d e) ≡ true)
          × (before ≡ s))
        ⊎ (store.finalize lease (decision_of e) (correlation_prefix hash e.event_key e.call_id) s
            ≡ (thrown, before))

  finalized-cases :
      (e : EventEnvelope) (lease : Lease) (s : S) (r : Result) (s' : S) (f : Attempt (Unit {0}) × S)
      → is_resolver_dependency_failure (resolve_event hash parse store d e) ≡ false
      → store.finalize lease (decision_of e) (correlation_prefix hash e.event_key e.call_id) s ≡ f
      → finalized hash parse store d lease (decision_of e) f ≡ (decided r, s')
      → IsFinalized e lease s r s' ⊎ IsReleased e lease s r s'
  unfolding give_up
  finalized-cases e lease s r s' (returned done, t) ok is h =
      let (same, state) = decided_inv h in
      inl (record {
        resolvable = ok;
        is_decision = sym same;
        stored = is ∙ ap (λ (u : S). (returned tt, u)) state;
      })
  finalized-cases e lease s r s' (thrown, t) ok is h =
      let (same, state) = decided_inv h in
      inr (record { is_failure = sym same; before = t; released = sym state; reason = inr is })

  finish-cases :
      (e : EventEnvelope) (lease : Lease) (s : S) (r : Result) (s' : S)
      → finish hash parse store d e lease s ≡ (decided r, s')
      → IsFinalized e lease s r s' ⊎ IsReleased e lease s r s'
  unfolding finish give_up
  finish-cases e lease s r s' h =
      elim (Bool-cases (is_resolver_dependency_failure (resolve_event hash parse store d e))) [
        | inl failed ↦
            let (same, state) = decided_inv (rw failed at h) in
            inr (record {
              is_failure = sym same;
              before = s;
              released = sym state;
              reason = inl (failed, refl);
            })
        | inr ok ↦ finalized-cases e lease s r s' _ ok refl (rw ok at h)
      ]

  -- An event that reads as an envelope, whose key the store has claimed for the service.
  pub record IsClaimed (h : Heap) (event : Value) (s : S) : Type 0 where
    pub envelope : EventEnvelope
    pub was_read : snapshot_event h event ≡ some envelope
    pub raw : Option HeapObject
    pub after : S
    pub answered : store.claim envelope.event_key s ≡ (returned raw, after)
    pub lease : Lease
    pub is_claimed : snapshot_claim_result raw envelope.event_key ≡ claimed lease

  -- However the store behaves: once it has claimed the event's key for the service, the service ends
  -- in one of two ways. It reports its decision on the resolved event, and the store has finalized
  -- this decision under the lease; or it reports a dependency failure and has released the lease,
  -- because a lookup was missing or failed, or because the finalization threw.
  pub process-cases :
      (h : Heap) (event : Value) (s s' : S) (c : IsClaimed h event s) (r : Result)
      → process hash parse store d h event s ≡ (decided r, s')
      → IsFinalized c.envelope c.lease c.after r s' ⊎ IsReleased c.envelope c.lease c.after r s'
  unfolding process
  process-cases h event s s' c r e =
      finish-cases c.envelope c.lease c.after r s' (rw (c.was_read, c.answered, c.is_claimed) at e)

  module _ (h : Heap) (event : Value) (s s' : S) (r : Result) (real : r.reason ≢ dependency_failure)
      (valid : r.reason ≢ invalid_event) where
    answered-IsClaimed :
        (e : EventEnvelope) (raw : Option HeapObject) (t : S) (a : ClaimAnswer)
        → snapshot_event h event ≡ some e
        → store.claim e.event_key s ≡ (returned raw, t)
        → snapshot_claim_result raw e.event_key ≡ a
        → answered hash parse store d e t a ≡ (decided r, s')
        → IsClaimed h event s
    unfolding give_up
    answered-IsClaimed e raw t duplicate_claim read at is k = absurd (decided-ne-duplicate k)
    answered-IsClaimed e raw t (claimed lease) read at is k = record {
      envelope = e;
      was_read = read;
      raw = raw;
      after = t;
      answered = at;
      lease = lease;
      is_claimed = is;
    }
    answered-IsClaimed e raw t (malformed none) read at is k =
        absurd (real (sym (ap (λ (x : Result). x.reason) (decided_inv k).0)))
    answered-IsClaimed e raw t (malformed (some lease)) read at is k =
        absurd (real (sym (ap (λ (x : Result). x.reason) (decided_inv k).0)))

    after_claim-IsClaimed :
        (e : EventEnvelope) (a : Attempt (Option HeapObject) × S)
        → snapshot_event h event ≡ some e
        → store.claim e.event_key s ≡ a
        → after_claim hash parse store d e a ≡ (decided r, s')
        → IsClaimed h event s
    after_claim-IsClaimed e (thrown, t) read at k =
        absurd (real (sym (ap (λ (x : Result). x.reason) (decided_inv k).0)))
    after_claim-IsClaimed e (returned raw, t) read at k =
        answered-IsClaimed e raw t _ read at refl k

    process_envelope-IsClaimed :
        (o : Option EventEnvelope)
        → snapshot_event h event ≡ o
        → process_envelope hash parse store d o s ≡ (decided r, s')
        → IsClaimed h event s
    process_envelope-IsClaimed none read k =
        absurd (valid (sym (ap (λ (x : Result). x.reason) (decided_inv k).0)))
    process_envelope-IsClaimed (some e) read k = after_claim-IsClaimed e _ read refl k

  -- A decision that is no failure was taken on an event whose key the store claimed for the service.
  pub process-IsClaimed :
      (h : Heap) (event : Value) (s s' : S) (r : Result)
      → process hash parse store d h event s ≡ (decided r, s')
      → r.reason ≢ dependency_failure
      → r.reason ≢ invalid_event
      → IsClaimed h event s
  unfolding process
  process-IsClaimed h event s s' r e real valid =
      process_envelope-IsClaimed h event s s' r real valid _ refl e
