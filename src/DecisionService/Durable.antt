-- ===== src/DecisionService/Durable.antt =====
-- consent-decision-service.mjs over postgres-consent-decision-store.mjs: a decision that the service
-- reports is in the audit outbox.
use air_call_demo_recording.DecisionService.Keys.{snapshot_claim_result-IsLeaseFor}
use air_call_demo_recording.Base.{
  ℕ, ◌≡◌, sym, ap, ◌∙◌, ◌≢◌, inl, inr, true, false, Option, some, List, [], ◌∷◌, arith, Attempt,
  returned, thrown,
}
use mathlib.Core.Path.{subst}
use air_call_demo_recording.Base.Text.{Text, codes}
use air_call_demo_recording.Js.{
  Heap, HeapObject, Value, Key, name, Descriptor, value, ordinary, object_prototype, str, bool,
}
use air_call_demo_recording.Consent.{Reason}
use air_call_demo_recording.ConsentResolver.Leads.{
  Json, ResolverReason, Resolution, resolved, no_record,
}
use air_call_demo_recording.ConsentStore.{
  dependency_failure, invalid_event, Result, Lease, Connection, Store, ClaimResult, granted,
  refused, claim, finalize, release, in_tables, safe_decision, safe_correlation, finished, AuditRow,
}
use air_call_demo_recording.ConsentStore.Invariant.{IsConsistent, audits, completions}
use air_call_demo_recording.ConsentStore.Steps.{
  perform, claiming, finalizing, perform-Step, Step-IsConsistent,
}
use air_call_demo_recording.ConsentStore.Fencing.{finalize-returned}
use air_call_demo_recording.DecisionService.Envelope.{EventEnvelope, snapshot_event}
use air_call_demo_recording.DecisionService.Lifecycle.{
  process-cases, process-IsClaimed, decision_of,
}
use air_call_demo_recording.DecisionService.{
  Dependencies, StoreMethods, decided, disabled, classify_resolution, resolver_reason,
  correlation_prefix, process, classifier_reason,
}

-- What surrounds the processing of one event: the configured time to live of a claim, a fresh token,
-- the times of the two calls, and what the connection does in each.
pub record Surroundings : Type 0 where
  pub ttl : ℕ
  pub token : Text
  pub claimed_at : ℕ
  pub finalized_at : ℕ
  pub at_claim : Connection
  pub at_finalize : Connection
  pub at_release : Connection

abbrev own : Value → Descriptor
own v = record { enumerable = true; content = value v }

abbrev frozen : List (Key × Descriptor) → HeapObject
frozen props = record { kind = ordinary; proto = object_prototype; props = props }

-- The frozen objects that `claim` returns.
unfoldable pub claim_object : ClaimResult → HeapObject
claim_object (granted lease) = frozen (
    (name (codes "claimed"), own (bool lease.claimed))
    ∷ (name (codes "key"), own (str lease.key))
    ∷ (name (codes "leaseToken"), own (str lease.lease_token))
    ∷ [])
claim_object (refused key) =
    frozen ((name (codes "claimed"), own (bool false)) ∷ (name (codes "key"), own (str key)) ∷ [])

abbrev pub answer : Attempt ClaimResult × Store → Attempt (Option HeapObject) × Store
answer (returned r, s) = (returned (some (claim_object r)), s)
answer (thrown, s) = (thrown, s)

module _ (hash : Text → Text) (w : Surroundings) where
  abbrev pub postgres_methods : StoreMethods Store
  postgres_methods = record {
    claim = λ key s. answer (claim hash w.ttl w.claimed_at w.at_claim w.token key s);
    finalize = λ lease r c s. finalize hash w.finalized_at w.at_finalize lease r c s;
    release = λ lease s. release hash w.at_release lease s;
  }

resolver_reason-in_tables : (r : ResolverReason) → in_tables (resolver_reason r) ≡ true
unfolding resolver_reason
resolver_reason-in_tables r = ground arith

classifier_reason-in_tables : (r : Reason) → in_tables (classifier_reason r) ≡ true
classifier_reason-in_tables r = ground arith

-- The service finalizes only reasons that the tables admit.
pub classify_resolution-in_tables :
    (d : Dependencies) (r : Resolution) → in_tables (classify_resolution d r) ≡ true
unfolding classify_resolution
classify_resolution-in_tables d (no_record m r) = resolver_reason-in_tables r
classify_resolution-in_tables d (resolved m item) = classifier_reason-in_tables _

safe_decision-decided :
    (d : Dependencies) (r : Resolution)
    → safe_decision (disabled (classify_resolution d r)) ≡ disabled (classify_resolution d r)
unfolding safe_decision
safe_decision-decided d r = rw (classify_resolution-in_tables d r)

module _ (hash : Text → Text) (w : Surroundings) where
  answer-store :
      (x : Attempt ClaimResult × Store) {raw : Option HeapObject} {s : Store}
      → answer x ≡ (returned raw, s)
      → x.1 ≡ s
  answer-store (returned r, t) e = ap (λ p. p.1) e
  answer-store (thrown, t) e = ap (λ p. p.1) e

  claim-keeps :
      (key : Text) (s after : Store) {raw : Option HeapObject}
      → answer (claim hash w.ttl w.claimed_at w.at_claim w.token key s) ≡ (returned raw, after)
      → IsConsistent s.tables
      → IsConsistent after.tables
  unfolding perform
  claim-keeps key s after e h =
      subst (λ (u : Store). IsConsistent u.tables) (answer-store _ e)
        (Step-IsConsistent
          (perform-Step hash (claiming w.ttl w.claimed_at w.at_claim w.token key) s) h)

  finalize-keeps :
      (lease : Lease) (r : Result) (c : Text) (s s' : Store)
      → finalize hash w.finalized_at w.at_finalize lease r c s ≡ (returned tt, s')
      → IsConsistent s.tables
      → IsConsistent s'.tables
  unfolding perform
  finalize-keeps lease r c s s' e h =
      subst (λ (u : Store). IsConsistent u.tables) (ap (λ p. p.1) e)
        (Step-IsConsistent (perform-Step hash (finalizing w.finalized_at w.at_finalize lease r c) s)
          h)

  abbrev entry : EventEnvelope → Text → Result → List AuditRow → List AuditRow
  entry e key r rows =
      record {
        event_key_hash = hash key;
        result = r;
        correlation_prefix = safe_correlation (correlation_prefix hash e.event_key e.call_id);
      }
      ∷ rows

  -- On tables that are consistent, a decision of the service that is no failure is durable: the
  -- claim of the event's key is completed, the audit outbox has exactly one row under its key, and
  -- that row, the last one, holds the very decision that the service reports.
  pub process-audited :
      (parse : Text → Option Json) (d : Dependencies) (h : Heap) (event : Value) (s s' : Store)
      (r : Result)
      → IsConsistent s.tables
      → process hash parse (postgres_methods hash w) d h event s ≡ (decided r, s')
      → r.reason ≢ dependency_failure
      → r.reason ≢ invalid_event
      → (e : EventEnvelope) × (rows : List AuditRow) × (snapshot_event h event ≡ some e)
        × (s'.tables.claims (hash e.event_key) ≡ some (finished w.finalized_at))
        × (audits (hash e.event_key) s'.tables.audit ≡ 1)
        × (s'.tables.audit
            ≡ record {
              event_key_hash = hash e.event_key;
              result = r;
              correlation_prefix = safe_correlation (correlation_prefix hash e.event_key e.call_id);
            }
              ∷ rows)
  process-audited parse d h event s s' r consistent is real valid =
      let c =
        process-IsClaimed hash parse (postgres_methods hash w) d h event s s' r is real valid in
      elim (process-cases hash parse (postgres_methods hash w) d h event s s' c r is) [
        | inr failed ↦ absurd (real (ap (λ (x : Result). x.reason) failed.is_failure))
        | inl final ↦
            let (_, row, last) =
              finalize-returned hash w.finalized_at w.at_finalize c.lease _ _ c.after s'
                final.stored in
            let kept =
              finalize-keeps c.lease _ _ c.after s' final.stored
                (claim-keeps c.envelope.event_key s c.after c.answered consistent) in
            let same =
              (snapshot_claim_result-IsLeaseFor c.raw c.envelope.event_key c.lease
                c.is_claimed).same_key in
            let row' =
              subst (λ k. s'.tables.claims (hash k) ≡ some (finished w.finalized_at)) same row in
            (
              c.envelope,
              c.after.tables.audit,
              c.was_read,
              row',
              kept.audited (hash c.envelope.event_key) ∙ ap completions row',
              last
                  ∙ ap
                      (λ k.
                        entry c.envelope k
                          (safe_decision
                            (decision_of hash parse (postgres_methods hash w) d c.envelope))
                          c.after.tables.audit)
                      same
                  ∙ ap (λ x. entry c.envelope c.envelope.event_key x c.after.tables.audit)
                      (safe_decision-decided d _ ∙ sym final.is_decision),
            )
      ]
