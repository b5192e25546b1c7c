-- ===== src/DecisionService.antt =====
-- consent-decision-service.mjs: the audit-only lifecycle of one event. It claims the event's key,
-- resolves and classifies the caller's consent, and finalizes the decision; a claim that it cannot
-- finalize it releases. The injected store is any implementation of its three methods over a state
-- of its own; `hash` is the SHA-256 digest of node:crypto in hex.
pub mod Envelope
pub mod Lifecycle
pub mod Keys
pub mod Durable
mod Examples
use air_call_demo_recording.Base.{
  ℕ, zero, suc, ◌+◌, ◌-◌, ◌*◌, ◌/◌, ◌%◌, ◌^◌, ◌≤◌, ◌<◌, ◌≡◌, refl, sym, ap, ◌∙◌, ◌≢◌, ◌↔◌, ◌⊎◌, inl,
  inr, Bool, true, false, not, ◌&&◌, ◌||◌, Option, none, some, List, [], ◌∷◌, ◌++◌, map, arith, ltb,
  leb, ◌==◌, if◌then◌else◌, ==_iff, Bool-cases, Option-cases, and-both, length, take, get_elem?,
  get_elem?-lt, all, any, All, Attempt, returned, thrown,
}
use air_call_demo_recording.Base.Text.{Text, codes}
use air_call_demo_recording.Js.{
  Heap, HeapObject, Value, Key, name, Descriptor, value, accessor, Content, ordinary,
  object_prototype, str, ref, undefined,
}
use air_call_demo_recording.Consent
use air_call_demo_recording.Consent.{decide_recording_for_state}
use air_call_demo_recording.ConsentResolver.Leads.{
  Json, ResolverReason, phone_not_found, missing_phone, phone_not_unique, native_lookup_failed,
  phone_lookup_failed, native_lookup_unavailable, phone_lookup_unavailable, Resolution, resolved,
  no_record,
}
use air_call_demo_recording.ConsentResolver.{Payload, Config, config, resolve_canonical_consent}
use air_call_demo_recording.ConsentStore.{
  DecisionReason, audit_only_eligible_one_party_state, not_one_party_state, invalid_state,
  invalid_ruleset, resolver_not_found, resolver_not_unique, resolver_denied, dependency_failure,
  invalid_event, Result, left_disabled, Lease,
}
use Envelope.{
  EventEnvelope, snapshot_event, ClaimAnswer, duplicate_claim, claimed, malformed,
  snapshot_claim_result,
}

-- What the service snapshots of its configuration; the ruleset and its approved versions stay
-- objects of the caller's heap.
pub record Dependencies : Type 0 where
  pub heap : Heap
  pub canonical_board_id : Value
  pub state_source : Value
  pub rules : Value
  pub approved_ruleset_versions : Value
  pub get_consent_lead_by_id : Option (Text → Attempt Payload)
  pub find_consent_leads_by_phone : Option (Text → Attempt Payload)

-- The methods of the store. What `claim` answers is an object or, as `none`, any other value.
pub record StoreMethods (S : Type 0) : Type 0 where
  pub claim : Text → S → Attempt (Option HeapObject) × S
  pub finalize : Lease → Result → Text → S → Attempt (Unit {0}) × S
  pub release : Lease → S → Attempt (Unit {0}) × S

pub data ServiceOutcome : Type 0 where
  decided : Result → ServiceOutcome
  duplicate : ServiceOutcome

abbrev pub disabled : DecisionReason → Result
disabled r = record { outcome = left_disabled; reason = r }

-- RESOLVER_REASON_MAP, with its default.
unfoldable pub resolver_reason : ResolverReason → DecisionReason
resolver_reason phone_not_found = resolver_not_found
resolver_reason missing_phone = resolver_not_found
resolver_reason phone_not_unique = resolver_not_unique
resolver_reason _ = resolver_denied

-- RESOLVER_DEPENDENCY_REASONS
unfoldable pub is_dependency_reason : ResolverReason → Bool
is_dependency_reason native_lookup_failed = true
is_dependency_reason phone_lookup_failed = true
is_dependency_reason native_lookup_unavailable = true
is_dependency_reason phone_lookup_unavailable = true
is_dependency_reason _ = false

unfoldable pub is_resolver_dependency_failure : Resolution → Bool
unfolding is_dependency_reason
is_resolver_dependency_failure (resolved m item) = false
is_resolver_dependency_failure (no_record m r) = is_dependency_reason r

abbrev own : Value → Descriptor
own v = record { enumerable = true; content = value v }

-- The object that the service hands to the classifier.
abbrev classifier_input : Text → Dependencies → HeapObject
classifier_input state d = record {
  kind = ordinary;
  proto = object_prototype;
  props =
      (name (codes "state"), own (str state))
      ∷ (name (codes "ruleset"), own d.rules)
      ∷ (name (codes "approvedRulesetVersions"), own d.approved_ruleset_versions)
      ∷ [];
}

abbrev pub classifier_reason : Consent.Reason → DecisionReason
classifier_reason Consent.audit_only_eligible_one_party_state = audit_only_eligible_one_party_state
classifier_reason Consent.not_one_party_state = not_one_party_state
classifier_reason Consent.invalid_state = invalid_state
classifier_reason Consent.invalid_ruleset = invalid_ruleset

-- `classifyResolution` and `safeClassifierReason`; the classifier's action is always to leave
-- recording disabled.
unfoldable pub classify_resolution : Dependencies → Resolution → DecisionReason
unfolding resolver_reason
classify_resolution d (no_record m r) = resolver_reason r
classify_resolution d (resolved m item) =
    classifier_reason
      (decide_recording_for_state (d.heap ++ classifier_input item.state d ∷ [])
        (ref (length d.heap))).reason

-- `correlationPrefix`
unfoldable pub correlation_prefix : (Text → Text) → Text → Text → Text
correlation_prefix hash event_key call_id =
    take 24 (hash (codes "consent-decision-v1" ++ (0 ∷ (event_key ++ 0 ∷ call_id))))

module _ (hash : Text → Text) (parse : Text → Option Json) {S : Type 0} (store : StoreMethods S)
    (d : Dependencies) where
  unfoldable pub resolve_event : EventEnvelope → Resolution
  resolve_event e = resolve_canonical_consent parse (
      config (record {
        canonical_board_id = d.canonical_board_id;
        state_source = d.state_source;
        native_item_id = e.native_item_id;
        phone_digits = e.phone_digits;
        get_consent_lead_by_id = d.get_consent_lead_by_id;
        find_consent_leads_by_phone = d.find_consent_leads_by_phone;
      }))

  -- `releaseQuietly`, and the failure that is reported after it.
  unfoldable pub give_up : Option Lease → S → ServiceOutcome × S
  give_up none s = (decided (disabled dependency_failure), s)
  give_up (some lease) s = (decided (disabled dependency_failure), (store.release lease s).1)

  abbrev pub finalized : Lease → Result → Attempt (Unit {0}) × S → ServiceOutcome × S
  finalized lease r (returned _, s) = (decided r, s)
  finalized lease r (thrown, s) = give_up (some lease) s

  unfoldable pub finish : EventEnvelope → Lease → S → ServiceOutcome × S
  finish e lease s =
      let resolution = resolve_event e in
      let result = disabled (classify_resolution d resolution) in
      if is_resolver_dependency_failure resolution
      then give_up (some lease) s
      else finalized lease result
          (store.finalize lease result (correlation_prefix hash e.event_key e.call_id) s)

  abbrev pub answered : EventEnvelope → S → ClaimAnswer → ServiceOutcome × S
  answered e s duplicate_claim = (duplicate, s)
  answered e s (claimed lease) = finish e lease s
  answered e s (malformed lease) = give_up lease s

  abbrev pub after_claim : EventEnvelope → Attempt (Option HeapObject) × S → ServiceOutcome × S
  after_claim e (thrown, s) = (decided (disabled dependency_failure), s)
  after_claim e (returned raw, s) = answered e s (snapshot_claim_result raw e.event_key)

  abbrev pub process_envelope : Option EventEnvelope → S → ServiceOutcome × S
  process_envelope none s = (decided (disabled invalid_event), s)
  process_envelope (some e) s = after_claim e (store.claim e.event_key s)

  unfoldable pub process : Heap → Value → S → ServiceOutcome × S
  process h event s = process_envelope (snapshot_event h event) s
