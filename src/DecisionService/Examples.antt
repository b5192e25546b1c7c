-- ===== src/DecisionService/Examples.antt =====
-- consent-decision-service.mjs: an event that is decided on the PostgreSQL store.
use mathlib.Core.Logic.{◌⊎◌}
use air_call_demo_recording.ConsentStore.Invariant.{audits}
use air_call_demo_recording.Base.{
  ◌≡◌, refl, ◌≢◌, true, false, Option, none, some, List, [], ◌∷◌, ◌++◌, if◌then◌else◌, Attempt,
  returned,
}
use air_call_demo_recording.Base.Text.{
  Text, codes, text_eq, trim, trim_start, trim_end, is_space, upper_unit, to_upper, has,
}
use air_call_demo_recording.Base.Text.Patterns.{
  is_opaque, is_opaque_unit, is_alnum, is_digit, is_phone,
}
use air_call_demo_recording.Js.{
  Value, bool, str, ref, Key, name, value, Descriptor, object_prototype, set_prototype, ordinary,
  set_of, HeapObject, Heap, deref, key_eq, find_property, own_descriptor, has_symbol_key,
  plain_record, same_value,
}
use air_call_demo_recording.Consent.{
  decide_recording_for_state, snapshot_object, snapshot_input, state_flag,
}
use air_call_demo_recording.Consent.States.{us_state_abbreviations, normalize_text, normalize_state}
use air_call_demo_recording.Consent.Rulesets.{
  read_present, read_optional, snapshot_states, snapshot_state_map, set_has, is_approved_version,
  ruleset_root, validate_ruleset,
}
use air_call_demo_recording.ConsentResolver.{
  Payload, text_payload, native_identifier, parse_phone_payload, by_phone, by_native,
  resolve_canonical_consent,
}
use air_call_demo_recording.ConsentResolver.Leads.{
  Json, flag, text, arr, obj, nil, cons, field, end, get, opaque_text, opaque_identifier,
  normalized_phone, validated_state, has_matching_phone, snapshot_item, validate_item,
}
use air_call_demo_recording.ConsentStore.{
  Result, left_disabled, audit_only_eligible_one_party_state, dependency_failure, invalid_event,
  works, Store, claim, finalize, update, safe_claim, Lease, granted, AuditRow, finished,
  safe_correlation,
}
use air_call_demo_recording.ConsentStore.Steps.{empty_tables, empty_tables-IsConsistent}
use air_call_demo_recording.DecisionService.{
  Dependencies, decided, is_dependency_reason, is_resolver_dependency_failure, classify_resolution,
  resolve_event, finish, process, claimed, undefined, correlation_prefix,
}
use air_call_demo_recording.DecisionService.Envelope.{
  own_value, snapshot_event, snapshot_lease, snapshot_claim_result, EventEnvelope,
}
use air_call_demo_recording.DecisionService.Lifecycle.{
  IsClaimed, process-IsClaimed, IsFinalized, IsReleased, process-cases,
}
use air_call_demo_recording.DecisionService.Durable.{
  Surroundings, claim_object, postgres_methods, process-audited,
}

abbrev digest : Text → Text
digest t = codes "h" ++ t

abbrev own : Value → Descriptor
own v = record { enumerable = true; content = value v }

abbrev plain_object : List (Key × Descriptor) → HeapObject
plain_object props = record { kind = ordinary; proto = object_prototype; props = props }

abbrev one_lead : Json
one_lead = arr (
    cons
      (obj (
        field (codes "id") (text (codes "lead1")) (
          field (codes "boardId") (text (codes "board")) (
            field (codes "phoneDigits") (text (codes "4045550100")) (
              field (codes "state")
                (obj (
                  field (codes "value") (text (codes "GA")) (
                    field (codes "source") (text (codes "column"))
                      (field (codes "verified") (flag true) end))))
                end)))))
      nil)

-- A stand-in for `JSON.parse` that knows one text.
abbrev parse_one : Text → Option Json
parse_one t = if text_eq t (codes "list") then some one_lead else none

abbrev by_number : Text → Attempt Payload
by_number phone = returned (text_payload (codes "list"))

abbrev dependencies : Dependencies
dependencies = record {
  heap =
      plain_object (
        (name (codes "version"), own (str (codes "v1")))
        ∷ (name (codes "states"), own (ref 1))
        ∷ [])
      ∷ plain_object ((name (codes "GA"), own (bool true)) ∷ [])
      ∷ record { kind = set_of (str (codes "v1") ∷ []); proto = set_prototype; props = [] }
      ∷ [];
  canonical_board_id = str (codes "board");
  state_source = str (codes "column");
  rules = ref 0;
  approved_ruleset_versions = ref 2;
  get_consent_lead_by_id = none;
  find_consent_leads_by_phone = some by_number;
}

abbrev surroundings : Surroundings
surroundings = record {
  ttl = 60000;
  token = codes "t1";
  claimed_at = 5;
  finalized_at = 9;
  at_claim = works;
  at_finalize = works;
  at_release = works;
}

abbrev event_heap : Heap
event_heap =
    plain_object (
      (name (codes "eventKey"), own (str (codes "k1")))
      ∷ (name (codes "callId"), own (str (codes "call1")))
      ∷ (name (codes "phoneDigits"), own (str (codes "4045550100")))
      ∷ [])
    ∷ []

abbrev open_store : Store
open_store = record { migrated = true; closed = false; tables = empty_tables }

abbrev eligible : Result
eligible = record { outcome = left_disabled; reason = audit_only_eligible_one_party_state }

abbrev decided_store : Store
decided_store =
    (process digest parse_one (postgres_methods digest surroundings) dependencies event_heap (ref 0)
      open_store).1

decided_run :
    process digest parse_one
      (postgres_methods digest surroundings)
      dependencies
      event_heap
      (ref 0)
      open_store
    ≡ (decided eligible, decided_store)
unfolding process snapshot_event own_value snapshot_claim_result snapshot_lease claim_object finish
    resolve_event is_resolver_dependency_failure is_dependency_reason classify_resolution
    decide_recording_for_state snapshot_input snapshot_object read_present read_optional
    plain_record deref own_descriptor find_property key_eq text_eq normalize_state normalize_text
    us_state_abbreviations trim trim_start trim_end is_space upper_unit to_upper has
    validate_ruleset ruleset_root is_approved_version set_has same_value snapshot_state_map
    snapshot_states has_symbol_key state_flag resolve_canonical_consent by_native by_phone
    native_identifier parse_phone_payload opaque_identifier normalized_phone validate_item
    snapshot_item get opaque_text validated_state has_matching_phone is_opaque is_opaque_unit
    is_alnum is_digit is_phone claim finalize update safe_claim
decided_run = refl

not_failure : eligible.reason ≢ dependency_failure
not_failure e = cc

not_invalid : eligible.reason ≢ invalid_event
not_invalid e = cc

process-IsClaimed_example :
    IsClaimed digest parse_one
      (postgres_methods digest surroundings)
      dependencies
      event_heap
      (ref 0)
      open_store
process-IsClaimed_example =
    process-IsClaimed digest parse_one (postgres_methods digest surroundings) dependencies
      event_heap (ref 0) open_store decided_store eligible decided_run not_failure not_invalid

abbrev envelope : EventEnvelope
envelope = record {
  event_key = codes "k1";
  call_id = codes "call1";
  native_item_id = undefined;
  phone_digits = str (codes "4045550100");
}

abbrev first_lease : Lease
first_lease = record { claimed = true; key = codes "k1"; lease_token = codes "t1" }

abbrev claimed_store : Store
claimed_store = (claim digest 60000 5 works (codes "t1") (codes "k1") open_store).1

abbrev claimed_event :
    IsClaimed digest parse_one
      (postgres_methods digest surroundings)
      dependencies
      event_heap
      (ref 0)
      open_store
unfolding snapshot_event own_value snapshot_claim_result snapshot_lease claim_object plain_record
    deref own_descriptor find_property key_eq text_eq has is_opaque is_opaque_unit is_alnum is_digit
    is_phone claim has_symbol_key
claimed_event = record {
  envelope = envelope;
  was_read = refl;
  raw = some (claim_object (granted first_lease));
  after = claimed_store;
  answered = refl;
  lease = first_lease;
  is_claimed = refl;
}

process-cases_example :
    IsFinalized digest parse_one
      (postgres_methods digest surroundings)
      dependencies
      claimed_event.envelope
      claimed_event.lease
      claimed_event.after
      eligible
      decided_store
    ⊎ IsReleased digest parse_one
        (postgres_methods digest surroundings)
        dependencies
        claimed_event.envelope
        claimed_event.lease
        claimed_event.after
        eligible
        decided_store
process-cases_example =
    process-cases digest parse_one (postgres_methods digest surroundings) dependencies event_heap
      (ref 0) open_store decided_store claimed_event eligible decided_run

process-audited_example :
    (e : EventEnvelope) × (rows : List AuditRow) × (snapshot_event event_heap (ref 0) ≡ some e)
    × (decided_store.tables.claims (digest e.event_key) ≡ some (finished 9))
    × (audits (digest e.event_key) decided_store.tables.audit ≡ 1)
    × (decided_store.tables.audit
        ≡ record {
          event_key_hash = digest e.event_key;
          result = eligible;
          correlation_prefix = safe_correlation (correlation_prefix digest e.event_key e.call_id);
        }
          ∷ rows)
process-audited_example =
    process-audited digest surroundings parse_one dependencies event_heap (ref 0) open_store
      decided_store eligible empty_tables-IsConsistent decided_run not_failure not_invalid

lease_run :
    snapshot_claim_result (some (claim_object (granted first_lease))) (codes "k1")
    ≡ claimed first_lease
unfolding own_value snapshot_claim_result snapshot_lease claim_object own_descriptor find_property
    key_eq text_eq is_opaque is_opaque_unit is_alnum is_digit
lease_run = refl
