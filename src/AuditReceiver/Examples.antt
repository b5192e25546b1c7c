-- ===== src/AuditReceiver/Examples.antt =====
-- audit-only-receiver.mjs: a configuration, its requests, a body and a readiness probe.
use air_call_demo_recording.Base.{
  ℕ, ◌+◌, ◌≤◌, ◌≡◌, refl, ◌⊎◌, true, false, Option, none, some, List, [], ◌∷◌, if◌then◌else◌,
  length, thrown,
}
use mathlib.Core.Logic.{◌⊎◌}
use air_call_demo_recording.Base.Text.{Text, codes, text_eq, has, is_space, trim_start}
use air_call_demo_recording.Base.Text.Patterns.{is_hash, is_hex_unit, is_digit}
use air_call_demo_recording.Js.{
  Value, str, ref, num, natural, function, Key, name, index, value, Descriptor, object_prototype,
  array_prototype, set_prototype, ordinary, array, set_of, HeapObject, Heap, deref, key_eq,
  find_property, own_descriptor, has_symbol_key, undefined,
}
use air_call_demo_recording.ConsentResolver.Leads.{Json, text, obj, field, end}
use air_call_demo_recording.DecisionService.{StoreMethods, Dependencies}
use air_call_demo_recording.AuditReceiver.{
  ended, after_prefix, json_content_type, content_length_too_large, decimal,
}
use air_call_demo_recording.AuditReceiver.Config.{
  Settings, snapshot_config, snapshot_fields, plain_record, plain_array, read_value, own_data,
  elements_from, check_store,
}
use air_call_demo_recording.AuditReceiver.Accepted.{IsBounded, snapshot_config-IsBounded}
use air_call_demo_recording.AuditReceiver.Requests.{
  Request, limits_of, answer_body, Receiver, Step, arriving, receive, receive_all, admit,
  check_request,
}
use air_call_demo_recording.AuditReceiver.Bounds.{receive_all-bounded}
use air_call_demo_recording.AuditReceiver.Readiness.{
  Readiness, idle, asking, deadline, settling, ProbeStep, probe_all, probe_all-unsettled,
}
use air_call_demo_recording.AuditReceiver.Events.{IsProcessed, IsClientError, answer_body-cases}

abbrev own : Value → Descriptor
own v = record { enumerable = true; content = value v }

abbrev plain_object : List (Key × Descriptor) → HeapObject
plain_object props = record { kind = ordinary; proto = object_prototype; props = props }

-- A configuration with one phone column, and at most two requests in flight.
abbrev a_heap : Heap
a_heap =
    plain_object (
      (name (codes "expectedWebhookToken"), own (str (codes "secret")))
      ∷ (name (codes "canonicalBoardId"), own (str (codes "board")))
      ∷ (name (codes "stateColumnId"), own (str (codes "state")))
      ∷ (name (codes "phoneColumnIds"), own (ref 1))
      ∷ (name (codes "stateSource"), own (str (codes "column")))
      ∷ (name (codes "mondayQuery"), own (function 0))
      ∷ (name (codes "store"), own (ref 2))
      ∷ (name (codes "ruleset"), own (ref 3))
      ∷ (name (codes "approvedRulesetVersions"), own (ref 4))
      ∷ (name (codes "maxInFlight"), own (num (natural 2)))
      ∷ [])
    ∷ record {
      kind = array 1;
      proto = array_prototype;
      props = (index 0, own (str (codes "phone"))) ∷ [];
    }
    ∷ plain_object (
        (name (codes "claim"), own (function 1))
        ∷ (name (codes "finalize"), own (function 2))
        ∷ (name (codes "release"), own (function 3))
        ∷ [])
    ∷ plain_object []
    ∷ record { kind = set_of []; proto = set_prototype; props = [] }
    ∷ []

abbrev some_settings : Settings
some_settings = record {
  expected_webhook_token = codes "secret";
  canonical_board_id = codes "board";
  state_column_id = codes "state";
  state_source = codes "column";
  phone_column_ids = str (codes "phone") ∷ [];
  allowed_phone_column_types = none;
  host = codes "127.0.0.1";
  port = 0;
  max_body_bytes = 131072;
  shutdown_timeout_ms = 30000;
  max_in_flight = 2;
  readiness_timeout_ms = 250;
  ready = undefined;
  initialize = undefined;
}

settings_read : snapshot_config a_heap (ref 0) ≡ some some_settings
unfolding snapshot_config snapshot_fields plain_record plain_array read_value own_data elements_from
    check_store deref own_descriptor find_property key_eq text_eq has has_symbol_key
settings_read = refl

snapshot_config-IsBounded_example : IsBounded some_settings
snapshot_config-IsBounded_example =
    snapshot_config-IsBounded a_heap (ref 0) some_settings settings_read

abbrev an_event_request : Request
an_event_request = record {
  method = codes "POST";
  url = codes "/aircall/recording/audit-events";
  content_type = some (codes "Application/JSON ; charset=utf-8");
  content_length = some (codes "300");
}

abbrev at_rest : Receiver
at_rest = record { closing = false; in_flight = 0; handling = [] }

abbrev three_requests : List Step
three_requests =
    arriving an_event_request ∷ arriving an_event_request ∷ arriving an_event_request ∷ []

-- The third request finds no room.
three_requests_run : (receive_all (limits_of some_settings) three_requests at_rest).in_flight ≡ 2
unfolding receive_all receive admit check_request text_eq json_content_type after_prefix trim_start
    is_space content_length_too_large is_digit decimal
three_requests_run = refl

receive_all-bounded_example :
    ((receive_all (limits_of some_settings) three_requests at_rest).in_flight
      ≡ length (receive_all (limits_of some_settings) three_requests at_rest).handling)
    × ((receive_all (limits_of some_settings) three_requests at_rest).in_flight ≤ 2)
    × (2 ≤ 32)
receive_all-bounded_example =
    receive_all-bounded a_heap (ref 0) some_settings three_requests at_rest settings_read refl refl

abbrev no_probe : Readiness
no_probe = record { probe = idle; unsettled = 0; waiting = 0; replies = [] }

abbrev some_probes : List ProbeStep
some_probes = asking ∷ asking ∷ deadline ∷ asking ∷ settling true ∷ asking ∷ []

probe_all-unsettled_example : (probe_all true some_probes no_probe).unsettled ≤ 1
probe_all-unsettled_example = probe_all-unsettled true some_probes no_probe refl refl refl

abbrev hex_digits : Text
hex_digits = codes "0123456789abcdef0123456789abcdef0123456789abcdef0123456789abcdef"

abbrev constant_hmac : Text → Text → Text
constant_hmac key t = hex_digits

constant_hmac-hash : (key t : Text) → is_hash (constant_hmac key t) ≡ true
unfolding is_hash is_hex_unit is_digit
constant_hmac-hash key t = refl

abbrev body : Json
body = obj (
    field (codes "token") (text (codes "secret")) (
      field (codes "event") (text (codes "call.answered")) (
        field (codes "data")
          (obj (
            field (codes "id") (text (codes "call1"))
              (field (codes "raw_digits") (text (codes "4045550100")) end)))
          end)))

abbrev parse_body : Text → Option Json
parse_body t = if text_eq t (codes "body") then some body else none

abbrev a_digest : Text → Text
a_digest t = t

abbrev as_ascii : List ℕ → Option Text
as_ascii bytes = some bytes

-- A store that counts its calls and throws.
abbrev counting_store : StoreMethods ℕ
counting_store = record {
  claim = λ k n. (thrown, n + 1);
  finalize = λ lease r c n. (thrown, n + 1);
  release = λ lease n. (thrown, n + 1);
}

abbrev no_lookups : Dependencies
no_lookups = record {
  heap = [];
  canonical_board_id = str (codes "board");
  state_source = str (codes "column");
  rules = undefined;
  approved_ruleset_versions = undefined;
  get_consent_lead_by_id = none;
  find_consent_leads_by_phone = none;
}

abbrev two_chunks : List (List ℕ)
two_chunks = codes "bo" ∷ codes "dy" ∷ []

answer_body-cases_example :
    let r =
      answer_body a_digest parse_body a_digest constant_hmac as_ascii counting_store no_lookups
        (limits_of some_settings)
        two_chunks
        ended
        0 in
    IsProcessed a_digest parse_body a_digest constant_hmac as_ascii counting_store no_lookups
      (limits_of some_settings)
      two_chunks
      ended
      0
      r
    ⊎ ((r.1 ≡ 0) × IsClientError r.0)
answer_body-cases_example =
    answer_body-cases a_digest parse_body a_digest constant_hmac as_ascii counting_store no_lookups
      (limits_of some_settings) two_chunks ended 0 constant_hmac-hash
