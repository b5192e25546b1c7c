-- ===== src/AircallEvent/Examples.antt =====
-- aircall-recording-event.mjs: a webhook that is accepted.
use air_call_demo_recording.AircallEvent.ServiceEvents.{
  accepted_object, to_decision_service_event, to_decision_service_event-normalize_event,
}
use air_call_demo_recording.Base.Text.Patterns.{is_hash, is_hex_unit}
use air_call_demo_recording.Js.{ref}
use air_call_demo_recording.Base.{◌≡◌, refl, Option, none, some, ◌∷◌, ◌++◌, if◌then◌else◌, take}
use air_call_demo_recording.Base.Text.{Text, codes, text_eq}
use air_call_demo_recording.Base.Text.Patterns.{
  is_alnum, is_digit, is_opaque, is_opaque_unit, is_phone,
}
use air_call_demo_recording.Js.{str, same_value}
use air_call_demo_recording.ConsentResolver.Leads.{Json, text, obj, field, end, get}
use air_call_demo_recording.AircallEvent.{
  Input, configuration, by_default, Accepted, accepted, safe_token, valid_event_name, includes,
  valid_allowed_events, read_config, byte_length, count_keys, extract_single_call, parse_payload,
  normalize_event, [], true,
}
use air_call_demo_recording.AircallEvent.Webhooks.{IsAuthentic, normalize_event-IsAuthentic}

abbrev body : Json
body = obj (
    field (codes "token") (text (codes "secret")) (
      field (codes "event") (text (codes "call.answered")) (
        field (codes "data")
          (obj (
            field (codes "id") (text (codes "call1"))
              (field (codes "raw_digits") (text (codes "4045550100")) end)))
          end)))

-- Stand-ins for `JSON.parse` and the digests.
abbrev parse_body : Text → Option Json
parse_body t = if text_eq t (codes "body") then some body else none

abbrev digest : Text → Text
digest t = codes "h" ++ t

abbrev hmac : Text → Text → Text
hmac key t = key ++ t

abbrev webhook : Input
webhook = configuration (record {
  payload_json = str (codes "body");
  expected_webhook_token = str (codes "secret");
  allowed_events = by_default;
})

abbrev message : Text
message = codes "aircall-recording-v1" ++ (0 ∷ (codes "call.answered" ++ (0 ∷ codes "call1")))

abbrev answered : Accepted
answered = record {
  event_name = codes "call.answered";
  call_id = codes "call1";
  phone_digits = codes "4045550100";
  event_key = hmac (codes "secret") message;
  correlation = take 24 (hmac (codes "secret") message);
}

accepted_run : normalize_event parse_body digest hmac webhook ≡ accepted answered
unfolding normalize_event read_config valid_allowed_events safe_token parse_payload byte_length
    count_keys get text_eq valid_event_name includes same_value extract_single_call is_opaque
    is_opaque_unit is_alnum is_digit is_phone
accepted_run = refl

normalize_event-IsAuthentic_example : IsAuthentic parse_body digest hmac webhook answered
normalize_event-IsAuthentic_example =
    normalize_event-IsAuthentic parse_body digest hmac webhook answered accepted_run

abbrev hex_digits : Text
hex_digits = codes "0123456789abcdef0123456789abcdef0123456789abcdef0123456789abcdef"

abbrev constant_hmac : Text → Text → Text
constant_hmac key t = hex_digits

constant_hmac-hash : (key t : Text) → is_hash (constant_hmac key t) ≡ true
unfolding is_hash is_hex_unit is_digit
constant_hmac-hash key t = refl

abbrev keyed : Accepted
keyed = record {
  event_name = codes "call.answered";
  call_id = codes "call1";
  phone_digits = codes "4045550100";
  event_key = hex_digits;
  correlation = take 24 hex_digits;
}

keyed_run : normalize_event parse_body digest constant_hmac webhook ≡ accepted keyed
unfolding normalize_event read_config valid_allowed_events safe_token parse_payload byte_length
    count_keys get text_eq valid_event_name includes same_value extract_single_call is_opaque
    is_opaque_unit is_alnum is_digit is_phone
keyed_run = refl

to_decision_service_event-normalize_event_example :
    to_decision_service_event (accepted_object keyed ∷ []) (ref 0)
    ≡ some (record {
      event_key = hex_digits;
      call_id = codes "call1";
      phone_digits = codes "4045550100";
      correlation = take 24 hex_digits;
    })
to_decision_service_event-normalize_event_example =
    to_decision_service_event-normalize_event parse_body digest constant_hmac webhook keyed
      constant_hmac-hash keyed_run
