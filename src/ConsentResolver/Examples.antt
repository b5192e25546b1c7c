-- ===== src/ConsentResolver/Examples.antt =====
-- consent-resolver.mjs: a resolution by phone and native id.
use air_call_demo_recording.Base.{
  ◌≡◌, refl, true, Option, none, some, if◌then◌else◌, Attempt, returned,
}
use air_call_demo_recording.Base.Text.{
  Text, codes, text_eq, trim, trim_start, trim_end, is_space, upper_unit, to_upper, has,
}
use air_call_demo_recording.Base.Text.Patterns.{
  is_opaque, is_opaque_unit, is_alnum, is_digit, is_phone,
}
use air_call_demo_recording.Js.{str}
use air_call_demo_recording.Consent.States.{us_state_abbreviations, normalize_text}
use air_call_demo_recording.ConsentResolver.{
  Payload, text_payload, Config, config, native_identifier, parse_native_payload,
  parse_phone_payload, by_phone, by_native, resolve_canonical_consent,
}
use air_call_demo_recording.ConsentResolver.Leads.{
  Json, flag, text, arr, obj, nil, cons, Fields, field, end, Item, native_item_id, resolved, get,
  opaque_text, opaque_identifier, normalized_phone, validated_state, has_matching_phone,
  snapshot_item, validate_item,
}
use air_call_demo_recording.ConsentResolver.Resolved.{
  IsResolved, resolve_canonical_consent-IsResolved,
}

abbrev lead_fields : Fields
lead_fields = field (codes "id") (text (codes "lead1")) (
    field (codes "boardId") (text (codes "board")) (
      field (codes "phoneDigits") (text (codes "4045550100")) (
        field (codes "state")
          (obj (
            field (codes "value") (text (codes "ga")) (
              field (codes "source") (text (codes "column"))
                (field (codes "verified") (flag true) end))))
          end)))

-- A stand-in for `JSON.parse` that knows two texts.
abbrev parse_two : Text → Option Json
parse_two t =
    if text_eq t (codes "one")
    then some (obj lead_fields)
    else if text_eq t (codes "list")
    then some (arr (cons (obj lead_fields) nil))
    else none

abbrev by_id : Text → Attempt Payload
by_id id = returned (text_payload (codes "one"))

abbrev by_number : Text → Attempt Payload
by_number phone = returned (text_payload (codes "list"))

abbrev lead_config : Config
lead_config = record {
  canonical_board_id = str (codes "board");
  state_source = str (codes "column");
  native_item_id = str (codes "lead1");
  phone_digits = str (codes "4045550100");
  get_consent_lead_by_id = some by_id;
  find_consent_leads_by_phone = some by_number;
}

abbrev georgia_lead : Item
georgia_lead = record { id = codes "lead1"; board_id = codes "board"; state = codes "GA" }

resolved_run :
    resolve_canonical_consent parse_two (config lead_config) ≡ resolved native_item_id georgia_lead
unfolding resolve_canonical_consent by_native by_phone native_identifier parse_native_payload
    parse_phone_payload opaque_identifier normalized_phone validate_item snapshot_item get
    opaque_text validated_state has_matching_phone is_opaque is_opaque_unit is_alnum is_digit
    is_phone text_eq normalize_text us_state_abbreviations trim trim_start trim_end is_space
    upper_unit to_upper has
resolved_run = refl

resolve_canonical_consent-IsResolved_example :
    IsResolved parse_two lead_config native_item_id georgia_lead
resolve_canonical_consent-IsResolved_example =
    resolve_canonical_consent-IsResolved parse_two lead_config native_item_id georgia_lead
      resolved_run
