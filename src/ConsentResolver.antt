-- ===== src/ConsentResolver.antt =====
-- consent-resolver.mjs: resolves a call to one item of the canonical board, by its phone and an
-- optional native item id. What an adapter returns, or that it throws, is the value that it has at
-- its argument; `parse` is `JSON.parse`, which yields a tree or throws.
pub mod Leads
pub mod Soundness
pub mod Resolved
mod Examples
use air_call_demo_recording.Base.{
  ℕ, zero, suc, ◌+◌, ◌-◌, ◌*◌, ◌/◌, ◌%◌, ◌^◌, ◌≤◌, ◌<◌, ◌≡◌, refl, sym, ap, ◌∙◌, ◌≢◌, ◌↔◌, ◌⊎◌, inl,
  inr, Bool, true, false, not, ◌&&◌, ◌||◌, Option, none, some, List, [], ◌∷◌, ◌++◌, map, arith, ltb,
  leb, ◌==◌, if◌then◌else◌, ==_iff, Bool-cases, Option-cases, and-both, length, get_elem?,
  get_elem?-lt, all, any, All, Attempt, returned, thrown,
}
use air_call_demo_recording.Base.Text.{Text, text_eq, trim}
use air_call_demo_recording.Base.Text.Patterns.{is_opaque, is_phone}
use air_call_demo_recording.Js.{Value, undefined, null, str}
use Leads.{
  Json, arr, obj, Elements, elements, Fields, Item, Method, native_item_id, unique_phone, no_method,
  ResolverReason, invalid_input, invalid_canonical_board, invalid_state_source, missing_phone,
  invalid_phone, invalid_native_item_id, native_lookup_unavailable, native_lookup_failed,
  invalid_native_lookup_result, phone_lookup_unavailable, phone_lookup_failed,
  invalid_phone_lookup_result, phone_not_found, phone_not_unique, native_phone_association_mismatch,
  Resolution, resolved, no_record, opaque_identifier, normalized_phone, validate_item,
}

-- What an adapter's method hands back: `other` is any value that is neither null nor a text.
pub data Payload : Type 0 where
  null_payload : Payload
  text_payload : Text → Payload
  other : Payload

pub record Config : Type 0 where
  pub canonical_board_id : Value
  pub state_source : Value
  pub native_item_id : Value
  pub phone_digits : Value
  pub get_consent_lead_by_id : Option (Text → Attempt Payload)
  pub find_consent_leads_by_phone : Option (Text → Attempt Payload)

-- The argument: no object record, or one whose getters throw; or one that could be read.
pub data Input : Type 0 where
  unreadable : Input
  config : Config → Input

pub data NativeId : Type 0 where
  absent : NativeId
  missing : NativeId
  native : Text → NativeId

abbrev is_nil : Text → Bool
is_nil [] = true
is_nil _ = false

abbrev native_text : Text → NativeId
native_text t = if is_nil (trim t) then absent else if is_opaque t then native t else missing

-- `nativeIdentifier`; `missing` is the symbol MISSING.
unfoldable pub native_identifier : Value → NativeId
native_identifier undefined = absent
native_identifier null = absent
native_identifier (str t) = native_text t
native_identifier _ = missing

unfoldable pub is_missing_phone : Value → Bool
is_missing_phone undefined = true
is_missing_phone null = true
is_missing_phone (str []) = true
is_missing_phone _ = false

abbrev pub as_record : Option Json → Option (Option Fields)
as_record (some (obj fs)) = some (some fs)
as_record _ = none

abbrev pub as_array : Option Json → Option (List Json)
as_array (some (arr xs)) = some (elements xs)
as_array _ = none

abbrev pub no_match : Option Item → Item → Bool
no_match none found = false
no_match (some item) found = not (text_eq found.id item.id)

abbrev pub native_or : Option Item → Method → Item → Resolution
native_or none m found = resolved m found
native_or (some item) m found = resolved native_item_id item

abbrev pub compare_ids : Option Item → Resolution → Resolution
compare_ids native_result (no_record m r) = no_record m r
compare_ids native_result (resolved m found) =
    if no_match native_result found
    then no_record native_item_id native_phone_association_mismatch
    else native_or native_result m found

module _ (board source phone : Text) where
  -- The candidates that the phone lookup found.
  abbrev pub only_candidate : Option Item → List Json → Resolution
  only_candidate native_result [] = no_record unique_phone phone_not_found
  only_candidate native_result (item ∷ []) =
      compare_ids native_result (validate_item item board source unique_phone none phone)
  only_candidate native_result _ = no_record unique_phone phone_not_unique

  abbrev pub candidates : Option Item → Option (List Json) → Resolution
  candidates native_result none = no_record unique_phone invalid_phone_lookup_result
  candidates native_result (some items) = only_candidate native_result items

module _ (parse : Text → Option Json) where
  -- `none` is the invalid payload, `some none` the item that was not found.
  unfoldable pub parse_native_payload : Payload → Option (Option Fields)
  parse_native_payload null_payload = some none
  parse_native_payload (text_payload t) = as_record (parse t)
  parse_native_payload other = none

  unfoldable pub parse_phone_payload : Payload → Option (List Json)
  parse_phone_payload (text_payload t) = as_array (parse t)
  parse_phone_payload _ = none

  module _ (board source phone : Text) where
    abbrev pub phone_payload : Option Item → Attempt Payload → Resolution
    phone_payload native_result thrown = no_record unique_phone phone_lookup_failed
    phone_payload native_result (returned p) =
        candidates board source phone native_result (parse_phone_payload p)

    -- The second half of the resolution, with what the native lookup gave.
    unfoldable pub by_phone : Option (Text → Attempt Payload) → Option Item → Resolution
    by_phone none native_result = no_record unique_phone phone_lookup_unavailable
    by_phone (some find) native_result = phone_payload native_result (find phone)

    abbrev pub after_native : Config → Resolution → Resolution
    after_native c (no_record m r) = no_record m r
    after_native c (resolved m item) = by_phone c.find_consent_leads_by_phone (some item)

    abbrev pub native_item : Config → Text → Option (Option Fields) → Resolution
    native_item c id none = no_record native_item_id invalid_native_lookup_result
    native_item c id (some none) = by_phone c.find_consent_leads_by_phone none
    native_item c id (some (some fs)) =
        after_native c (validate_item (obj fs) board source native_item_id (some id) phone)

    abbrev pub native_payload : Config → Text → Attempt Payload → Resolution
    native_payload c id thrown = no_record native_item_id native_lookup_failed
    native_payload c id (returned p) = native_item c id (parse_native_payload p)

    abbrev pub native_lookup : Config → Text → Option (Text → Attempt Payload) → Resolution
    native_lookup c id none = no_record native_item_id native_lookup_unavailable
    native_lookup c id (some get) = native_payload c id (get id)

    unfoldable pub by_native : Config → NativeId → Resolution
    by_native c missing = no_record native_item_id invalid_native_item_id
    by_native c absent = by_phone c.find_consent_leads_by_phone none
    by_native c (native id) = native_lookup c id c.get_consent_lead_by_id

  abbrev pub with_phone : Config → Text → Text → Option Text → Resolution
  with_phone c board source none =
      no_record unique_phone
        (if is_missing_phone c.phone_digits then missing_phone else invalid_phone)
  with_phone c board source (some phone) =
      by_native board source phone c (native_identifier c.native_item_id)

  abbrev pub with_source : Config → Text → Option Text → Resolution
  with_source c board none = no_record no_method invalid_state_source
  with_source c board (some source) = with_phone c board source (normalized_phone c.phone_digits)

  abbrev pub with_board : Config → Option Text → Resolution
  with_board c none = no_record no_method invalid_canonical_board
  with_board c (some board) = with_source c board (opaque_identifier c.state_source)

  unfoldable pub resolve_canonical_consent : Input → Resolution
  resolve_canonical_consent unreadable = no_record no_method invalid_input
  resolve_canonical_consent (config c) = with_board c (opaque_identifier c.canonical_board_id)
