-- ===== src/AircallEvent.antt =====
-- aircall-recording-event.mjs: the normalization of a webhook body. `parse` is `JSON.parse`, `digest`
-- SHA-256 and `hmac` the keyed digest. The configuration is given as it reads: a getter or a proxy
-- that throws makes it `unreadable`.
pub mod Webhooks
pub mod ServiceEvents
mod Examples
use air_call_demo_recording.Base.{
  ℕ, zero, suc, ◌+◌, ◌-◌, ◌*◌, ◌/◌, ◌%◌, ◌^◌, ◌≤◌, ◌<◌, ◌≡◌, refl, sym, ap, ◌∙◌, ◌≢◌, ◌↔◌, ◌⊎◌, inl,
  inr, Bool, true, false, not, ◌&&◌, ◌||◌, Option, none, some, List, [], ◌∷◌, ◌++◌, map, arith, ltb,
  leb, ◌==◌, if◌then◌else◌, ==_iff, Bool-cases, Option-cases, and-both, length, take, get_elem?,
  get_elem?-lt, all, any, All, Attempt, returned, thrown,
}
use air_call_demo_recording.Base.Text.{Text, codes, text_eq}
use air_call_demo_recording.Base.Text.Patterns.{is_alnum, is_digit, is_opaque, is_phone}
use air_call_demo_recording.Js.{Value, undefined, str, same_value}
use air_call_demo_recording.ConsentResolver.Leads.{Json, text, obj, Fields, end, field, get}

pub data RejectionReason : Type 0 where
  invalid_configuration invalid_payload unauthenticated : RejectionReason
  invalid_event unsupported_event invalid_call : RejectionReason

pub record Accepted : Type 0 where
  pub event_name : Text
  pub call_id : Text
  pub phone_digits : Text
  pub event_key : Text
  pub correlation : Text

pub data Normalized : Type 0 where
  accepted : Accepted → Normalized
  rejected : RejectionReason → Normalized

-- The own data property `allowedEvents`: absent, an array by its elements with `none` for a hole, or
-- any other value.
pub data AllowedEvents : Type 0 where
  by_default : AllowedEvents
  listed : List (Option Value) → AllowedEvents
  no_list : AllowedEvents

pub record Configuration : Type 0 where
  pub payload_json : Value
  pub expected_webhook_token : Value
  pub allowed_events : AllowedEvents

pub data Input : Type 0 where
  unreadable : Input
  configuration : Configuration → Input

-- What `readConfig` keeps.
pub record Config : Type 0 where
  pub payload_json : Text
  pub expected_webhook_token : Text
  pub allowed_events : List Value

abbrev is_token_unit : ℕ → Bool
is_token_unit c = leb 0x21 c && leb c 0x7E

-- OPAQUE_TOKEN
unfoldable pub safe_token : Text → Bool
safe_token t = all is_token_unit t && leb 1 (length t) && leb (length t) 2048

abbrev is_letter : ℕ → Bool
is_letter c = is_alnum c && not (is_digit c)

abbrev is_name_unit : ℕ → Bool
is_name_unit c = is_alnum c || c == b'.' || c == b'_' || c == b'-'

-- EVENT_NAME
unfoldable pub valid_event_name : Text → Bool
valid_event_name [] = false
valid_event_name (c ∷ t) = is_letter c && all is_name_unit t && leb (length t) 63

-- `every` passes over holes.
abbrev names_event : Option Value → Bool
names_event none = true
names_event (some (str t)) = valid_event_name t
names_event (some _) = false

abbrev pub element : Option Value → Value
element none = undefined
element (some v) = v

unfoldable pub includes : List Value → Value → Bool
includes [] v = false
includes (w ∷ ws) v = same_value w v || includes ws v

-- `new Set(value).size === value.length`
unfoldable pub all_distinct : List Value → Bool
all_distinct [] = true
all_distinct (v ∷ vs) = not (includes vs v) && all_distinct vs

unfoldable pub valid_allowed_events : AllowedEvents → Option (List Value)
valid_allowed_events by_default = some (str (codes "call.answered") ∷ [])
valid_allowed_events no_list = none
valid_allowed_events (listed events) =
    if leb 1 (length events)
      && leb (length events) 16
      && all names_event events
      && all_distinct (map element events)
    then some (map element events)
    else none

abbrev config_of : Value → Value → Option (List Value) → Option Config
config_of (str payload) (str token) (some events) =
    if safe_token token
    then some
        (record { payload_json = payload; expected_webhook_token = token; allowed_events = events })
    else none
config_of _ _ _ = none

unfoldable pub read_config : Input → Option Config
read_config unreadable = none
read_config (configuration c) =
    config_of c.payload_json c.expected_webhook_token (valid_allowed_events c.allowed_events)

abbrev is_high : ℕ → Bool
is_high c = leb 0xD800 c && leb c 0xDBFF

abbrev is_low : ℕ → Bool
is_low c = leb 0xDC00 c && leb c 0xDFFF

-- The bytes that a unit adds in UTF-8 after the unit before: a pair takes four, a lone surrogate three.
abbrev unit_bytes : ℕ → ℕ → ℕ
unit_bytes before c =
    if ltb c 0x80
    then 1
    else if ltb c 0x800 || is_high before && is_low c
    then (if ltb c 0x800 then 2 else 1)
    else 3

unfoldable pub byte_length : ℕ → Text → ℕ
byte_length before [] = 0
byte_length before (c ∷ t) = unit_bytes before c + byte_length c t

abbrev is_present : Option Json → Bool
is_present none = false
is_present (some j) = true

-- `Object.keys(value).length`
unfoldable pub count_keys : Fields → ℕ
count_keys end = 0
count_keys (field k v fs) = (if is_present (get k fs) then 0 else 1) + count_keys fs

abbrev pub bounded : ℕ → Option Json → Option Fields
bounded limit (some (obj fs)) = if leb (count_keys fs) limit then some fs else none
bounded limit _ = none

-- `extractSingleCall`
unfoldable pub extract_single_call : Fields → Option Fields
extract_single_call payload =
    if is_present (get (codes "call") payload)
    then none
    else elim (bounded 64 (get (codes "data") payload)) [
      | none ↦ none
      | some call ↦ if is_present (get (codes "call") call) then none else some call
    ]

module _ (parse : Text → Option Json) (digest : Text → Text) (hmac : Text → Text → Text) where
  unfoldable pub parse_payload : Text → Option Fields
  parse_payload t = if ltb 131072 (byte_length 0 t) then none else bounded 16 (parse t)

  abbrev pub accept : Config → Text → Text → Text → Accepted
  accept c event call phone =
      let key =
        hmac c.expected_webhook_token
          (codes "aircall-recording-v1" ++ (0 ∷ (event ++ (0 ∷ call)))) in
      record {
        event_name = event;
        call_id = call;
        phone_digits = phone;
        event_key = key;
        correlation = take 24 key;
      }

  abbrev pub with_ids : Config → Text → Option Json → Option Json → Normalized
  with_ids c event (some (text call)) (some (text phone)) =
      if is_opaque call && is_phone phone
      then accepted (accept c event call phone)
      else rejected invalid_call
  with_ids c event _ _ = rejected invalid_call

  abbrev pub with_call : Config → Text → Option Fields → Normalized
  with_call c event none = rejected invalid_call
  with_call c event (some call) =
      with_ids c event (get (codes "id") call) (get (codes "raw_digits") call)

  abbrev pub with_event : Config → Fields → Option Json → Normalized
  with_event c payload (some (text event)) =
      if not (valid_event_name event)
      then rejected invalid_event
      else if not (includes c.allowed_events (str event))
      then rejected unsupported_event
      else with_call c event (extract_single_call payload)
  with_event c payload _ = rejected invalid_event

  abbrev pub with_token : Config → Fields → Option Json → Normalized
  with_token c payload (some (text token)) =
      if safe_token token && text_eq (digest token) (digest c.expected_webhook_token)
      then with_event c payload (get (codes "event") payload)
      else rejected unauthenticated
  with_token c payload _ = rejected unauthenticated

  abbrev pub with_payload : Config → Option Fields → Normalized
  with_payload c none = rejected invalid_payload
  with_payload c (some payload) = with_token c payload (get (codes "token") payload)

  abbrev pub with_config : Option Config → Normalized
  with_config none = rejected invalid_configuration
  with_config (some c) = with_payload c (parse_payload c.payload_json)

  -- `normalizeAuthenticatedAircallRecordingEvent`
  unfoldable pub normalize_event : Input → Normalized
  normalize_event input = with_config (read_config input)
