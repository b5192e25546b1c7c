-- ===== src/StateRuntime.antt =====
-- simple-state-recording-runtime.mjs: the tests of an event and the settings. What `JSON.parse` yields
-- is a tree, `show` is `String` of a value of it, `digest` is SHA-256 in hexadecimal digits, and
-- `states` is the table of one-party states of the policy file.
pub mod Lookup
pub mod Handler
pub mod Once
pub mod Authority
pub mod Overlap
mod Examples
use air_call_demo_recording.Base.{
  ℕ, zero, suc, ◌+◌, ◌-◌, ◌*◌, ◌/◌, ◌%◌, ◌^◌, ◌≤◌, ◌<◌, ◌≡◌, refl, sym, ap, ◌∙◌, ◌≢◌, ◌↔◌, ◌⊎◌, inl,
  inr, Bool, true, false, not, ◌&&◌, ◌||◌, Option, none, some, List, [], ◌∷◌, ◌++◌, map, arith, ltb,
  leb, ◌==◌, if◌then◌else◌, ==_iff, Bool-cases, Option-cases, and-both, length, take, get_elem?,
  get_elem?-lt, all, any, All, Attempt, returned, thrown,
}
use Prim.Native.String.{String}
use mathlib.Core.Option
use air_call_demo_recording.Base.Text.{Text, codes, text_eq, has}
use air_call_demo_recording.Base.Text.Patterns.{is_digit, is_opaque, is_phone, is_hash}
use air_call_demo_recording.Js.{Number, natural, is_safe_natural}
use air_call_demo_recording.ConsentResolver.Leads.{
  Json, nothing, text, number, arr, obj, Elements, elements, Fields, get,
}

-- A property of a value that may be no object.
abbrev pub member : Text → Option Json → Option Json
member k (some (obj fs)) = get k fs
member k _ = none

-- [0-9+(). -]
unfoldable pub is_phone_unit : ℕ → Bool
unfolding is_digit
is_phone_unit c =
    is_digit c || c == b'+' || c == b'(' || c == b')' || c == b'.' || c == b' ' || c == b'-'

unfoldable pub digits_of : Text → Text
digits_of [] = []
digits_of (c ∷ t) = if is_digit c then c ∷ digits_of t else digits_of t

-- `normalizePhone`
unfoldable pub normalize_phone : Option Json → Option Text
normalize_phone (some (text t)) =
    if leb (length t) 32 && leb 1 (length t) && all is_phone_unit t && is_phone (digits_of t)
    then some (digits_of t)
    else none
normalize_phone _ = none

-- A call's id, a text or a safe integer; any other is none, and so is a negative one, which fails the
-- pattern of an id.
abbrev pub call_id : (Json → Text) → Option Json → Option Text
call_id show (some (text t)) = if is_opaque t then some t else none
call_id show (some (number n)) =
    if is_safe_natural n && is_opaque (show (number n)) then some (show (number n)) else none
call_id show _ = none

abbrev pub is_text : String → Option Json → Bool
is_text s (some (text t)) = text_eq t (codes s)
is_text s _ = false

-- `equalToken`
abbrev pub equal_token : (Text → Text) → Option Json → Text → Bool
equal_token digest (some (text token)) expected = text_eq (digest token) (digest expected)
equal_token digest _ expected = false

abbrev shown : (Json → Text) → Option Json → Text
shown show none = codes "undefined"
shown show (some j) = show j

-- The pair of a call's user and number, as the scope names it.
abbrev pub pair_of : (Json → Text) → Option Json → Text
pair_of show call =
    shown show (member (codes "id") (member (codes "user") call))
    ++ codes ":"
    ++ shown show (member (codes "id") (member (codes "number") call))

-- What the server is configured with.
pub record Control : Type 0 where
  pub token : Text
  pub scope : List Text
  pub enabled : Bool

-- A call that is eligible for the lookup of its state.
pub record EligibleCall : Type 0 where
  pub id : Text
  pub phone_digits : Text

abbrev pub eligible : Option Text → Option Text → Bool → Option EligibleCall
eligible (some id) (some phone) true = some (record { id = id; phone_digits = phone })
eligible _ _ _ = none

-- `classifyControlEvent`: none is `left_disabled`.
unfoldable pub classify_control_event :
    (Json → Text) → (Text → Text) → Control → Json → Option EligibleCall
classify_control_event show digest g payload =
    let call = member (codes "data") (some payload) in
    eligible (call_id show (member (codes "id") call))
      (normalize_phone (member (codes "raw_digits") call))
      (is_text "call.answered" (member (codes "event") (some payload))
        && equal_token digest (member (codes "token") (some payload)) g.token
        && is_text "outbound" (member (codes "direction") call)
        && g.enabled
        && has g.scope (pair_of show call))

abbrev is_false : Option Bool → Bool
is_false none = false
is_false (some b) = not b

-- `decideStateAction`: whether the recording is paused.
unfoldable pub decides_pause : (Text → Option Bool) → Text → Bool
decides_pause states state = is_false (states state)

abbrev is_number_text : Text → Bool
is_number_text t = all is_digit t && leb 1 (length t)

-- One pair of the scope; an id that is not there reads as the empty text.
abbrev id_text : (Json → Text) → Option Json → Text
id_text show none = []
id_text show (some nothing) = []
id_text show (some j) = show j

abbrev scope_pair : (Json → Text) → Json → Option Text
scope_pair show pair =
    let user = id_text show (member (codes "userId") (some pair)) in
    let line = id_text show (member (codes "numberId") (some pair)) in
    if is_number_text user && is_number_text line then some (user ++ codes ":" ++ line) else none

unfoldable pub scope_pairs : (Json → Text) → List Json → Option (List Text)
scope_pairs show [] = some []
scope_pairs show (j ∷ js) = elim (scope_pair show j) [
  | none ↦ none
  | some pair ↦ Option.map (λ pairs. pair ∷ pairs) (scope_pairs show js)
]

unfoldable pub distinct : List Text → Bool
distinct [] = true
distinct (t ∷ ts) = not (has ts t) && distinct ts

abbrev accepted_scope : Option (List Text) → Option (List Text)
accepted_scope none = none
accepted_scope (some pairs) = if leb 1 (length pairs) && distinct pairs then some pairs else none

-- `parseControlScope`, of what the text parses to.
unfoldable pub parse_control_scope : (Json → Text) → Option Json → Option (List Text)
parse_control_scope show (some (arr es)) = accepted_scope (scope_pairs show (elements es))
parse_control_scope show _ = none

pub record ActivePolicy : Type 0 where
  pub controller_status : Text
  pub operating_mode : Text
  pub recording_actions_permitted : Bool
  pub ruleset_version : Text
  pub policy_version : Text
  pub pair_count : Number
  pub sha256 : Text

abbrev is_positive : Number → Bool
is_positive (natural n) = is_safe_natural (natural n) && leb 1 n
is_positive _ = false

-- `validActivePolicy`, for the version of the ruleset.
unfoldable pub valid_active_policy : Text → ActivePolicy → Bool
valid_active_policy version p =
    text_eq p.controller_status (codes "ENABLED")
    && text_eq p.operating_mode (codes "ACTIVE_PAUSE_ONLY")
    && p.recording_actions_permitted
    && text_eq p.ruleset_version version
    && leb 1 (length p.policy_version)
    && is_positive p.pair_count
    && is_hash p.sha256

abbrev long_enough : Option Text → Bool
long_enough none = false
long_enough (some t) = leb 16 (length t)

abbrev is_value : Option Text → Text → Bool
is_value none s = false
is_value (some t) s = text_eq t s

abbrev or_empty : Option Text → Text
or_empty none = []
or_empty (some t) = t

abbrev counts : Number → ℕ → Bool
counts (natural n) m = n == m
counts _ m = false

abbrev controlled :
    (Text → Text) → ActivePolicy → (Text → Option Text) → Option (List Text) → Option Control
controlled digest p env none = none
controlled digest p env (some scope) =
    if counts p.pair_count (length scope)
      && text_eq (digest (or_empty (env (codes "RECORDING_CONTROL_SCOPE_PAIRS")))) p.sha256
    then some (record {
      token = or_empty (env (codes "AIRCALL_CONTROL_WEBHOOK_TOKEN"));
      scope = scope;
      enabled =
          is_value (env (codes "CONTROL_ENABLED")) (codes "true")
          && is_value (env (codes "RECORDING_CONTROL_MODE")) (codes "CONTROL_ENABLED")
          && is_value (env (codes "RECORDING_CONTROL_POLICY_VERSION")) p.policy_version;
    })
    else none

-- The settings of `createServer`: none where it throws. `parse` is `JSON.parse`.
unfoldable pub configure :
    (Json → Text)
    → (Text → Text)
    → (Text → Option Json)
    → (version : Text) → ActivePolicy
    → (Text → Option Text)
    → Option Control
configure show digest parse version p env =
    if valid_active_policy version p
      && long_enough (env (codes "AIRCALL_CONTROL_WEBHOOK_TOKEN"))
      && long_enough (env (codes "AIRCALL_API_ID"))
      && long_enough (env (codes "AIRCALL_API_KEY"))
      && long_enough (env (codes "MONDAY_API_TOKEN"))
    then controlled digest p env
        (parse_control_scope show (parse (or_empty (env (codes "RECORDING_CONTROL_SCOPE_PAIRS")))))
    else none
