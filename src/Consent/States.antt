-- ===== src/Consent/States.antt =====
-- consent.mjs: the table of state abbreviations and `normalizeState`.
use air_call_demo_recording.Base.{
  true, ◌≡◌, Option, none, some, List, [], ◌∷◌, map, if◌then◌else◌, arith,
}
use air_call_demo_recording.Base.Text.{Text, codes, has, trim, to_upper}
use air_call_demo_recording.Js.{Value, str}

-- Sealed behind its members by `has`: proofs never look into the table.
unfoldable pub us_state_abbreviations : List Text
us_state_abbreviations = map codes (
    "AL" ∷ "AK" ∷ "AZ" ∷ "AR" ∷ "CA" ∷ "CO" ∷ "CT" ∷ "DE" ∷ "FL" ∷ "GA" ∷ "HI" ∷ "ID" ∷ "IL" ∷ "IN"
    ∷ "IA" ∷ "KS" ∷ "KY" ∷ "LA" ∷ "ME" ∷ "MD" ∷ "MA" ∷ "MI" ∷ "MN" ∷ "MS" ∷ "MO" ∷ "MT" ∷ "NE"
    ∷ "NV" ∷ "NH" ∷ "NJ" ∷ "NM" ∷ "NY" ∷ "NC" ∷ "ND" ∷ "OH" ∷ "OK" ∷ "OR" ∷ "PA" ∷ "RI" ∷ "SC"
    ∷ "SD" ∷ "TN" ∷ "TX" ∷ "UT" ∷ "VT" ∷ "VA" ∷ "WA" ∷ "WV" ∷ "WI" ∷ "WY" ∷ [])

unfoldable pub normalize_text : Text → Option Text
normalize_text t =
    let state = to_upper (trim t) in if has us_state_abbreviations state then some state else none

unfoldable pub normalize_state : Value → Option Text
unfolding normalize_text
normalize_state (str t) = normalize_text t
normalize_state _ = none

-- Only a text normalises, and what it normalises to stands in the table.
pub normalize_state-has :
    (v : Value) (s : Text) → normalize_state v ≡ some s → has us_state_abbreviations s ≡ true
unfolding normalize_state
normalize_state-has (str t) s h = ground arith
normalize_state-has _ s h = ground arith
