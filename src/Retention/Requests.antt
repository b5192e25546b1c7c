-- ===== src/Retention/Requests.antt =====
-- two-party-retention-finalizer.mjs: the decision of answer time and the event of an asset, on their
-- way to the store. Their fields are texts, as the callers in the repository pass them. `date` is
-- `Date.parse` in milliseconds from a fixed day, none where it gives NaN; `hash` is SHA-256 in
-- hexadecimal digits.
use air_call_demo_recording.Base.{
  ℕ, ◌-◌, Bool, true, false, ◌&&◌, ◌||◌, Option, none, some, List, [], ◌∷◌, ◌++◌, leb, ◌==◌,
  if◌then◌else◌, Attempt, returned, thrown,
}
use air_call_demo_recording.Base.Text.{Text, codes, text_eq}
use air_call_demo_recording.Base.Text.Patterns.{is_opaque, is_phone, is_digit}
use air_call_demo_recording.ConsentStore.{Connection}
use air_call_demo_recording.Retention.{
  RetentionDecision, RetentionTables, record_decision, enqueue_asset, Queued,
}

-- Whether a text has the shape of a pattern, where `d` stands for a digit.
unfoldable pub has_shape : Text → Text → Bool
has_shape [] [] = true
has_shape (p ∷ ps) (c ∷ t) = (if p == b'd' then is_digit c else p == c) && has_shape ps t
has_shape _ _ = false

-- /^\d{4}-\d\d-\d\dT\d\d:\d\d:\d\d(?:\.\d{3})?Z$/
unfoldable pub is_iso : Text → Bool
is_iso t =
    has_shape (codes "dddd-dd-ddTdd:dd:ddZ") t || has_shape (codes "dddd-dd-ddTdd:dd:dd.dddZ") t

abbrev iso_date : (Text → Option ℕ) → Text → Option ℕ
iso_date date t = if is_iso t then date t else none

-- The call was answered after its start, within a day of it.
abbrev pub in_order : Option ℕ → Option ℕ → Bool
in_order (some answered) (some started) = leb started answered && leb (answered - started) 86400000
in_order _ _ = false

-- `validateDecision`
unfoldable pub valid_decision : (Text → Option ℕ) → Text → RetentionDecision → Bool
valid_decision date policy_outcome d =
    text_eq policy_outcome (codes "two_party_delete")
    && is_opaque d.provider_call_id
    && is_opaque d.calls_item_id
    && is_phone d.external_phone_digits
    && is_phone d.scoped_phone_digits
    && in_order (iso_date date d.answered_at) (iso_date date d.call_started_at)

-- Fields joined by NUL.
abbrev joined : Text → List Text → Text
joined t [] = t
joined t (s ∷ rest) = joined (t ++ (0 ∷ s)) rest

module _ (hash : Text → Text) (key : Text) where
  -- `callKey`
  abbrev pub call_key : Text → Text
  call_key call = hash (joined key (codes "call-v1" ∷ call ∷ []))

  -- `assetKey`
  abbrev pub asset_key : Text → Text → Text
  asset_key call asset = hash (joined key (codes "asset-v1" ∷ call ∷ asset ∷ []))

  -- `correlate`
  abbrev pub correlate : RetentionDecision → Text
  correlate d = hash (
      joined key (
        codes "decision-v1"
        ∷ d.provider_call_id
        ∷ d.calls_item_id
        ∷ d.external_phone_digits
        ∷ d.scoped_phone_digits
        ∷ d.answered_at
        ∷ d.call_started_at
        ∷ []))

  abbrev recorded_as : Text → Attempt Bool × RetentionTables → Attempt Text × RetentionTables
  recorded_as correlation (returned done, t) = (returned correlation, t)
  recorded_as correlation (thrown, t) = (thrown, t)

  -- `recordAnswerTimeDecision`, which gives the correlation.
  unfoldable pub record_answer_time_decision :
      (Text → Option ℕ)
      → (Text → RetentionDecision → Text)
      → Connection
      → (policy_outcome : Text) → RetentionDecision
      → RetentionTables
      → Attempt Text × RetentionTables
  record_answer_time_decision date seal c policy_outcome d t =
      if valid_decision date policy_outcome d
      then recorded_as (correlate d)
          (record_decision seal c (correlate d) (call_key d.provider_call_id) d t)
      else (thrown, t)

  -- `receiveAssetEvent`
  unfoldable pub receive_asset_event :
      Connection → (call asset : Text) → RetentionTables → Attempt Queued × RetentionTables
  receive_asset_event c call asset t =
      if is_opaque call && is_opaque asset
      then enqueue_asset c (asset_key call asset) (call_key call) t
      else (thrown, t)
