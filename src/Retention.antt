-- ===== src/Retention.antt =====
-- postgres-two-party-retention-store.mjs over the tables of migrations/003 and 004: the actions that
-- delete the recording of a two-party call and clear its link. An action's id is its place in the
-- list of actions. The time of the database is an argument, and so is the row that the query of
-- `claimNext` picks, since locks decide it. `seal` and `unseal` are AES-256-GCM under the store's key,
-- with the correlation as additional data; `unseal` gives none where it throws.
pub mod Actions
pub mod Requests
pub mod Finalizer
pub mod History
pub mod Undeleted
pub mod Calls
pub mod Statements
pub mod Runs
pub mod Assets
pub mod Cleared
pub mod Confirmed
mod Examples
use air_call_demo_recording.Base.{
  ℕ, zero, suc, ◌+◌, ◌-◌, ◌*◌, ◌/◌, ◌%◌, ◌^◌, ◌≤◌, ◌<◌, ◌≡◌, refl, sym, ap, ◌∙◌, ◌≢◌, ◌↔◌, ◌⊎◌, inl,
  inr, Bool, true, false, not, ◌&&◌, ◌||◌, Option, none, some, List, [], ◌∷◌, ◌++◌, map, arith, ltb,
  leb, ◌==◌, if◌then◌else◌, ==_iff, Bool-cases, Option-cases, and-both, length, take, get_elem?,
  get_elem?-lt, all, any, All, Attempt, returned, thrown,
}
use air_call_demo_recording.Base.Text.{Text, text_eq}
use air_call_demo_recording.Base.Text.Patterns.{is_hash}
use air_call_demo_recording.ConsentStore.{Connection, works, fails, commit_unheard}

pub data RetentionStatus : Type 0 where
  delete_pending deleting delete_requested confirming delete_confirmed : RetentionStatus
  clearing monday_link_cleared voiceauth_retained exception : RetentionStatus

pub data ExceptionCode : Type 0 where
  dependency_failure monday_writer_race invalid_action_state : ExceptionCode

-- What the sealed capability of a decision holds.
pub record RetentionDecision : Type 0 where
  pub provider_call_id : Text
  pub calls_item_id : Text
  pub external_phone_digits : Text
  pub scoped_phone_digits : Text
  pub answered_at : Text
  pub call_started_at : Text

pub record RetentionAction : Type 0 where
  pub asset_key : Text
  pub correlation : Text
  pub status : RetentionStatus
  pub lease_token : Option Text
  pub lease_expires_at : Option ℕ
  pub exception_code : Option ExceptionCode

-- The decisions by their call's key with their correlation, the capabilities by their correlation, and the
-- overrides with their call's key and their event's key, which are each unique.
pub record RetentionTables : Type 0 where
  pub decisions : Text → Option Text
  pub capabilities : Text → Option Text
  pub actions : List RetentionAction
  pub overrides : List (Text × Text)

pub data Queued : Type 0 where
  queued duplicate missing_decision : Queued

abbrev pub is_taken {ℓ} : {A : Type ℓ} → Option A → Bool
is_taken none = false
is_taken (some a) = true

-- `ON CONFLICT DO NOTHING`
abbrev pub put_new : Text → Text → (Text → Option Text) → Text → Option Text
put_new k v rows j = if text_eq j k && not (is_taken (rows j)) then some v else rows j

-- One statement that throws, works, or works unheard.
abbrev pub outcome {ℓ κ} : {A : Type ℓ} {T : Type κ} → Connection → A → T → T → Attempt A × T
outcome works a after before = (returned a, after)
outcome fails a after before = (thrown, before)
outcome commit_unheard a after before = (thrown, after)

-- `recordDecision`: a correlation that is known stays as it is. Where another decision has the key of
-- its call, the capability of a new one refers to no decision, and the transaction throws.
unfoldable pub record_decision :
    (Text → RetentionDecision → Text)
    → Connection
    → (correlation call_key : Text) → RetentionDecision
    → RetentionTables
    → Attempt Bool × RetentionTables
record_decision seal c correlation call_key d t =
    if is_taken (t.capabilities correlation)
    then outcome c true t t
    else if is_taken (t.decisions call_key)
    then (thrown, t)
    else outcome c true
        (record t {
          decisions = put_new call_key correlation t.decisions;
          capabilities = put_new correlation (seal correlation d) t.capabilities;
        })
        t

abbrev pub new_action : Text → Text → RetentionAction
new_action asset correlation = record {
  asset_key = asset;
  correlation = correlation;
  status = delete_pending;
  lease_token = none;
  lease_expires_at = none;
  exception_code = none;
}

abbrev pub has_asset : Text → List RetentionAction → Bool
has_asset asset rows = any (λ r. text_eq r.asset_key asset) rows

abbrev pub has_correlation : Text → List RetentionAction → Bool
has_correlation correlation rows = any (λ r. text_eq r.correlation correlation) rows

-- The insertion of `enqueueAsset` under a decision; a second asset of the same call breaks the
-- uniqueness of the correlation, and the statement throws.
abbrev pub enqueue_under :
    Connection → Text → Option Text → RetentionTables → Attempt Queued × RetentionTables
enqueue_under c asset none t =
    outcome c (if has_asset asset t.actions then duplicate else missing_decision) t t
enqueue_under c asset (some correlation) t =
    if has_asset asset t.actions
    then outcome c duplicate t t
    else if has_correlation correlation t.actions
    then (thrown, t)
    else outcome c queued (record t { actions = t.actions ++ new_action asset correlation ∷ [] }) t

unfoldable pub enqueue_asset :
    Connection → (asset call_key : Text) → RetentionTables → Attempt Queued × RetentionTables
enqueue_asset c asset call_key t = enqueue_under c asset (t.decisions call_key) t

unfoldable pub has_override : Text → List (Text × Text) → Bool
has_override call_key rows = any (λ row. text_eq row.0 call_key) rows

unfoldable pub has_override_event : Text → List (Text × Text) → Bool
has_override_event event_key rows = any (λ row. text_eq row.1 event_key) rows

-- The call's key is the target of ON CONFLICT DO NOTHING; an event's key that another call's row has
-- breaks its own constraint, and the statement throws.
unfoldable pub record_voice_auth_override :
    Connection → (call_key event_key : Text) → RetentionTables → Attempt Bool × RetentionTables
record_voice_auth_override c call_key event_key t =
    if is_hash call_key && is_hash event_key
    then if has_override call_key t.overrides
      then outcome c true t t
      else if has_override_event event_key t.overrides
      then (thrown, t)
      else outcome c true (record t { overrides = t.overrides ++ (call_key, event_key) ∷ [] }) t
    else (thrown, t)

unfoldable pub has_voice_auth_override : Text → RetentionTables → Attempt Bool
has_voice_auth_override call_key t =
    if is_hash call_key then returned (has_override call_key t.overrides) else thrown
