-- ===== src/Retention/Examples.antt =====
-- A retention store with one decided call, and the theorems at what its workers do.
use air_call_demo_recording.Base.{
  ◌≡◌, refl, true, false, Option, none, some, List, [], ◌∷◌, get_elem?, returned, thrown,
}
use mathlib.Core.Option
use air_call_demo_recording.Base.Text.{Text, text_eq, codes}
use air_call_demo_recording.Base.Text.Patterns.{is_opaque, is_hash, is_hex_unit, is_digit}
use air_call_demo_recording.ConsentStore.{works}
use air_call_demo_recording.Retention.{
  new_action, duplicate, deleting, monday_link_cleared, exception, RetentionDecision,
  RetentionAction, RetentionTables, record_decision, enqueue_asset, dependency_failure,
  record_voice_auth_override, has_voice_auth_override, has_override, has_override_event,
}
use air_call_demo_recording.Retention.Actions.{claim_next, decision_of, transition}
use air_call_demo_recording.Retention.Finalizer.{
  found_unavailable, found_available, clear_link, read_link, Outside, Work, act, run_once,
  exceptional, delete_was_confirmed, link_was_cleared,
}
use air_call_demo_recording.Retention.History.{
  System, Event, recording, enqueuing, claiming, acting, advance, advance_all,
}
use air_call_demo_recording.Retention.Calls.{all_founded}
use air_call_demo_recording.Retention.Requests.{receive_asset_event, asset_key}
use air_call_demo_recording.Retention.Undeleted.{
  asked_deletion, asked_deletion-advance_all, run_once-pending,
}
use air_call_demo_recording.Retention.Confirmed.{all_founded-advance_all}
use air_call_demo_recording.Retention.Assets.{receive_asset_event-again}
use air_call_demo_recording.Retention.Cleared.{run_once-clears}

abbrev a_decision : RetentionDecision
a_decision = record {
  provider_call_id = codes "call-1";
  calls_item_id = codes "item-1";
  external_phone_digits = codes "12025550100";
  scoped_phone_digits = codes "12025550101";
  answered_at = codes "2024-01-01T00:00:05Z";
  call_started_at = codes "2024-01-01T00:00:00Z";
}

-- A seal that writes nothing, and its opening.
abbrev a_seal : Text → RetentionDecision → Text
a_seal k d = []

abbrev an_unseal : Text → Text → Option RetentionDecision
an_unseal k sealed = some a_decision

abbrev a_key : Text
a_key = codes "key"

abbrev fresh_tables : RetentionTables
fresh_tables = record {
  decisions = λ k. none;
  capabilities = λ k. none;
  actions = [];
  overrides = [];
}

abbrev fresh_system : System
fresh_system = record { work = record { tables = fresh_tables; log = [] }; claims = [] }

abbrev still_there : Outside
still_there = record {
  delete_works = true;
  unavailable = returned false;
  clear_works = true;
  link = returned none;
  at_mark = works;
  at_exception = works;
}

abbrev gone : Outside
gone = record still_there { unavailable = returned true }

-- The call is decided, its asset comes, and one worker confirms what another clears.
abbrev some_events : List Event
some_events =
    recording works a_key a_key a_decision
    ∷ enqueuing works a_key a_key
    ∷ claiming works 0 a_key 0
    ∷ acting gone
    ∷ claiming works 1 a_key 0
    ∷ acting gone
    ∷ []

-- The run ends with the link cleared.
some_events_cleared :
    (advance_all a_seal an_unseal some_events fresh_system).work.log
    ≡ read_link (codes "call-1") (codes "item-1")
      ∷ clear_link (codes "call-1") (codes "item-1")
      ∷ found_unavailable (codes "call-1")
      ∷ []
unfolding advance_all advance record_decision enqueue_asset claim_next decision_of act transition
    text_eq is_opaque
some_events_cleared = refl

asked_deletion-advance_all_example :
    asked_deletion (advance_all a_seal an_unseal some_events fresh_system).work.log ≡ false
asked_deletion-advance_all_example =
    asked_deletion-advance_all a_seal an_unseal some_events fresh_system refl refl

all_founded-advance_all_example :
    all_founded (advance_all a_seal an_unseal some_events fresh_system).work.log ≡ true
all_founded-advance_all_example =
    all_founded-advance_all a_seal an_unseal some_events fresh_system refl refl refl

abbrev queued_tables : RetentionTables
queued_tables = record fresh_tables {
  capabilities = λ k. some [];
  actions = new_action a_key a_key ∷ [];
}

abbrev queued_work : Work
queued_work = record { tables = queued_tables; log = [] }

run_once-pending_example :
    let (result, after) = run_once an_unseal still_there works 0 a_key 0 queued_work in
    (result ≡ returned (some (exceptional dependency_failure)))
    × (Option.map (λ (x : RetentionAction). x.status) (get_elem? after.tables.actions 0)
        ≡ some exception)
    × (after.log ≡ found_available (codes "call-1") ∷ [])
unfolding is_opaque decision_of
run_once-pending_example =
    run_once-pending an_unseal still_there 0 a_key 0 queued_work (new_action a_key a_key) a_decision
      refl refl refl refl refl refl refl refl

-- A digest that gives its input.
abbrev a_hash : Text → Text
a_hash t = t

abbrev decided_tables : RetentionTables
decided_tables = record fresh_tables { decisions = λ k. some a_key; capabilities = λ k. some [] }

abbrev asset_tables : RetentionTables
asset_tables = record decided_tables {
  actions = new_action (asset_key a_hash a_key (codes "call-1") (codes "asset-1")) a_key ∷ [];
}

receive_asset_event-again_example :
    receive_asset_event a_hash a_key works (codes "call-1") (codes "asset-1") asset_tables
    ≡ (returned duplicate, asset_tables)
unfolding receive_asset_event enqueue_asset is_opaque
receive_asset_event-again_example =
    receive_asset_event-again a_hash a_key works (codes "call-1") (codes "asset-1") decided_tables
      asset_tables refl

run_once-clears_example :
    let (first, v) = run_once an_unseal gone works 0 a_key 0 queued_work in
    let (second, u) = run_once an_unseal gone works 7 a_key 0 v in
    (first ≡ returned (some delete_was_confirmed))
    × (second ≡ returned (some link_was_cleared))
    × (Option.map (λ (x : RetentionAction). x.status) (get_elem? u.tables.actions 0)
        ≡ some monday_link_cleared)
unfolding is_opaque decision_of
run_once-clears_example =
    run_once-clears an_unseal gone 0 7 a_key a_key 0 queued_work (new_action a_key a_key) deleting
      a_decision refl refl refl refl refl refl refl refl refl refl refl

abbrev other_hash : Text
other_hash = codes "0000000000000000000000000000000000000000000000000000000000000000"

abbrev event_hash : Text
event_hash = codes "eeeeeeeeeeeeeeeeeeeeeeeeeeeeeeeeeeeeeeeeeeeeeeeeeeeeeeeeeeeeeeee"

abbrev overridden_tables : RetentionTables
overridden_tables = (record_voice_auth_override works other_hash event_hash fresh_tables).1

-- The call's override is there once it is recorded.
override_recorded : has_voice_auth_override other_hash overridden_tables ≡ returned true
unfolding record_voice_auth_override has_voice_auth_override has_override has_override_event text_eq
    is_hash is_hex_unit is_digit
override_recorded = refl

-- Recorded again, it changes nothing.
override_repeated :
    record_voice_auth_override works other_hash event_hash overridden_tables
    ≡ (returned true, overridden_tables)
unfolding record_voice_auth_override has_override has_override_event text_eq is_hash is_hex_unit
    is_digit
override_repeated = refl

-- The same event for another call throws.
override_of_another_call :
    record_voice_auth_override works event_hash event_hash overridden_tables
    ≡ (thrown, overridden_tables)
unfolding record_voice_auth_override has_override has_override_event text_eq is_hash is_hex_unit
    is_digit
override_of_another_call = refl
