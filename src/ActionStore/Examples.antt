-- ===== src/ActionStore/Examples.antt =====
-- postgres-recording-action-store.mjs: an action that is enqueued, claimed and dispatched.
use air_call_demo_recording.Base.{
  ◌≤◌, ◌≡◌, refl, true, false, none, some, List, [], ◌∷◌, ◌++◌, arith,
}
use air_call_demo_recording.Base.Text.{Text, codes, text_eq}
use air_call_demo_recording.Base.Text.Patterns.{
  is_opaque, is_opaque_unit, is_alnum, is_digit, is_phone, is_hash, is_hex_unit, is_correlation,
}
use air_call_demo_recording.ActionStore.{Scope, Claim, active, activate, claim, prepare_dispatch}
use air_call_demo_recording.ActionStore.Requests.{
  Request, int_in, safe_context, safe_request, enqueue_approved_action,
}
use air_call_demo_recording.ActionStore.Dispatch.{Weather, committed, execute_with_dispatch_fence}
use air_call_demo_recording.ActionStore.History.{
  System, Event, disabling, activating, enqueuing, claiming, preparing, executing, Settings,
  advance, advance_all,
}
use air_call_demo_recording.ActionStore.OnceOnly.{count_calls, budget, count_calls-advance_all}
use air_call_demo_recording.ActionStore.KillSwitch.{disable_actions-revokes}

abbrev hex_digits : Text
hex_digits = codes "0123456789abcdef0123456789abcdef0123456789abcdef0123456789abcdef"

abbrev scope : Scope
scope = record {
  deployment_hash = hex_digits;
  policy_hash = hex_digits;
  pilot_hash = hex_digits;
  consent_column_hash = hex_digits;
}

abbrev settings : Settings
settings = record {
  scope = some scope;
  lease_ms = 30000;
  max_decision_age_ms = 120000;
  key_id = codes "active";
  encrypt = λ aad nonce c. aad ++ nonce;
}

abbrev fresh : System
fresh = record {
  tables = record {
    control = record { actions_enabled = false; control_epoch = 0 };
    activations = λ k. none;
    decisions = λ k. none;
    outbox = λ k. none;
    capabilities = λ k. none;
  };
  prepared = [];
  provider_calls = [];
}

abbrev request : Request
request = record {
  action_key_hash = hex_digits;
  target_key_hash = hex_digits;
  decision_key_hash = hex_digits;
  policy_key_hash = hex_digits;
  evidence_digest = hex_digits;
  approved = true;
  is_resume_recording = true;
  context = record {
    call_id = codes "call1";
    phone_digits = codes "4045550100";
    item_id = codes "lead1";
    evidence_digest = hex_digits;
  };
  correlation = none;
  max_attempts = none;
  capability_ttl_ms = none;
}

abbrev first_claim : Claim
first_claim = record { action_key = hex_digits; lease_token = codes "t1"; control_epoch = 1 }

abbrev until_prepared : List Event
until_prepared =
    activating scope 1000000
    ∷ enqueuing 5 request
    ∷ claiming 6 (codes "t1") hex_digits
    ∷ preparing 7 first_claim
    ∷ []

abbrev calm : Weather
calm = record { now = 8; provider_returns = true; ending = committed }

abbrev dispatch_events : List Event
dispatch_events = until_prepared ++ executing calm ∷ preparing 9 first_claim ∷ []

-- The provider is called in this history.
called_once : count_calls hex_digits (advance_all settings dispatch_events fresh).provider_calls ≡ 1
unfolding count_calls advance_all advance activate active enqueue_approved_action safe_request
    safe_context int_in claim prepare_dispatch execute_with_dispatch_fence is_opaque is_opaque_unit
    is_alnum is_digit is_phone is_hash is_hex_unit is_correlation text_eq
called_once = refl

count_calls-advance_all_example :
    (count_calls hex_digits (advance_all settings dispatch_events fresh).provider_calls ≤ 1)
    × (count_calls hex_digits (advance_all settings dispatch_events fresh).provider_calls
        ≤ budget ((advance_all settings dispatch_events fresh).tables.outbox hex_digits))
count_calls-advance_all_example =
    count_calls-advance_all settings dispatch_events fresh ((λ k. refl), refl, refl) hex_digits

epoch_run : 1 ≤ (advance_all settings until_prepared fresh).tables.control.control_epoch
unfolding advance_all advance activate active enqueue_approved_action safe_request safe_context
    int_in claim prepare_dispatch execute_with_dispatch_fence is_opaque is_opaque_unit is_alnum
    is_digit is_phone is_hash is_hex_unit is_correlation text_eq
epoch_run = omega arith

disable_actions-revokes_example :
    (execute_with_dispatch_fence
      (some scope)
      calm
      first_claim
      (advance_all settings
        (disabling ∷ activating scope 1000000 ∷ [])
        (advance_all settings until_prepared fresh)).tables).called
    ≡ false
disable_actions-revokes_example =
    disable_actions-revokes settings (advance_all settings until_prepared fresh) first_claim
      (activating scope 1000000 ∷ []) calm epoch_run
