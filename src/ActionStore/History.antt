-- ===== src/ActionStore/History.antt =====
-- The life of the recording store among its workers: what the processes do, in any order. A process
-- that has prepared a dispatch holds its claim until it executes it, once, or is lost with it, as
-- `runOnce` of recording-action-worker.mjs does.
use air_call_demo_recording.Base.{
  ℕ, Bool, Option, List, [], ◌∷◌, ◌++◌, if◌then◌else◌, Attempt, returned, thrown,
}
use air_call_demo_recording.Base.Text.{Text}
use air_call_demo_recording.ActionStore.{
  FailureCode, Scope, Tables, Claim, disable_actions, activate, claim, prepare_dispatch,
  schedule_retry, cancel,
}
use air_call_demo_recording.ActionStore.Requests.{
  Context, Request, enqueue_approved_action, record_decision,
}
use air_call_demo_recording.ActionStore.Dispatch.{Weather, Dispatched, execute_with_dispatch_fence}

-- The tables, the claims whose dispatch is prepared, and the actions that the provider was called for.
pub record System : Type 0 where
  pub tables : Tables
  pub prepared : List Claim
  pub provider_calls : List Text

pub data Event : Type 0 where
  disabling : Event
  activating : Scope → (expires_at : ℕ) → Event
  enqueuing : (now : ℕ) → Request → Event
  denying : (now : ℕ) → (decision_key policy : Text) → Bool → Option Text → Event
  claiming : (now : ℕ) → (token key : Text) → Event
  retrying : (delay now : ℕ) → Claim → Event
  canceling : FailureCode → (now : ℕ) → Claim → Event
  preparing : (now : ℕ) → Claim → Event
  executing : Weather → Event
  losing : Event
  postponing : Event

-- The configuration of the processes.
pub record Settings : Type 0 where
  pub scope : Option Scope
  pub lease_ms : ℕ
  pub max_decision_age_ms : ℕ
  pub key_id : Text
  pub encrypt : Text → Text → Context → Text

abbrev pub with_tables : System → Tables → System
with_tables s t = record s { tables = t }

abbrev pub after_prepare : Claim → System → Attempt (Unit {0}) × Tables → System
after_prepare c s (returned _, t) = record s { tables = t; prepared = c ∷ s.prepared }
after_prepare c s (thrown, t) = record s { tables = t }

abbrev pub after_execute : Claim → List Claim → System → Dispatched → System
after_execute c rest s d = record {
  tables = d.tables;
  prepared = rest;
  provider_calls = if d.called then c.action_key ∷ s.provider_calls else s.provider_calls;
}

module _ (g : Settings) where
  abbrev pub execute_first : Weather → System → List Claim → System
  execute_first w s [] = s
  execute_first w s (c ∷ rest) =
      after_execute c rest s (execute_with_dispatch_fence g.scope w c s.tables)

  abbrev pub lose_first : System → List Claim → System
  lose_first s [] = s
  lose_first s (c ∷ rest) = record s { prepared = rest }

  abbrev pub postpone_first : System → List Claim → System
  postpone_first s [] = s
  postpone_first s (c ∷ rest) = record s { prepared = rest ++ c ∷ [] }

  unfoldable pub advance : Event → System → System
  advance disabling s = with_tables s (disable_actions s.tables)
  advance (activating scope expires_at) s = with_tables s (activate scope expires_at s.tables)
  advance (enqueuing now x) s =
      with_tables s (enqueue_approved_action g.encrypt g.key_id g.scope now x s.tables).1
  advance (denying now k p b c) s = with_tables s (record_decision now k p b c s.tables).1
  advance (claiming now token key) s =
      with_tables s (claim g.scope g.lease_ms now token key s.tables).1
  advance (retrying delay now c) s = with_tables s (schedule_retry delay now c s.tables).1
  advance (canceling reason now c) s = with_tables s (cancel reason now c s.tables).1
  advance (preparing now c) s =
      after_prepare c s (prepare_dispatch g.scope g.max_decision_age_ms now c s.tables)
  advance (executing w) s = execute_first w s s.prepared
  advance losing s = lose_first s s.prepared
  advance postponing s = postpone_first s s.prepared

  unfoldable pub advance_all : List Event → System → System
  advance_all [] s = s
  advance_all (e ∷ es) s = advance_all es (advance e s)
