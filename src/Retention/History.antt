-- ===== src/Retention/History.antt =====
-- The retention store among its workers and receivers: what the processes do, in any order. A worker
-- that has claimed an action holds its claim until it acts on it, once, or is lost with it. Acting,
-- from the claim to the outcome, is taken as one event.
use air_call_demo_recording.Base.{
  ℕ, Option, none, some, List, [], ◌∷◌, ◌++◌, Attempt, returned, thrown,
}
use air_call_demo_recording.Base.Text.{Text}
use air_call_demo_recording.ConsentStore.{Connection}
use air_call_demo_recording.Retention.{
  RetentionDecision, RetentionTables, record_decision, enqueue_asset, record_voice_auth_override,
}
use air_call_demo_recording.Retention.Actions.{RetentionClaim, claim_next}
use air_call_demo_recording.Retention.Finalizer.{Outside, Work, act}

-- The tables, the calls of Aircall and of Monday, the last first, and the claims that workers hold.
pub record System : Type 0 where
  pub work : Work
  pub claims : List RetentionClaim

pub data Event : Type 0 where
  recording : Connection → (correlation call_key : Text) → RetentionDecision → Event
  enqueuing : Connection → (asset call_key : Text) → Event
  overriding : Connection → (call_key event_key : Text) → Event
  claiming : Connection → (now : ℕ) → (token : Text) → (id : ℕ) → Event
  acting : Outside → Event
  losing : Event
  postponing : Event

abbrev pub with_tables : System → RetentionTables → System
with_tables s t = record s { work = record s.work { tables = t } }

abbrev pub after_claiming : System → Attempt (Option RetentionClaim) × RetentionTables → System
after_claiming s (returned (some a), t) = record {
  work = record s.work { tables = t };
  claims = a ∷ s.claims;
}
after_claiming s (returned none, t) = with_tables s t
after_claiming s (thrown, t) = with_tables s t

abbrev pub act_first : Outside → System → List RetentionClaim → System
act_first o s [] = s
act_first o s (a ∷ rest) = record { work = (act o a s.work).1; claims = rest }

abbrev pub lose_first : System → List RetentionClaim → System
lose_first s [] = s
lose_first s (a ∷ rest) = record s { claims = rest }

abbrev pub postpone_first : System → List RetentionClaim → System
postpone_first s [] = s
postpone_first s (a ∷ rest) = record s { claims = rest ++ a ∷ [] }

module _ (seal : Text → RetentionDecision → Text)
    (unseal : Text → Text → Option RetentionDecision) where
  unfoldable pub advance : Event → System → System
  advance (recording c correlation call_key d) s =
      with_tables s (record_decision seal c correlation call_key d s.work.tables).1
  advance (enqueuing c asset call_key) s =
      with_tables s (enqueue_asset c asset call_key s.work.tables).1
  advance (overriding c call_key event_key) s =
      with_tables s (record_voice_auth_override c call_key event_key s.work.tables).1
  advance (claiming c now token id) s =
      after_claiming s (claim_next unseal c now token id s.work.tables)
  advance (acting o) s = act_first o s s.claims
  advance losing s = lose_first s s.claims
  advance postponing s = postpone_first s s.claims

  unfoldable pub advance_all : List Event → System → System
  advance_all [] s = s
  advance_all (e ∷ es) s = advance_all es (advance e s)
