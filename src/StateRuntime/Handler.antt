-- ===== src/StateRuntime/Handler.antt =====
-- simple-state-recording-runtime.mjs: `createServer`'s handler of one event, in its three parts: up to
-- the lookup, from the lookup to the call of Aircall, and after it. The lines of the audit file are
-- its entries; an Outside says how the calls of one event end.
use air_call_demo_recording.Base.{
  ℕ, Bool, true, false, ◌&&◌, Option, none, some, List, [], ◌∷◌, ◌++◌, leb, if◌then◌else◌, length,
  Attempt, returned, thrown,
}
use air_call_demo_recording.Base.Text.{Text, has}
use air_call_demo_recording.Js.{Number, natural}
use air_call_demo_recording.ConsentResolver.Leads.{Json}
use air_call_demo_recording.StateRuntime.{
  Control, EligibleCall, classify_control_event, decides_pause,
}
use air_call_demo_recording.StateRuntime.Lookup.{BoardItem, StateItem, resolve_item}

pub data FailureStatus : Type 0 where
  http : ℕ → FailureStatus
  invalid_status : FailureStatus

pub data PauseStatus : Type 0 where
  succeeded outcome_unknown : PauseStatus
  failed : FailureStatus → PauseStatus

pub data AuditOutcome : Type 0 where
  one_party_no_action pause_dispatching : AuditOutcome
  pause_ended : PauseStatus → AuditOutcome
  retention_recorded retention_unrecorded : AuditOutcome

pub record AuditEntry : Type 0 where
  pub event_hash : Text
  pub state : Text
  pub outcome : AuditOutcome

pub data Response : Type 0 where
  left_disabled duplicate no_policy_action no_action : Response
  pause_failed : PauseStatus → Response
  paused paused_unrecorded dependency_failure : Response

-- What `fetch` gives for the pause: nothing, or a response with its status.
pub data PauseAnswer : Type 0 where
  no_answer : PauseAnswer
  answered : (ok : Bool) → (status : Number) → PauseAnswer

-- How the calls of one event end; `writer` is none where no answer-time writer is configured.
pub record Outside : Type 0 where
  pub query : Text → Text → Attempt (List BoardItem)
  pub first_audit : Bool
  pub pause : PauseAnswer
  pub second_audit : Bool
  pub writer : Option Bool
  pub third_audit : Bool
  pub last_audit : Bool

-- `seen`, the audit file, and the calls whose recording Aircall was asked to pause, the last first.
pub record Runtime : Type 0 where
  pub seen : List Text
  pub audit : List AuditEntry
  pub pauses : List Text

abbrev is_error_status : Number → PauseStatus
is_error_status (natural n) =
    if leb 400 n && leb n 599 then failed (http n) else failed invalid_status
is_error_status _ = failed invalid_status

-- `applyPause`
unfoldable pub pause_status : PauseAnswer → PauseStatus
pause_status no_answer = outcome_unknown
pause_status (answered true status) = succeeded
pause_status (answered false status) = is_error_status status

-- `audit`, and what follows it, or what follows its error.
abbrev pub audited {ℓ} :
    {A : Type ℓ} → Bool → AuditEntry → (Runtime → A) → (Runtime → A) → Runtime → A
audited true entry k failing r = k (record r { audit = entry ∷ r.audit })
audited false entry k failing r = failing r

abbrev pub gives : Response → Runtime → Response × Runtime
gives response r = (response, r)

abbrev pub entry_of : Text → Text → AuditOutcome → AuditEntry
entry_of hash state outcome = record { event_hash = hash; state = state; outcome = outcome }

-- Up to the lookup: the call to look up, or the response.
pub data Begun : Type 0 where
  responded : Response → Begun
  looking_up : EligibleCall → Begun

module _ (show : Json → Text) (digest : Text → Text) (states : Text → Option Bool)
    (g : Control) where
  abbrev pub begin_call : List Text → Option EligibleCall → Begun
  begin_call seen none = responded left_disabled
  begin_call seen (some call) =
      if has seen (digest call.id) then responded duplicate else looking_up call

  abbrev begin_payload : List Text → Option Json → Begun
  begin_payload seen none = responded dependency_failure
  begin_payload seen (some payload) = begin_call seen (classify_control_event show digest g payload)

  unfoldable pub begin_event : Runtime → Option Json → Begun
  begin_event r payload = begin_payload r.seen payload

  -- The catch of the answer-time writer.
  abbrev pub unrecorded : Text → Text → Outside → Runtime → Response × Runtime
  unrecorded hash state o r =
      audited o.last_audit (entry_of hash state retention_unrecorded) (gives paused_unrecorded)
        (gives dependency_failure) r

  abbrev pub after_writer : Text → Text → Outside → Option Bool → Runtime → Response × Runtime
  after_writer hash state o none r = (paused, r)
  after_writer hash state o (some true) r =
      audited o.third_audit (entry_of hash state retention_recorded) (gives paused)
        (unrecorded hash state o) r
  after_writer hash state o (some false) r = unrecorded hash state o r

  abbrev pub after_pause : Text → Text → Outside → PauseStatus → Runtime → Response × Runtime
  after_pause hash state o succeeded r =
      audited o.second_audit (entry_of hash state (pause_ended succeeded))
        (after_writer hash state o o.writer) (gives dependency_failure) r
  after_pause hash state o status r =
      audited o.second_audit (entry_of hash state (pause_ended status))
        (gives (pause_failed status)) (gives dependency_failure) r

  -- The call of Aircall and what follows it.
  abbrev pub pause_call : EligibleCall → Text → Outside → Runtime → Response × Runtime
  pause_call call state o r =
      after_pause (digest call.id) state o (pause_status o.pause)
        (record r { pauses = call.id ∷ r.pauses })

  abbrev pub with_state : EligibleCall → Text → Option Bool → Outside → Runtime → Response × Runtime
  with_state call state none o r = (no_policy_action, r)
  with_state call state (some one_party) o r =
      if decides_pause states state
      then audited o.first_audit (entry_of (digest call.id) state pause_dispatching)
          (pause_call call state o) (gives dependency_failure)
          (record r { seen = digest call.id ∷ r.seen })
      else audited o.first_audit (entry_of (digest call.id) state one_party_no_action)
          (gives no_action) (gives dependency_failure) r

  abbrev pub with_item :
      EligibleCall → Attempt (Option StateItem) → Outside → Runtime → Response × Runtime
  with_item call thrown o r = (dependency_failure, r)
  with_item call (returned none) o r = (no_policy_action, r)
  with_item call (returned (some item)) o r = with_state call item.state (states item.state) o r

  -- From the lookup on. Other events may come between this and the part before.
  unfoldable pub finish_event : EligibleCall → Outside → Runtime → Response × Runtime
  finish_event call o r = with_item call (resolve_item o.query call.phone_digits) o r

  abbrev pub after_begin : Begun → Outside → Runtime → Response × Runtime
  after_begin (responded response) o r = (response, r)
  after_begin (looking_up call) o r = finish_event call o r

  -- An event that is handled from its beginning to its end with no other between.
  unfoldable pub handle_event : Option Json → Outside → Runtime → Response × Runtime
  handle_event payload o r = after_begin (begin_event r payload) o r

abbrev pub was_paused : AuditOutcome → Bool
was_paused pause_dispatching = true
was_paused (pause_ended succeeded) = true
was_paused (pause_ended outcome_unknown) = true
was_paused _ = false

-- `loadSeen`
unfoldable pub load_seen : List AuditEntry → List Text
load_seen [] = []
load_seen (e ∷ entries) =
    let rest = load_seen entries in if was_paused e.outcome then e.event_hash ∷ rest else rest

-- A process that starts on the audit file of the one before.
unfoldable pub restart : Runtime → Runtime
restart r = record r { seen = load_seen r.audit }

abbrev pub body_bytes : List (List ℕ) → List ℕ
body_bytes [] = []
body_bytes (chunk ∷ chunks) = chunk ++ body_bytes chunks

-- `readBody`, and the parsing of the body; none where either throws.
unfoldable pub read_payload : (List ℕ → Option Json) → List (List ℕ) → Option Json
read_payload parse chunks =
    if leb (length (body_bytes chunks)) 131072 then parse (body_bytes chunks) else none
