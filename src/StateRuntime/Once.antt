-- ===== src/StateRuntime/Once.antt =====
-- simple-state-recording-runtime.mjs: Aircall is asked at most once to pause a call's recording, where
-- events are handled one after another.
use air_call_demo_recording.Base.{
  ℕ, ◌+◌, ◌≤◌, ◌≡◌, refl, ◌∙◌, inl, inr, Bool, true, false, Option, none, some, List, [], ◌∷◌,
  arith, if◌then◌else◌, Bool-cases, Attempt, returned, thrown,
}
use air_call_demo_recording.Base.Text.{Text, text_eq, has}
use air_call_demo_recording.Base.Text.Laws.{text_eq→eq}
use air_call_demo_recording.ConsentResolver.Leads.{Json}
use air_call_demo_recording.StateRuntime.{
  Control, EligibleCall, classify_control_event, decides_pause,
}
use air_call_demo_recording.StateRuntime.Lookup.{StateItem, resolve_item}
use air_call_demo_recording.StateRuntime.Handler.{
  PauseStatus, succeeded, outcome_unknown, failed, one_party_no_action, pause_dispatching,
  pause_ended, retention_recorded, retention_unrecorded, AuditEntry, Response, dependency_failure,
  Outside, Runtime, pause_status, audited, gives, entry_of, Begun, responded, looking_up,
  begin_event, begin_call, unrecorded, after_writer, after_pause, pause_call, with_state, with_item,
  finish_event, after_begin, handle_event, load_seen, restart, was_paused,
}

-- One event after another, and restarts of the process between them.
pub data Turn : Type 0 where
  event : Option Json → Outside → Turn
  restarting : Turn

abbrev one_if : Bool → ℕ
one_if b = if b then 1 else 0

abbrev known : Text → List Text → ℕ
known k seen = one_if (has seen k)

module _ (digest : Text → Text) where
  -- The pauses of the calls with a digest.
  unfoldable pub count_pauses : Text → List Text → ℕ
  count_pauses k [] = 0
  count_pauses k (call ∷ pauses) = one_if (text_eq (digest call) k) + count_pauses k pauses

  -- A paused call is seen, and stays so after a restart.
  record IsOnce (r : Runtime) : Type 0 where
    seen_once : (k : Text) → count_pauses k r.pauses ≤ known k r.seen
    written_once : (k : Text) → count_pauses k r.pauses ≤ known k (load_seen r.audit)

  pub record Extends (r s : Runtime) : Type 0 where
    pub same_pauses : s.pauses ≡ r.pauses
    pub same_seen : s.seen ≡ r.seen
    pub longer : (k : Text) → known k (load_seen r.audit) ≤ known k (load_seen s.audit)

  same-Extends : (r : Runtime) → Extends r r
  same-Extends r = record { same_pauses = refl; same_seen = refl; longer = λ k. omega arith }

  entry-Extends : (e : AuditEntry) (r : Runtime) → Extends r (record r { audit = e ∷ r.audit })
  unfolding load_seen has
  entry-Extends e r = record {
    same_pauses = refl;
    same_seen = refl;
    longer = λ k. longer_lem k (was_paused e.outcome);
  }
    where
      longer_lem :
          (k : Text) (b : Bool)
          → known k (load_seen r.audit)
            ≤ known k (if b then e.event_hash ∷ load_seen r.audit else load_seen r.audit)
      longer_lem k true = ground arith
      longer_lem k false = omega arith

  then-Extends : (r s u : Runtime) → Extends r s → Extends s u → Extends r u
  then-Extends r s u f g = record {
    same_pauses = g.same_pauses ∙ f.same_pauses;
    same_seen = g.same_seen ∙ f.same_seen;
    longer = λ k. omega (arith, f.longer k, g.longer k);
  }

  audited-Extends :
      (b : Bool) (e : AuditEntry) (k failing : Runtime → Response × Runtime) (r : Runtime)
      → ((s : Runtime) → Extends s (k s).1)
      → ((s : Runtime) → Extends s (failing s).1)
      → Extends r (audited b e k failing r).1
  audited-Extends true e k failing r f g =
      let s = record r { audit = e ∷ r.audit } in then-Extends r s (k s).1 (entry-Extends e r) (f s)
  audited-Extends false e k failing r f g = g r

module _ (show : Json → Text) (digest : Text → Text) (states : Text → Option Bool)
    (g : Control) where
  unrecorded-Extends :
      (hash state : Text) (o : Outside) (r : Runtime)
      → Extends digest r (unrecorded show digest states g hash state o r).1
  unrecorded-Extends hash state o r =
      audited-Extends digest o.last_audit (entry_of hash state retention_unrecorded) _ _ r
        (λ s. same-Extends digest s) (λ s. same-Extends digest s)

  after_writer-Extends :
      (hash state : Text) (o : Outside) (w : Option Bool) (r : Runtime)
      → Extends digest r (after_writer show digest states g hash state o w r).1
  after_writer-Extends hash state o none r = same-Extends digest r
  after_writer-Extends hash state o (some true) r =
      audited-Extends digest o.third_audit (entry_of hash state retention_recorded) _ _ r
        (λ s. same-Extends digest s) (λ s. unrecorded-Extends hash state o s)
  after_writer-Extends hash state o (some false) r = unrecorded-Extends hash state o r

  pub after_pause-Extends :
      (hash state : Text) (o : Outside) (p : PauseStatus) (r : Runtime)
      → Extends digest r (after_pause show digest states g hash state o p r).1
  after_pause-Extends hash state o succeeded r =
      audited-Extends digest o.second_audit (entry_of hash state (pause_ended succeeded)) _ _ r
        (λ s. after_writer-Extends hash state o o.writer s) (λ s. same-Extends digest s)
  after_pause-Extends hash state o outcome_unknown r =
      audited-Extends digest o.second_audit (entry_of hash state (pause_ended outcome_unknown)) _ _
        r (λ s. same-Extends digest s) (λ s. same-Extends digest s)
  after_pause-Extends hash state o (failed status) r =
      audited-Extends digest o.second_audit (entry_of hash state (pause_ended (failed status))) _ _
        r (λ s. same-Extends digest s) (λ s. same-Extends digest s)

  IsOnce-Extends : (r s : Runtime) → IsOnce digest r → Extends digest r s → IsOnce digest s
  IsOnce-Extends r s h e = record {
    seen_once = λ k. rw (e.same_pauses, e.same_seen) (h.seen_once k);
    written_once = λ k. rw e.same_pauses (omega (arith, h.written_once k, e.longer k));
  }

  -- A call that was not seen is written, seen and paused.
  pause-IsOnce :
      (call state : Text) (r : Runtime)
      → IsOnce digest r
      → has r.seen (digest call) ≡ false
      → IsOnce digest (record {
        seen = digest call ∷ r.seen;
        audit = entry_of (digest call) state pause_dispatching ∷ r.audit;
        pauses = call ∷ r.pauses;
      })
  unfolding count_pauses has load_seen
  pause-IsOnce call state r h fresh = record {
    seen_once =
        λ k. ground (arith, h.seen_once k, h.seen_once (digest call), text_eq→eq (digest call) k);
    written_once = λ k.
        ground (arith, h.written_once k, h.seen_once (digest call), text_eq→eq (digest call) k);
  }

  seen-IsOnce :
      (t : Text) (r : Runtime) → IsOnce digest r → IsOnce digest (record r { seen = t ∷ r.seen })
  unfolding has
  seen-IsOnce t r h = record {
    seen_once = λ k. ground (arith, h.seen_once k);
    written_once = h.written_once;
  }

  pausing-IsOnce :
      (call : EligibleCall) (state : Text) (o : Outside) (b : Bool) (r : Runtime)
      → IsOnce digest r
      → has r.seen (digest call.id) ≡ false
      → IsOnce digest
          (audited b
            (entry_of (digest call.id) state pause_dispatching)
            (pause_call show digest states g call state o)
            (gives dependency_failure)
            (record r { seen = digest call.id ∷ r.seen })).1
  pausing-IsOnce call state o true r h fresh =
      IsOnce-Extends _ _ (pause-IsOnce call.id state r h fresh)
        (after_pause-Extends (digest call.id) state o (pause_status o.pause) _)
  pausing-IsOnce call state o false r h fresh = seen-IsOnce (digest call.id) r h

  with_state-IsOnce :
      (call : EligibleCall) (state : Text) (p : Option Bool) (o : Outside) (r : Runtime)
      → IsOnce digest r
      → has r.seen (digest call.id) ≡ false
      → IsOnce digest (with_state show digest states g call state p o r).1
  with_state-IsOnce call state none o r h fresh = h
  with_state-IsOnce call state (some p) o r h fresh =
      elim (Bool-cases (decides_pause states state)) [
        | inl b ↦ rw b (pausing-IsOnce call state o o.first_audit r h fresh)
        | inr b ↦ rw b (
            IsOnce-Extends _ _ h (
              audited-Extends digest o.first_audit
                (entry_of (digest call.id) state one_party_no_action) _ _ r
                (λ s. same-Extends digest s) (λ s. same-Extends digest s)))
      ]

  with_item-IsOnce :
      (call : EligibleCall) (m : Attempt (Option StateItem)) (o : Outside) (r : Runtime)
      → IsOnce digest r
      → has r.seen (digest call.id) ≡ false
      → IsOnce digest (with_item show digest states g call m o r).1
  with_item-IsOnce call thrown o r h fresh = h
  with_item-IsOnce call (returned none) o r h fresh = h
  with_item-IsOnce call (returned (some item)) o r h fresh =
      with_state-IsOnce call item.state (states item.state) o r h fresh

  begin_call-fresh :
      (seen : List Text) (e : Option EligibleCall) (call : EligibleCall)
      → begin_call show digest states g seen e ≡ looking_up call
      → has seen (digest call.id) ≡ false
  begin_call-fresh seen none call h = cc
  begin_call-fresh seen (some c) call h = ground arith

  begin_event-fresh :
      (r : Runtime) (payload : Option Json) (call : EligibleCall)
      → begin_event show digest states g r payload ≡ looking_up call
      → has r.seen (digest call.id) ≡ false
  unfolding begin_event
  begin_event-fresh r none call h = cc
  begin_event-fresh r (some payload) call h =
      begin_call-fresh r.seen (classify_control_event show digest g payload) call h

  after_begin-IsOnce :
      (r : Runtime) (payload : Option Json) (o : Outside) (b : Begun)
      → begin_event show digest states g r payload ≡ b
      → IsOnce digest r
      → IsOnce digest (after_begin show digest states g b o r).1
  unfolding finish_event
  after_begin-IsOnce r payload o (responded response) e h = h
  after_begin-IsOnce r payload o (looking_up call) e h =
      with_item-IsOnce call (resolve_item o.query call.phone_digits) o r h
        (begin_event-fresh r payload call e)

  unfoldable pub take_turn : Turn → Runtime → Runtime
  take_turn (event payload o) r = (handle_event show digest states g payload o r).1
  take_turn restarting r = restart r

  unfoldable pub take_turns : List Turn → Runtime → Runtime
  take_turns [] r = r
  take_turns (turn ∷ turns) r = take_turns turns (take_turn turn r)

  take_turn-IsOnce :
      (turn : Turn) (r : Runtime) → IsOnce digest r → IsOnce digest (take_turn turn r)
  unfolding take_turn handle_event restart
  take_turn-IsOnce (event payload o) r h = after_begin-IsOnce r payload o _ refl h
  take_turn-IsOnce restarting r h = record {
    seen_once = h.written_once;
    written_once = h.written_once;
  }

  take_turns-IsOnce :
      (turns : List Turn) (r : Runtime) → IsOnce digest r → IsOnce digest (take_turns turns r)
  unfolding take_turns
  take_turns-IsOnce [] r h = h
  take_turns-IsOnce (turn ∷ turns) r h =
      take_turns-IsOnce turns (take_turn turn r) (take_turn-IsOnce turn r h)

  known-le-one : (k : Text) (seen : List Text) → known k seen ≤ 1
  known-le-one k seen = ground arith

  -- Whatever events come, however their lookups, pauses, writers and audits end, and however often the
  -- process starts again on its audit file, as long as one event is handled after another: from no
  -- pause, Aircall is asked at most once to pause the recordings of the calls with one digest.
  pub count_pauses-take_turns :
      (turns : List Turn) (r : Runtime)
      → r.pauses ≡ []
      → (k : Text) → count_pauses digest k (take_turns turns r).pauses ≤ 1
  unfolding count_pauses
  count_pauses-take_turns turns r fresh k =
      let once = take_turns-IsOnce turns r (record {
        seen_once = λ j. rw fresh (omega arith);
        written_once = λ j. rw fresh (omega arith);
      }) in
      omega (arith, once.seen_once k, known-le-one k (take_turns turns r).seen)
