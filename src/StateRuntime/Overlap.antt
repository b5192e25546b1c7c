-- ===== src/StateRuntime/Overlap.antt =====
-- simple-state-recording-runtime.mjs: two deliveries of one event whose handling overlaps. Both are
-- tested against `seen` before either lookup ends, and neither is tested again.
use air_call_demo_recording.Base.{
  ◌≡◌, refl, ap, ◌∙◌, Bool, true, false, Option, none, some, ◌∷◌, arith, returned,
}
use air_call_demo_recording.Base.Text.{Text}
use air_call_demo_recording.ConsentResolver.Leads.{Json}
use air_call_demo_recording.StateRuntime.{Control, EligibleCall, decides_pause}
use air_call_demo_recording.StateRuntime.Lookup.{StateItem, resolve_item}
use air_call_demo_recording.StateRuntime.Handler.{
  pause_dispatching, dependency_failure, Outside, Runtime, pause_status, audited, gives, entry_of,
  looking_up, begin_event, pause_call, with_state, finish_event,
}
use air_call_demo_recording.StateRuntime.Once.{after_pause-Extends}

module _ (show : Json → Text) (digest : Text → Text) (states : Text → Option Bool)
    (g : Control) where
  dispatch-pauses :
      (call : EligibleCall) (state : Text) (o : Outside) (b : Bool) (r : Runtime)
      → b ≡ true
      → (audited b
          (entry_of (digest call.id) state pause_dispatching)
          (pause_call show digest states g call state o)
          (gives dependency_failure)
          (record r { seen = digest call.id ∷ r.seen })).1.pauses
        ≡ call.id ∷ r.pauses
  dispatch-pauses call state o true r e =
      (after_pause-Extends show digest states g (digest call.id) state o (pause_status o.pause)
        _).same_pauses
  dispatch-pauses call state o false r e = cc

  with_state-pauses :
      (call : EligibleCall) (state : Text) (p : Option Bool) (o : Outside) (r : Runtime)
      → states state ≡ p
      → p ≡ some false
      → o.first_audit ≡ true
      → (with_state show digest states g call state p o r).1.pauses ≡ call.id ∷ r.pauses
  unfolding decides_pause
  with_state-pauses call state none o r e two written = cc
  with_state-pauses call state (some true) o r e two written = absurd (ground arith)
  with_state-pauses call state (some false) o r e two written =
      let pausing : decides_pause states state ≡ true = rw e refl in
      rw pausing (dispatch-pauses call state o o.first_audit r written)

  finish_event-pauses :
      (call : EligibleCall) (item : StateItem) (o : Outside) (r : Runtime)
      → resolve_item o.query call.phone_digits ≡ returned (some item)
      → states item.state ≡ some false
      → o.first_audit ≡ true
      → (finish_event show digest states g call o r).1.pauses ≡ call.id ∷ r.pauses
  unfolding finish_event
  finish_event-pauses call item o r found two written =
      rw found (with_state-pauses call item.state (states item.state) o r refl two written)

  -- Two deliveries of an eligible event that was not seen, whose phone has one item of a state of two
  -- parties, begun before either is finished, while the audit file can be written: Aircall is asked
  -- twice to pause the recording of the call.
  pub finish_event-twice :
      (payload : Option Json) (call : EligibleCall) (item : StateItem) (o : Outside) (r : Runtime)
      → begin_event show digest states g r payload ≡ looking_up call
      → resolve_item o.query call.phone_digits ≡ returned (some item)
      → states item.state ≡ some false
      → o.first_audit ≡ true
      → let first = (finish_event show digest states g call o r).1 in
        (finish_event show digest states g call o first).1.pauses ≡ call.id ∷ call.id ∷ r.pauses
  finish_event-twice payload call item o r begun found two written =
      finish_event-pauses call item o _ found two written
      ∙ ap (λ pauses. call.id ∷ pauses) (finish_event-pauses call item o r found two written)
