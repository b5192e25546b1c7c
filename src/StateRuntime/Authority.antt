-- ===== src/StateRuntime/Authority.antt =====
-- simple-state-recording-runtime.mjs: what stands behind a pause.
use air_call_demo_recording.Base.{
  ◌≡◌, refl, ◌⊎◌, inl, inr, Bool, true, false, Option, none, some, ◌∷◌, arith, Bool-cases, and-both,
  Attempt, returned, thrown,
}
use air_call_demo_recording.Base.Text.Patterns.{is_opaque}
use air_call_demo_recording.Base.Text.{Text, codes, has}
use air_call_demo_recording.Js.{Number}
use air_call_demo_recording.ConsentResolver.Leads.{Json, text, number}
use air_call_demo_recording.StateRuntime.{
  Control, EligibleCall, eligible, classify_control_event, decides_pause, member, call_id, is_text,
  equal_token, pair_of, normalize_phone,
}
use air_call_demo_recording.StateRuntime.Lookup.{StateItem, resolve_item}
use air_call_demo_recording.StateRuntime.Handler.{
  pause_dispatching, AuditEntry, Response, dependency_failure, Outside, Runtime, pause_status,
  audited, gives, entry_of, begin_event, begin_call, pause_call, with_state, with_item,
  finish_event, after_begin, handle_event,
}
use air_call_demo_recording.StateRuntime.Once.{after_pause-Extends}

-- The text itself, or a number as it is shown.
abbrev IsGivenId : (Json → Text) → Option Json → Text → Type 0
IsGivenId show j id =
    (j ≡ some (text id)) ⊎ ((n : Number) × (j ≡ some (number n)) × (show (number n) ≡ id))

module _ (show : Json → Text) (digest : Text → Text) (states : Text → Option Bool)
    (g : Control) where
  -- An answered outbound call of the scope, under the token, while the control is enabled, that was not
  -- seen before: its id is what the event has at data.id and its phone what it has at data.raw_digits;
  -- the phone has one item of the board, whose state is one of two parties.
  pub record IsAuthorized (payload : Option Json) (o : Outside) (r s : Runtime) : Type 0 where
    pub event : Json
    pub parsed : payload ≡ some event
    pub answered_call : is_text "call.answered" (member (codes "event") (some event)) ≡ true
    pub authentic : equal_token digest (member (codes "token") (some event)) g.token ≡ true
    pub outbound :
        is_text "outbound" (member (codes "direction") (member (codes "data") (some event))) ≡ true
    pub control_enabled : g.enabled ≡ true
    pub in_scope : has g.scope (pair_of show (member (codes "data") (some event))) ≡ true
    pub call : EligibleCall
    pub id_given : IsGivenId show (member (codes "id") (member (codes "data") (some event))) call.id
    pub phone_given :
        normalize_phone (member (codes "raw_digits") (member (codes "data") (some event)))
        ≡ some call.phone_digits
    pub call_opaque : is_opaque call.id ≡ true
    pub unseen : has r.seen (digest call.id) ≡ false
    pub item : StateItem
    pub found_item : resolve_item o.query call.phone_digits ≡ returned (some item)
    pub two_parties : states item.state ≡ some false
    pub only_pause : s.pauses ≡ call.id ∷ r.pauses

  call_id-is_opaque : (j : Option Json) (id : Text) → call_id show j ≡ some id → is_opaque id ≡ true
  call_id-is_opaque j id e = ground arith

  call_id-IsGivenId : (j : Option Json) (id : Text) → call_id show j ≡ some id → IsGivenId show j id
  call_id-IsGivenId (some (text t)) id e = inl (ground arith)
  call_id-IsGivenId (some (number n)) id e = inr (n, refl, ground arith)
  call_id-IsGivenId _ id e = absurd (ground arith)

  eligible-parts :
      (i p : Option Text) (b : Bool) (call : EligibleCall)
      → eligible i p b ≡ some call
      → (i ≡ some call.id) × (p ≡ some call.phone_digits) × (b ≡ true)
  eligible-parts i p b call e = ground arith

  classify-parts :
      (event : Json) (call : EligibleCall)
      → classify_control_event show digest g event ≡ some call
      → (is_text "call.answered" (member (codes "event") (some event)) ≡ true)
        × (equal_token digest (member (codes "token") (some event)) g.token ≡ true)
        × (is_text "outbound" (member (codes "direction") (member (codes "data") (some event)))
            ≡ true)
        × (g.enabled ≡ true)
        × (has g.scope (pair_of show (member (codes "data") (some event))) ≡ true)
        × (call_id show (member (codes "id") (member (codes "data") (some event))) ≡ some call.id)
        × (normalize_phone (member (codes "raw_digits") (member (codes "data") (some event)))
            ≡ some call.phone_digits)
  unfolding classify_control_event
  classify-parts event call e =
      let (id, phone, tests) = eligible-parts _ _ _ call e in
      let (front, scope) = and-both _ _ tests in
      let (front', enabled) = and-both _ _ front in
      let (front'', outbound) = and-both _ _ front' in
      let (answered_call, authentic) = and-both _ _ front'' in
      (answered_call, authentic, outbound, enabled, scope, id, phone)

  no_pause-audited :
      (b : Bool) (e : AuditEntry) (x y : Response) (r : Runtime)
      → (audited b e (gives x) (gives y) r).1.pauses ≡ r.pauses
  no_pause-audited true e x y r = refl
  no_pause-audited false e x y r = refl

  dispatch-pauses :
      (call : EligibleCall) (state : Text) (o : Outside) (b : Bool) (r : Runtime)
      → let s =
          (audited b
            (entry_of (digest call.id) state pause_dispatching)
            (pause_call show digest states g call state o)
            (gives dependency_failure)
            (record r { seen = digest call.id ∷ r.seen })).1 in
        (s.pauses ≡ r.pauses)
        ⊎ ((◌≡◌ {A = Option Bool} (some false) (some false)) × (s.pauses ≡ call.id ∷ r.pauses))
  dispatch-pauses call state o true r = inr (
    refl,
    (after_pause-Extends show digest states g (digest call.id) state o (pause_status o.pause)
        _).same_pauses,
  )
  dispatch-pauses call state o false r = inl refl

  -- Once the call is known to be a new one, from the item found on.
  with_state-pauses :
      (call : EligibleCall) (state : Text) (p : Option Bool) (o : Outside) (r : Runtime)
      → states state ≡ p
      → let s = (with_state show digest states g call state p o r).1 in
        (s.pauses ≡ r.pauses) ⊎ ((p ≡ some false) × (s.pauses ≡ call.id ∷ r.pauses))
  unfolding decides_pause
  with_state-pauses call state none o r e = inl refl
  with_state-pauses call state (some true) o r e =
      let quiet : decides_pause states state ≡ false = rw e refl in
      inl (rw quiet (no_pause-audited o.first_audit _ _ _ r))
  with_state-pauses call state (some false) o r e =
      let pausing : decides_pause states state ≡ true = rw e refl in
      rw pausing (dispatch-pauses call state o o.first_audit r)

  with_item-pauses :
      (event : Json) (call : EligibleCall) (m : Attempt (Option StateItem)) (o : Outside)
      (r : Runtime)
      → classify_control_event show digest g event ≡ some call
      → has r.seen (digest call.id) ≡ false
      → resolve_item o.query call.phone_digits ≡ m
      → let s = (with_item show digest states g call m o r).1 in
        (s.pauses ≡ r.pauses) ⊎ IsAuthorized (some event) o r s
  with_item-pauses event call thrown o r e fresh found = inl refl
  with_item-pauses event call (returned none) o r e fresh found = inl refl
  with_item-pauses event call (returned (some item)) o r e fresh found =
      elim (with_state-pauses call item.state (states item.state) o r refl) [
        | inl same ↦ inl same
        | inr (two, more) ↦
            let (answered_call, authentic, outbound, enabled, scope, id, phone) =
              classify-parts event call e in
            inr (record {
              event = event;
              parsed = refl;
              answered_call = answered_call;
              authentic = authentic;
              outbound = outbound;
              control_enabled = enabled;
              in_scope = scope;
              call = call;
              id_given = call_id-IsGivenId _ call.id id;
              phone_given = phone;
              call_opaque = call_id-is_opaque _ call.id id;
              unseen = fresh;
              item = item;
              found_item = found;
              two_parties = two;
              only_pause = more;
            })
      ]

  begin_call-pauses :
      (event : Json) (c : Option EligibleCall) (o : Outside) (r : Runtime)
      → classify_control_event show digest g event ≡ c
      → let s =
          (after_begin show digest states g (begin_call show digest states g r.seen c) o r).1 in
        (s.pauses ≡ r.pauses) ⊎ IsAuthorized (some event) o r s
  unfolding finish_event
  begin_call-pauses event none o r e = inl refl
  begin_call-pauses event (some call) o r e = elim (Bool-cases (has r.seen (digest call.id))) [
    | inl b ↦ rw b (inl refl)
    | inr b ↦
        rw b (with_item-pauses event call (resolve_item o.query call.phone_digits) o r e b refl)
  ]

  -- However the lookup, the pause, the writer and the audits end: an event leaves the pauses as they
  -- were, or it is an answered outbound call of a user and number in the scope, under the token's digest,
  -- while the control is enabled; the call's id, which is opaque, is the text or the shown number at
  -- data.id, and its phone is the normalized data.raw_digits; the id's digest was not seen; the lookup of
  -- that phone gave one item, whose state the table has as one of two parties; and one pause is added, of
  -- that id.
  pub handle_event-IsAuthorized :
      (payload : Option Json) (o : Outside) (r : Runtime)
      → let s = (handle_event show digest states g payload o r).1 in
        (s.pauses ≡ r.pauses) ⊎ IsAuthorized payload o r s
  unfolding handle_event begin_event
  handle_event-IsAuthorized none o r = inl refl
  handle_event-IsAuthorized (some event) o r =
      begin_call-pauses event (classify_control_event show digest g event) o r refl
