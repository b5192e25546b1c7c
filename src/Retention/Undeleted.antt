-- ===== src/Retention/Undeleted.antt =====
-- two-party-retention-finalizer.mjs over postgres-two-party-retention-store.mjs: whether a recording
-- is deleted. A claim takes a pending action to `deleting`, which it tells the worker as
-- `delete_requested`.
use air_call_demo_recording.Base.{
  ℕ, ◌≡◌, refl, Bool, true, false, not, ◌&&◌, ◌||◌, Option, none, some, List, [], ◌∷◌, ◌++◌, arith,
  get_elem?, Attempt, returned, thrown,
}
use mathlib.Core.Option
use air_call_demo_recording.Base.Text.{Text}
use air_call_demo_recording.Base.Text.Laws.{text_eq_refl}
use air_call_demo_recording.Base.Text.Patterns.{is_opaque}
use air_call_demo_recording.ConsentStore.{Connection, works}
use air_call_demo_recording.Retention.{
  RetentionStatus, delete_pending, deleting, delete_requested, exception, RetentionDecision,
  RetentionAction, RetentionTables, dependency_failure,
}
use air_call_demo_recording.Retention.Actions.{
  RetentionClaim, claim_next, get_elem?-set_elem, decision_of, lease_free, mark_exception,
  transition, claimed_row, excepted_row, with_action,
}
use air_call_demo_recording.Retention.Finalizer.{
  RemoteCall, delete_recording, found_available, Outside, Work, act, run_once, fail, exceptional,
}
use air_call_demo_recording.Retention.History.{
  System, Event, recording, enqueuing, overriding, claiming, acting, losing, postponing, advance,
  advance_all, act_first, lose_first, postpone_first, after_claiming,
}
use air_call_demo_recording.Base.{
  ℕ, ◌≡◌, refl, Bool, true, false, not, ◌&&◌, ◌||◌, Option, none, some, List, [], ◌∷◌, ◌++◌, arith,
  get_elem?, Attempt, returned, thrown,
}

abbrev is_deletion : RemoteCall → Bool
is_deletion (delete_recording _) = true
is_deletion _ = false

-- Whether Aircall was asked to delete a recording.
unfoldable pub asked_deletion : List RemoteCall → Bool
asked_deletion [] = false
asked_deletion (call ∷ log) = is_deletion call || asked_deletion log

abbrev pub is_pending : RetentionStatus → Bool
is_pending delete_pending = true
is_pending _ = false

unfoldable pub none_pending : List RetentionClaim → Bool
none_pending [] = true
none_pending (a ∷ claims) = not (is_pending a.status) && none_pending claims

act-asked :
    (o : Outside) (a : RetentionClaim) (w : Work)
    → is_pending a.status ≡ false
    → asked_deletion (act o a w).1.log ≡ asked_deletion w.log
unfolding act asked_deletion fail
act-asked o a w h = ground arith

claim-pending :
    (unseal : Text → Text → Option RetentionDecision) (c : Connection) (now : ℕ) (token : Text)
    (id : ℕ) (t u : RetentionTables) (a : RetentionClaim)
    → claim_next unseal c now token id t ≡ (returned (some a), u)
    → is_pending a.status ≡ false
unfolding claim_next
claim-pending unseal c now token id t u a e = ground arith

none_pending-append :
    (claims : List RetentionClaim) (a : RetentionClaim)
    → none_pending (claims ++ a ∷ []) ≡ none_pending (a ∷ claims)
unfolding none_pending
none_pending-append [] a = refl
none_pending-append (b ∷ claims) a = ground (arith, none_pending-append claims a)

-- Nobody was asked for a deletion, and no claim in hand will ask for one.
record IsIdle (s : System) : Type 0 where
  silent : asked_deletion s.work.log ≡ false
  unasked : none_pending s.claims ≡ true

act_first-IsIdle :
    (o : Outside) (s : System) (claims : List RetentionClaim)
    → asked_deletion s.work.log ≡ false
    → none_pending claims ≡ true
    → none_pending s.claims ≡ true
    → IsIdle (act_first o s claims)
unfolding none_pending
act_first-IsIdle o s [] h k l = record { silent = h; unasked = l }
act_first-IsIdle o s (a ∷ rest) h k l = record {
  silent = ground (arith, act-asked o a s.work);
  unasked = ground arith;
}

lose_first-IsIdle :
    (s : System) (claims : List RetentionClaim)
    → asked_deletion s.work.log ≡ false
    → none_pending claims ≡ true
    → none_pending s.claims ≡ true
    → IsIdle (lose_first s claims)
unfolding none_pending
lose_first-IsIdle s [] h k l = record { silent = h; unasked = l }
lose_first-IsIdle s (a ∷ rest) h k l = record { silent = h; unasked = ground arith }

postpone_first-IsIdle :
    (s : System) (claims : List RetentionClaim)
    → asked_deletion s.work.log ≡ false
    → none_pending claims ≡ true
    → none_pending s.claims ≡ true
    → IsIdle (postpone_first s claims)
postpone_first-IsIdle s [] h k l = record { silent = h; unasked = l }
postpone_first-IsIdle s (a ∷ rest) h k l = record {
  silent = h;
  unasked = rw (none_pending-append rest a) k;
}

module _ (seal : Text → RetentionDecision → Text)
    (unseal : Text → Text → Option RetentionDecision) where
  after_claiming-IsIdle :
      (c : Connection) (now : ℕ) (token : Text) (id : ℕ) (s : System)
      → IsIdle s
      → (r : Attempt (Option RetentionClaim) × RetentionTables)
      → claim_next unseal c now token id s.work.tables ≡ r
      → IsIdle (after_claiming s r)
  unfolding none_pending
  after_claiming-IsIdle c now token id s h (returned (some a), t) e = record {
    silent = h.silent;
    unasked = ground (arith, claim-pending unseal c now token id s.work.tables t a e);
  }
  after_claiming-IsIdle c now token id s h (returned none, t) e = record {
    silent = h.silent;
    unasked = h.unasked;
  }
  after_claiming-IsIdle c now token id s h (thrown, t) e = record {
    silent = h.silent;
    unasked = h.unasked;
  }

  advance-IsIdle : (e : Event) (s : System) → IsIdle s → IsIdle (advance seal unseal e s)
  unfolding advance
  advance-IsIdle (recording c k j d) s h = record { silent = h.silent; unasked = h.unasked }
  advance-IsIdle (enqueuing c a k) s h = record { silent = h.silent; unasked = h.unasked }
  advance-IsIdle (overriding c k e) s h = record { silent = h.silent; unasked = h.unasked }
  advance-IsIdle (claiming c now token id) s h = after_claiming-IsIdle c now token id s h _ refl
  advance-IsIdle (acting o) s h = act_first-IsIdle o s s.claims h.silent h.unasked h.unasked
  advance-IsIdle losing s h = lose_first-IsIdle s s.claims h.silent h.unasked h.unasked
  advance-IsIdle postponing s h = postpone_first-IsIdle s s.claims h.silent h.unasked h.unasked

  advance_all-IsIdle :
      (es : List Event) (s : System) → IsIdle s → IsIdle (advance_all seal unseal es s)
  unfolding advance_all
  advance_all-IsIdle [] s h = h
  advance_all-IsIdle (e ∷ es) s h =
      advance_all-IsIdle es (advance seal unseal e s) (advance-IsIdle e s h)

  -- From a system that has called nobody and holds no claim, whatever decisions, assets and workers
  -- come, and however their calls end: Aircall is never asked to delete a recording.
  pub asked_deletion-advance_all :
      (es : List Event) (s : System)
      → s.work.log ≡ []
      → s.claims ≡ []
      → asked_deletion (advance_all seal unseal es s).work.log ≡ false
  unfolding asked_deletion none_pending
  asked_deletion-advance_all es s silent idle =
      (advance_all-IsIdle es s (record { silent = rw silent; unasked = rw idle })).silent

-- A pending action under its claim, and what comes of it when the recording is still there.
claim_next-pending :
    (unseal : Text → Text → Option RetentionDecision) (now : ℕ) (token : Text) (id : ℕ)
    (t : RetentionTables) (r : RetentionAction) (d : RetentionDecision)
    → get_elem? t.actions id ≡ some r
    → is_pending r.status ≡ true
    → lease_free r.lease_expires_at now ≡ true
    → decision_of unseal t r ≡ some d
    → claim_next unseal works now token id t ≡ (
      returned (
          some (record {
            id = id;
            status = delete_requested;
            provider_call_id = d.provider_call_id;
            calls_item_id = d.calls_item_id;
            lease_token = token;
          })),
      with_action t id (claimed_row r deleting token now),
    )
unfolding claim_next
claim_next-pending unseal now token id t r d found pending free opened = rw found (ground arith)

act-there :
    (o : Outside) (a : RetentionClaim) (w : Work) (r : RetentionAction)
    → get_elem? w.tables.actions a.id ≡ some r
    → r.status ≡ deleting
    → r.lease_token ≡ some a.lease_token
    → a.status ≡ delete_requested
    → is_opaque a.provider_call_id ≡ true
    → is_opaque a.calls_item_id ≡ true
    → o.unavailable ≡ returned false
    → o.at_exception ≡ works
    → act o a w ≡ (
      returned (exceptional dependency_failure),
      record {
        tables = with_action w.tables a.id (excepted_row r dependency_failure);
        log = found_available a.provider_call_id ∷ w.log;
      },
    )
unfolding act fail mark_exception transition
act-there o a w r found status token told call item there stored =
    ground (arith, text_eq_refl a.lease_token)

-- A run that picks an action in `delete_pending` whose lease is free and whose capability opens, with
-- an opaque call and item, while the recording is still there and the statements work: the outcome is
-- the exception `dependency_failure`, the action ends in `exception`, and the only call is the lookup.
pub run_once-pending :
    (unseal : Text → Text → Option RetentionDecision) (o : Outside) (now : ℕ) (token : Text)
    (id : ℕ) (w : Work) (r : RetentionAction) (d : RetentionDecision)
    → get_elem? w.tables.actions id ≡ some r
    → is_pending r.status ≡ true
    → lease_free r.lease_expires_at now ≡ true
    → decision_of unseal w.tables r ≡ some d
    → is_opaque d.provider_call_id ≡ true
    → is_opaque d.calls_item_id ≡ true
    → o.unavailable ≡ returned false
    → o.at_exception ≡ works
    → let (result, after) = run_once unseal o works now token id w in
      (result ≡ returned (some (exceptional dependency_failure)))
      × (Option.map (λ (x : RetentionAction). x.status) (get_elem? after.tables.actions id)
          ≡ some exception)
      × (after.log ≡ found_available d.provider_call_id ∷ w.log)
unfolding run_once
run_once-pending unseal o now token id w r d found pending free opened call item there stored =
    let row = claimed_row r deleting token now in
    let t = with_action w.tables id row in
    let held = get_elem?-set_elem w.tables.actions id row r found in
    let kept = get_elem?-set_elem t.actions id (excepted_row row dependency_failure) row held in
    rw (claim_next-pending unseal now token id w.tables r d found pending free opened) (
      rw
        (act-there o
          (record {
            id = id;
            status = delete_requested;
            provider_call_id = d.provider_call_id;
            calls_item_id = d.calls_item_id;
            lease_token = token;
          })
          (record w { tables = t }) row held refl refl refl call item there stored)
        (refl, rw kept refl, refl))
