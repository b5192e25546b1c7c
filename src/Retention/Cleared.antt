-- ===== src/Retention/Cleared.antt =====
-- two-party-retention-finalizer.mjs over postgres-two-party-retention-store.mjs: two runs that end with
-- the link cleared.
use air_call_demo_recording.Base.{
  ℕ, ◌≡◌, refl, Bool, true, false, ◌||◌, Option, none, some, ◌∷◌, arith, if◌then◌else◌, get_elem?,
  Attempt, returned, thrown,
}
use mathlib.Core.Option
use air_call_demo_recording.Base.Text.{Text}
use air_call_demo_recording.Base.Text.Laws.{text_eq_refl}
use air_call_demo_recording.Base.Text.Patterns.{is_opaque}
use air_call_demo_recording.ConsentStore.{Connection, works}
use air_call_demo_recording.Retention.{
  RetentionStatus, delete_requested, delete_confirmed, clearing, monday_link_cleared,
  RetentionDecision, RetentionAction, RetentionTables,
}
use air_call_demo_recording.Retention.Actions.{
  RetentionClaim, holds_token, is_clearing, is_deleting, is_confirming, taken_up, logical_status,
  claim_next, get_elem?-set_elem, decision_of, lease_free, transition, released_row, claimed_row,
  get_elem?-set_elem, with_action,
}
use air_call_demo_recording.Retention.Finalizer.{
  found_unavailable, clear_link, read_link, Outside, Work, act, after_read, after_lookup, run_once,
  delete_was_confirmed, link_was_cleared,
}
use air_call_demo_recording.Retention.Calls.{found}

if_then {ℓ} : {A : Type ℓ} (b : Bool) (x y z : A) → b ≡ true → x ≡ z → (if b then x else y) ≡ z
if_then true x y z e h = h
if_then false x y z e h = cc

module _ (unseal : Text → Text → Option RetentionDecision) (o : Outside) where
  abbrev claim_of : ℕ → RetentionDecision → Text → RetentionStatus → RetentionClaim
  claim_of id d token status = record {
    id = id;
    status = status;
    provider_call_id = d.provider_call_id;
    calls_item_id = d.calls_item_id;
    lease_token = token;
  }

  claim_next-works :
      (now : ℕ) (token : Text) (id : ℕ) (t : RetentionTables) (r : RetentionAction)
      (s : RetentionStatus) (d : RetentionDecision)
      → get_elem? t.actions id ≡ some r
      → taken_up r.status ≡ some s
      → lease_free r.lease_expires_at now ≡ true
      → decision_of unseal t r ≡ some d
      → claim_next unseal works now token id t ≡ (
        returned (some (claim_of id d token (logical_status s))),
        with_action t id (claimed_row r s token now),
      )
  unfolding claim_next
  claim_next-works now token id t r s d found up free opened =
      rw found (rw up (rw free (rw opened refl)))

  transition-works :
      (c : Connection) (from : RetentionStatus → Bool) (to : RetentionStatus) (a : RetentionClaim)
      (t : RetentionTables) (r : RetentionAction)
      → get_elem? t.actions a.id ≡ some r
      → r.lease_token ≡ some a.lease_token
      → from r.status ≡ true
      → c ≡ works
      → transition c from to a t ≡ (returned tt, with_action t a.id (released_row r to))
  unfolding transition
  transition-works c from to a t r found token in_from marks =
      let held : holds_token r.lease_token a.lease_token ≡ true =
        rw token (text_eq_refl a.lease_token) in
      rw found (ground arith)

  lookup-gone :
      (id : ℕ) (d : RetentionDecision) (token : Text) (w : Work) (r : RetentionAction)
      (u : Attempt Bool)
      → get_elem? w.tables.actions id ≡ some r
      → r.lease_token ≡ some token
      → (is_deleting r.status || is_confirming r.status) ≡ true
      → u ≡ returned true
      → o.at_mark ≡ works
      → after_lookup o (claim_of id d token delete_requested) u w ≡ (
        returned delete_was_confirmed,
        record {
          tables = with_action w.tables id (released_row r delete_confirmed);
          log = found_unavailable d.provider_call_id ∷ w.log;
        },
      )
  lookup-gone id d token w r thrown found held from gone marks = cc
  lookup-gone id d token w r (returned false) found held from gone marks = absurd (ground arith)
  lookup-gone id d token w r (returned true) found held from gone marks =
      rw
        (transition-works o.at_mark (λ s. is_deleting s || is_confirming s) delete_confirmed
          (claim_of id d token delete_requested) w.tables r found held from marks)
        refl

  monday-cleared :
      (id : ℕ) (d : RetentionDecision) (token : Text) (w : Work) (r : RetentionAction)
      (v : Attempt (Option Text))
      → get_elem? w.tables.actions id ≡ some r
      → r.lease_token ≡ some token
      → is_clearing r.status ≡ true
      → v ≡ returned none
      → o.at_mark ≡ works
      → after_read o (claim_of id d token delete_confirmed) v w ≡ (
        returned link_was_cleared,
        record w { tables = with_action w.tables id (released_row r monday_link_cleared) },
      )
  monday-cleared id d token w r thrown found held from empty marks = cc
  monday-cleared id d token w r (returned (some x)) found held from empty marks =
      absurd (ground arith)
  monday-cleared id d token w r (returned none) found held from empty marks =
      rw
        (transition-works o.at_mark is_clearing monday_link_cleared
          (claim_of id d token delete_confirmed) w.tables r found held from marks)
        refl

  act-gone :
      (id : ℕ) (d : RetentionDecision) (token : Text) (w : Work) (r : RetentionAction)
      → get_elem? w.tables.actions id ≡ some r
      → r.lease_token ≡ some token
      → (is_deleting r.status || is_confirming r.status) ≡ true
      → is_opaque d.provider_call_id ≡ true
      → is_opaque d.calls_item_id ≡ true
      → o.unavailable ≡ returned true
      → o.at_mark ≡ works
      → act o (claim_of id d token delete_requested) w ≡ (
        returned delete_was_confirmed,
        record {
          tables = with_action w.tables id (released_row r delete_confirmed);
          log = found_unavailable d.provider_call_id ∷ w.log;
        },
      )
  unfolding act
  act-gone id d token w r found held from call item gone marks =
      rw call (rw item (lookup-gone id d token w r o.unavailable found held from gone marks))

  act-cleared :
      (id : ℕ) (d : RetentionDecision) (token : Text) (w : Work) (r : RetentionAction)
      → get_elem? w.tables.actions id ≡ some r
      → r.lease_token ≡ some token
      → is_clearing r.status ≡ true
      → is_opaque d.provider_call_id ≡ true
      → is_opaque d.calls_item_id ≡ true
      → o.clear_works ≡ true
      → o.link ≡ returned none
      → o.at_mark ≡ works
      → act o (claim_of id d token delete_confirmed) w ≡ (
        returned link_was_cleared,
        record {
          tables = with_action w.tables id (released_row r monday_link_cleared);
          log =
              read_link d.provider_call_id d.calls_item_id
              ∷ clear_link d.provider_call_id d.calls_item_id
              ∷ w.log;
        },
      )
  unfolding act
  act-cleared id d token w r found held from call item clears empty marks =
      let log =
        read_link d.provider_call_id d.calls_item_id
        ∷ clear_link d.provider_call_id d.calls_item_id
        ∷ w.log in
      rw call (
        rw item (
          if_then o.clear_works _ _ _ clears (
            monday-cleared id d token (record w { log = log }) r o.link found held from empty
              marks)))

  logical_status-requested :
      (s : RetentionStatus)
      → (is_deleting s || is_confirming s) ≡ true
      → logical_status s ≡ delete_requested
  logical_status-requested s h = ground arith

  first_run :
      (now : ℕ) (token : Text) (id : ℕ) (w : Work) (r : RetentionAction) (s : RetentionStatus)
      (d : RetentionDecision)
      → get_elem? w.tables.actions id ≡ some r
      → taken_up r.status ≡ some s
      → (is_deleting s || is_confirming s) ≡ true
      → lease_free r.lease_expires_at now ≡ true
      → decision_of unseal w.tables r ≡ some d
      → is_opaque d.provider_call_id ≡ true
      → is_opaque d.calls_item_id ≡ true
      → o.unavailable ≡ returned true
      → o.at_mark ≡ works
      → run_once unseal o works now token id w ≡ (
        returned (some delete_was_confirmed),
        record {
          tables =
              with_action
                (with_action w.tables id (claimed_row r s token now))
                id
                (released_row r delete_confirmed);
          log = found_unavailable d.provider_call_id ∷ w.log;
        },
      )
  unfolding run_once
  first_run now token id w r s d found up from free opened call item gone marks =
      let row = claimed_row r s token now in
      let t = with_action w.tables id row in
      rw (claim_next-works now token id w.tables r s d found up free opened) (
        rw (logical_status-requested s from) (
          rw
            (act-gone id d token (record w { tables = t }) row
              (get_elem?-set_elem w.tables.actions id row r found) refl from call item gone marks)
            refl))

  second_run :
      (now : ℕ) (token : Text) (id : ℕ) (w : Work) (r : RetentionAction) (d : RetentionDecision)
      → get_elem? w.tables.actions id ≡ some r
      → taken_up r.status ≡ some clearing
      → lease_free r.lease_expires_at now ≡ true
      → decision_of unseal w.tables r ≡ some d
      → is_opaque d.provider_call_id ≡ true
      → is_opaque d.calls_item_id ≡ true
      → o.clear_works ≡ true
      → o.link ≡ returned none
      → o.at_mark ≡ works
      → run_once unseal o works now token id w ≡ (
        returned (some link_was_cleared),
        record {
          tables =
              with_action
                (with_action w.tables id (claimed_row r clearing token now))
                id
                (released_row r monday_link_cleared);
          log =
              read_link d.provider_call_id d.calls_item_id
              ∷ clear_link d.provider_call_id d.calls_item_id
              ∷ w.log;
        },
      )
  unfolding run_once
  second_run now token id w r d found up free opened call item clears empty marks =
      let row = claimed_row r clearing token now in
      let t = with_action w.tables id row in
      rw (claim_next-works now token id w.tables r clearing d found up free opened) (
        rw
          (act-cleared id d token (record w { tables = t }) row
            (get_elem?-set_elem w.tables.actions id row r found) refl refl call item clears empty
            marks)
          refl)

  -- An action that is pending or requested, with a free lease and a capability that opens, of an opaque
  -- call and item, while the statements work, the recording is gone, Monday clears the link and reads it
  -- as empty: two runs that pick the action, at any times, confirm the deletion and clear the link.
  pub run_once-clears :
      (now later : ℕ) (token next : Text) (id : ℕ) (w : Work) (r : RetentionAction)
      (s : RetentionStatus) (d : RetentionDecision)
      → get_elem? w.tables.actions id ≡ some r
      → taken_up r.status ≡ some s
      → (is_deleting s || is_confirming s) ≡ true
      → lease_free r.lease_expires_at now ≡ true
      → decision_of unseal w.tables r ≡ some d
      → is_opaque d.provider_call_id ≡ true
      → is_opaque d.calls_item_id ≡ true
      → o.unavailable ≡ returned true
      → o.clear_works ≡ true
      → o.link ≡ returned none
      → o.at_mark ≡ works
      → let (first, v) = run_once unseal o works now token id w in
        let (second, u) = run_once unseal o works later next id v in
        (first ≡ returned (some delete_was_confirmed))
        × (second ≡ returned (some link_was_cleared))
        × (Option.map (λ (x : RetentionAction). x.status) (get_elem? u.tables.actions id)
            ≡ some monday_link_cleared)
  unfolding decision_of
  run_once-clears now later token next id w r s d found up from free opened call item gone clears
        empty marks =
      let row = claimed_row r s token now in
      let t = with_action w.tables id row in
      let done = released_row r delete_confirmed in
      let v : Work = record {
        tables = with_action t id done;
        log = found_unavailable d.provider_call_id ∷ w.log;
      } in
      let held = get_elem?-set_elem w.tables.actions id row r found in
      let kept = get_elem?-set_elem t.actions id done row held in
      let again = claimed_row done clearing next later in
      let kept_again = get_elem?-set_elem v.tables.actions id again done kept in
      rw (first_run now token id w r s d found up from free opened call item gone marks) (
        rw (second_run later next id v done d kept refl refl opened call item clears empty marks) (
          refl,
          refl,
          rw
              (get_elem?-set_elem (with_action v.tables id again).actions id
                (released_row done monday_link_cleared) again kept_again)
              refl,
        ))
