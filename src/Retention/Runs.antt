-- ===== src/Retention/Runs.antt =====
-- two-party-retention-finalizer.mjs: a run keeps what Retention/Statements keeps, and clears a link only
-- after a report that the recording is unavailable.
use air_call_demo_recording.Base.{
  ◌≡◌, refl, Bool, true, false, Option, none, some, List, [], ◌∷◌, arith, if◌then◌else◌, get_elem?,
  All, Attempt, returned, thrown,
}
use air_call_demo_recording.Base.Text.{Text}
use air_call_demo_recording.Base.Text.Laws.{text_eq_refl}
use air_call_demo_recording.ConsentStore.{Connection}
use air_call_demo_recording.Retention.{
  RetentionStatus, delete_pending, delete_requested, delete_confirmed, monday_link_cleared,
  RetentionDecision, RetentionAction, RetentionTables, dependency_failure, monday_writer_race,
  invalid_action_state, ExceptionCode,
}
use air_call_demo_recording.Retention.Actions.{RetentionClaim, is_clearing, is_deleting, transition}
use air_call_demo_recording.Retention.Finalizer.{
  RemoteCall, delete_recording, found_unavailable, found_available, unanswered, clear_link,
  read_link, Outside, Work, act, act_on, logged, after_mark, after_exception, finalize_monday,
  after_clear_mark, after_read, valid_claim, request_deletion, after_lookup, fail, RetentionOutcome,
}
use air_call_demo_recording.Retention.Calls.{
  found, founded, all_founded, is_confirmed, confirmed_at, found_at, call_of, Follows, IsSound,
}
use air_call_demo_recording.Retention.Statements.{
  is_at, Keeps, transition-Keeps, mark_exception-Keeps, IsClaim,
}

abbrev pub Grows : List RemoteCall → List RemoteCall → Type 0
Grows log more = (k : Text) → found k log ≡ true → found k more ≡ true

found_at-Grows :
    (o : Option Text) (log more : List RemoteCall)
    → Grows log more
    → found_at o log ≡ true
    → found_at o more ≡ true
found_at-Grows none log more g h = h
found_at-Grows (some k) log more g h = g k h

logged-Grows : (call : RemoteCall) (log : List RemoteCall) → Grows log (call ∷ log)
unfolding found
logged-Grows call log k h = ground arith

module _ (unseal : Text → Text → Option RetentionDecision) where
  pub record IsGood (w : Work) : Type 0 where
    pub good : IsSound unseal w.tables w.log
    pub ordered : all_founded w.log ≡ true

  -- What a part of a run leaves, for the claims of the other workers too.
  pub record Goes (v w : Work) : Type 0 where
    pub to_good : IsGood w
    pub keeping : Follows unseal v.tables w.tables
    pub growing : Grows v.log w.log

  then-Goes : (u v w : Work) → Goes u v → Goes v w → Goes u w
  then-Goes u v w g h = record {
    to_good = h.to_good;
    keeping = λ id call e. h.keeping id call (g.keeping id call e);
    growing = λ k e. h.growing k (g.growing k e);
  }

  pub tables-Goes :
      (w : Work) (t : RetentionTables)
      → IsGood w
      → Keeps unseal w.log w.tables t
      → Goes w (record w { tables = t })
  tables-Goes w t g k = record {
    to_good = record { good = k.sound; ordered = g.ordered };
    keeping = k.follows;
    growing = λ j e. e;
  }

  logged-Goes :
      (call : RemoteCall) (w : Work) → founded call w.log ≡ true → IsGood w → Goes w (logged call w)
  unfolding all_founded
  logged-Goes call w h g = record {
    to_good = record {
      good = λ id e.
          found_at-Grows (call_of unseal w.tables id) w.log (call ∷ w.log) (logged-Grows call w.log)
            (g.good id e);
      ordered = rw h g.ordered;
    };
    keeping = λ id c e. e;
    growing = logged-Grows call w.log;
  }

  after_exception-Goes :
      (code : ExceptionCode) (w : Work) (m : Attempt (Unit {0}) × RetentionTables)
      → Goes w (record w { tables = m.1 })
      → Goes w (after_exception code w m).1
  after_exception-Goes code w (returned done, t) h = h
  after_exception-Goes code w (thrown, t) h = h

  fail-Goes :
      (o : Outside) (a : RetentionClaim) (code : ExceptionCode) (w : Work)
      → IsGood w
      → Goes w (fail o a code w).1
  unfolding fail
  fail-Goes o a code w g =
      after_exception-Goes code w _ (
        tables-Goes w _ g (mark_exception-Keeps unseal w.log o.at_exception a code w.tables g.good))

  after_mark-Goes :
      (o : Outside) (a : RetentionClaim) (r : RetentionOutcome) (w : Work)
      (m : Attempt (Unit {0}) × RetentionTables)
      → Goes w (record w { tables = m.1 })
      → Goes w (after_mark o a r w m).1
  after_mark-Goes o a r w (returned done, t) h = h
  after_mark-Goes o a r w (thrown, t) h =
      then-Goes w (record w { tables = t }) _ h
        (fail-Goes o a dependency_failure (record w { tables = t }) h.to_good)

  transition-Goes :
      (c : Connection) (from : RetentionStatus → Bool) (to : RetentionStatus) (a : RetentionClaim)
      (w : Work)
      → IsGood w
      → (is_at from (get_elem? w.tables.actions a.id) ≡ true
          → is_confirmed to ≡ true
          → found_at (call_of unseal w.tables a.id) w.log ≡ true)
      → Goes w (record w { tables = (transition c from to a w.tables).1 })
  transition-Goes c from to a w g founds =
      tables-Goes w _ g (transition-Keeps unseal w.log c from to a w.tables g.good founds)

  -- A call of Aircall or Monday, and then a part of the run.
  logged-then :
      (call : RemoteCall) (w u : Work)
      → founded call w.log ≡ true
      → IsGood w
      → (IsGood (logged call w) → Goes (logged call w) u)
      → Goes w u
  logged-then call w u h g next =
      let first = logged-Goes call w h g in then-Goes w (logged call w) u first (next first.to_good)

  if-Goes :
      (w : Work) (b : Bool) (x y : Attempt RetentionOutcome × Work)
      → Goes w x.1
      → Goes w y.1
      → Goes w (if b then x else y).1
  if-Goes w true x y h k = h
  if-Goes w false x y h k = k

  request_deletion-Goes :
      (o : Outside) (a : RetentionClaim) (w : Work) → IsGood w → Goes w (request_deletion o a w).1
  request_deletion-Goes o a w g = logged-then (delete_recording a.provider_call_id) w _ refl g λ h.
      if-Goes _ o.delete_works _ _
        (after_mark-Goes o a _ _ _
          (transition-Goes o.at_mark is_deleting delete_requested a _ h (λ held x. cc x)))
        (fail-Goes o a dependency_failure _ h)

  after_lookup-Goes :
      (o : Outside) (a : RetentionClaim) (r : Attempt Bool) (w : Work)
      → IsGood w
      → IsClaim unseal w.log w.tables a
      → Goes w (after_lookup o a r w).1
  unfolding found
  after_lookup-Goes o a thrown w g q =
      logged-then (unanswered a.provider_call_id) w _ refl g
        λ h. fail-Goes o a dependency_failure _ h
  after_lookup-Goes o a (returned false) w g q =
      logged-then (found_available a.provider_call_id) w _ refl g λ h.
        after_mark-Goes o a _ _ _
          (transition-Goes o.at_mark _ delete_requested a _ h (λ held x. cc x))
  after_lookup-Goes o a (returned true) w g q =
      logged-then (found_unavailable a.provider_call_id) w _ refl g λ h. after_mark-Goes o a _ _ _ (
        transition-Goes o.at_mark _ delete_confirmed a _ h
          (λ held x. rw q.of_call (rw (text_eq_refl a.provider_call_id) refl)))

  after_clear_mark-Goes :
      (w : Work) (m : Attempt (Unit {0}) × RetentionTables)
      → Goes w (record w { tables = m.1 })
      → Goes w (after_clear_mark w m).1
  after_clear_mark-Goes w (returned done, t) h = h
  after_clear_mark-Goes w (thrown, t) h = h

  pub same-Goes : (w : Work) → IsGood w → Goes w w
  same-Goes w g = record { to_good = g; keeping = λ id c e. e; growing = λ k e. e }

  is_clearing_confirmed : (s : RetentionStatus) → is_clearing s ≡ true → is_confirmed s ≡ true
  is_clearing_confirmed s h = ground arith

  is_at-clearing : (o : Option RetentionAction) → is_at is_clearing o ≡ true → confirmed_at o ≡ true
  is_at-clearing none h = h
  is_at-clearing (some r) h = is_clearing_confirmed r.status h

  after_read-Goes :
      (o : Outside) (a : RetentionClaim) (r : Attempt (Option Text)) (w : Work)
      → IsGood w
      → Goes w (after_read o a r w).1
  after_read-Goes o a thrown w g = same-Goes w g
  after_read-Goes o a (returned (some value)) w g = fail-Goes o a monday_writer_race w g
  after_read-Goes o a (returned none) w g = after_clear_mark-Goes w _ (
      transition-Goes o.at_mark is_clearing monday_link_cleared a w g
        (λ held x. g.good a.id (is_at-clearing (get_elem? w.tables.actions a.id) held)))

  finalize_monday-Goes :
      (o : Outside) (a : RetentionClaim) (w : Work)
      → IsGood w
      → found a.provider_call_id w.log ≡ true
      → Goes w (finalize_monday o a w).1
  finalize_monday-Goes o a w g founded =
      logged-then (clear_link a.provider_call_id a.calls_item_id) w _ founded g λ h.
        if-Goes _ o.clear_works _ _
          (logged-then (read_link a.provider_call_id a.calls_item_id) _ _ refl h
            λ h'. after_read-Goes o a o.link _ h')
          (same-Goes _ h)

  act_on-Goes :
      (o : Outside) (a : RetentionClaim) (s : RetentionStatus) (w : Work)
      → a.status ≡ s
      → IsGood w
      → IsClaim unseal w.log w.tables a
      → Goes w (act_on o a s w).1
  act_on-Goes o a delete_pending w e g q = request_deletion-Goes o a w g
  act_on-Goes o a delete_requested w e g q = after_lookup-Goes o a o.unavailable w g q
  act_on-Goes o a delete_confirmed w e g q =
      finalize_monday-Goes o a w g (q.founded_call (rw e refl))
  act_on-Goes o a _ w e g q = fail-Goes o a invalid_action_state w g

  pub act-Goes :
      (o : Outside) (a : RetentionClaim) (w : Work)
      → IsGood w
      → IsClaim unseal w.log w.tables a
      → Goes w (act o a w).1
  unfolding act
  act-Goes o a w g q =
      if-Goes w (valid_claim a) _ _ (act_on-Goes o a a.status w refl g q) (same-Goes w g)

  pub IsClaim-Goes :
      (v w : Work) (a : RetentionClaim)
      → Goes v w
      → IsClaim unseal v.log v.tables a
      → IsClaim unseal w.log w.tables a
  IsClaim-Goes v w a h q = record {
    of_call = h.keeping a.id a.provider_call_id q.of_call;
    founded_call = λ x. h.growing a.provider_call_id (q.founded_call x);
  }

  abbrev pub AreClaims : Work → List RetentionClaim → Type 0
  AreClaims w claims = All (IsClaim unseal w.log w.tables) claims

  pub AreClaims-Goes :
      (v w : Work)
      → Goes v w
      → (claims : List RetentionClaim) → AreClaims v claims
      → AreClaims w claims
  AreClaims-Goes v w h [] q = tt
  AreClaims-Goes v w h (a ∷ claims) (q, qs) =
      (IsClaim-Goes v w a h q, AreClaims-Goes v w h claims qs)
