-- ===== src/Retention/Statements.antt =====
-- postgres-two-party-retention-store.mjs: each statement keeps the call of every action, and that a
-- confirmed action's call was found unavailable, if the caller of a transition has found it so.
use mathlib.Core.Path.{subst}
use air_call_demo_recording.Base.{
  ℕ, ◌≡◌, refl, ◌∙◌, inl, inr, Bool, true, false, not, ◌&&◌, Option, none, some, List, [], ◌∷◌,
  ◌++◌, arith, Bool-cases, Option-cases, get_elem?, Attempt, returned,
}
use air_call_demo_recording.Base.Text.{Text}
use air_call_demo_recording.Base.Text.Patterns.{is_hash}
use air_call_demo_recording.ConsentStore.{Connection, works, fails, commit_unheard}
use air_call_demo_recording.Retention.{
  put_new, enqueue_under, has_correlation, is_taken, new_action, has_asset, RetentionStatus,
  RetentionDecision, RetentionAction, RetentionTables, record_decision, enqueue_asset, has_override,
  has_override_event, record_voice_auth_override, ExceptionCode, outcome,
}
use air_call_demo_recording.Retention.Actions.{
  RetentionClaim, holds_token, is_cleared, taken_up, logical_status, claim_row, claim_next,
  decision_of, lease_free, mark_exception, transition, claim_opened, released_row, claimed_row,
  excepted_row, with_action,
}
use air_call_demo_recording.Retention.Finalizer.{RemoteCall}
use air_call_demo_recording.Retention.Calls.{
  found, founded, is_confirmed, found_at, call_at, call_of, Follows, IsSound, found_at-Follows,
  set_elem-Follows, set_elem-IsSound, confirmed_at-append, get_elem?-append_some, call_at-set_elem,
}

abbrev pub is_at : (RetentionStatus → Bool) → Option RetentionAction → Bool
is_at from none = false
is_at from (some r) = from r.status

module _ (unseal : Text → Text → Option RetentionDecision) where
  -- What a change of the tables keeps, where the log stays.
  pub record Keeps (log : List RemoteCall) (t u : RetentionTables) : Type 0 where
    pub sound : IsSound unseal u log
    pub follows : Follows unseal t u

  pub same-Keeps :
      (log : List RemoteCall) (t : RetentionTables) → IsSound unseal t log → Keeps log t t
  same-Keeps log t h = record { sound = h; follows = λ id call e. e }

  pub row-Keeps :
      (log : List RemoteCall) (t : RetentionTables) (id : ℕ) (r x : RetentionAction)
      → IsSound unseal t log
      → get_elem? t.actions id ≡ some r
      → x.correlation ≡ r.correlation
      → (is_confirmed x.status ≡ true → found_at (call_of unseal t id) log ≡ true)
      → Keeps log t (with_action t id x)
  row-Keeps log t id r x h e same founded = record {
    sound = set_elem-IsSound unseal t log id r x e same h founded;
    follows = set_elem-Follows unseal t id r x e same;
  }

  -- A statement that leaves one of two tables keeps what both keep.
  outcome-Keeps :
      {A : Type 0} (log : List RemoteCall) (c : Connection) (a : A) (t u : RetentionTables)
      → Keeps log t u
      → Keeps log t t
      → Keeps log t (outcome c a u t).1
  outcome-Keeps log works a t u h k = h
  outcome-Keeps log fails a t u h k = k
  outcome-Keeps log commit_unheard a t u h k = h

  pub transition-Keeps :
      (log : List RemoteCall) (c : Connection) (from : RetentionStatus → Bool)
      (to : RetentionStatus) (a : RetentionClaim) (t : RetentionTables)
      → IsSound unseal t log
      → (is_at from (get_elem? t.actions a.id) ≡ true
          → is_confirmed to ≡ true
          → found_at (call_of unseal t a.id) log ≡ true)
      → Keeps log t (transition c from to a t).1
  unfolding transition
  transition-Keeps log c from to a t h founded = elim (Option-cases (get_elem? t.actions a.id)) [
    | inl e ↦ rw e (same-Keeps log t h)
    | inr (r, e) ↦
        rw e (elim (Bool-cases (holds_token r.lease_token a.lease_token && from r.status)) [
          | inl b ↦ rw b (
              outcome-Keeps log c tt t (with_action t a.id (released_row r to))
                (row-Keeps log t a.id r (released_row r to) h e refl
                  (founded (rw e (ground arith))))
                (same-Keeps log t h))
          | inr b ↦ rw b (same-Keeps log t h)
        ])
  ]

  pub mark_exception-Keeps :
      (log : List RemoteCall) (c : Connection) (a : RetentionClaim) (code : ExceptionCode)
      (t : RetentionTables)
      → IsSound unseal t log
      → Keeps log t (mark_exception c a code t).1
  unfolding mark_exception
  mark_exception-Keeps log c a code t h = elim (Option-cases (get_elem? t.actions a.id)) [
    | inl e ↦ rw e (outcome-Keeps log c tt t t (same-Keeps log t h) (same-Keeps log t h))
    | inr (r, e) ↦
        rw e
          (elim (Bool-cases
            (holds_token r.lease_token a.lease_token && not (is_cleared r.status))) [
              | inl b ↦ rw b (
                  outcome-Keeps log c tt t (with_action t a.id (excepted_row r code))
                    (row-Keeps log t a.id r (excepted_row r code) h e refl (λ x. cc x))
                    (same-Keeps log t h))
              | inr b ↦ rw b (outcome-Keeps log c tt t t (same-Keeps log t h) (same-Keeps log t h))
            ])
  ]

  -- A claim that may clear a link is of a call that was found unavailable; every claim is of the call
  -- of its action.
  pub record IsClaim (log : List RemoteCall) (t : RetentionTables) (a : RetentionClaim)
      : Type 0 where
    pub of_call : call_of unseal t a.id ≡ some a.provider_call_id
    pub founded_call : is_confirmed a.status ≡ true → found a.provider_call_id log ≡ true

  abbrev pub ClaimResult :
      List RemoteCall → RetentionTables → Attempt (Option RetentionClaim) → Type 0
  ClaimResult log t (returned (some a)) = IsClaim log t a
  ClaimResult log t _ = Unit

  confirmed-taken_up :
      (s to : RetentionStatus)
      → taken_up s ≡ some to
      → (is_confirmed to ≡ true → is_confirmed s ≡ true)
        × (is_confirmed (logical_status to) ≡ true → is_confirmed s ≡ true)
  confirmed-taken_up s to h = ground arith

  claimed-IsClaim :
      (log : List RemoteCall) (now : ℕ) (token : Text) (id : ℕ) (t : RetentionTables)
      (r : RetentionAction) (to : RetentionStatus) (d : RetentionDecision)
      → get_elem? t.actions id ≡ some r
      → taken_up r.status ≡ some to
      → decision_of unseal t r ≡ some d
      → IsSound unseal t log
      → IsClaim log (with_action t id (claimed_row r to token now)) (record {
        id = id;
        status = logical_status to;
        provider_call_id = d.provider_call_id;
        calls_item_id = d.calls_item_id;
        lease_token = token;
      })
  unfolding call_of decision_of
  claimed-IsClaim log now token id t r to d e up opened h =
      let row = claimed_row r to token now in
      let call : call_of unseal t id ≡ some d.provider_call_id = rw e (rw opened refl) in
      record {
        of_call = call_at-set_elem unseal t.capabilities t.actions id r row id e refl ∙ call;
        founded_call = λ told.
            subst (λ o. found_at o log ≡ true) call
              (h id (rw e ((confirmed-taken_up r.status to up).1 told)));
      }

  claim_opened-Keeps :
      (log : List RemoteCall) (c : Connection) (now : ℕ) (token : Text) (id : ℕ)
      (t : RetentionTables) (r : RetentionAction) (to : RetentionStatus)
      → get_elem? t.actions id ≡ some r
      → taken_up r.status ≡ some to
      → IsSound unseal t log
      → (o : Option RetentionDecision) → decision_of unseal t r ≡ o
      → let (result, u) = claim_opened unseal c now token id r to o t in
        Keeps log t u × ClaimResult log u result
  claim_opened-Keeps log c now token id t r to e up h none opened = (same-Keeps log t h, tt)
  claim_opened-Keeps log fails now token id t r to e up h (some d) opened = (same-Keeps log t h, tt)
  claim_opened-Keeps log works now token id t r to e up h (some d) opened = (
    row-Keeps log t id r (claimed_row r to token now) h e refl
        (λ x. h id (rw e ((confirmed-taken_up r.status to up).0 x))),
    claimed-IsClaim log now token id t r to d e up opened h,
  )
  claim_opened-Keeps log commit_unheard now token id t r to e up h (some d) opened = (
    row-Keeps log t id r (claimed_row r to token now) h e refl
        (λ x. h id (rw e ((confirmed-taken_up r.status to up).0 x))),
    tt,
  )

  claim_row-Keeps :
      (log : List RemoteCall) (c : Connection) (now : ℕ) (token : Text) (id : ℕ)
      (t : RetentionTables) (r : RetentionAction)
      → get_elem? t.actions id ≡ some r
      → IsSound unseal t log
      → (o : Option RetentionStatus) → taken_up r.status ≡ o
      → let (result, u) = claim_row unseal c now token id r o t in
        Keeps log t u × ClaimResult log u result
  claim_row-Keeps log c now token id t r e h none up = (same-Keeps log t h, tt)
  claim_row-Keeps log c now token id t r e h (some to) up =
      elim (Bool-cases (lease_free r.lease_expires_at now)) [
        | inl b ↦ rw b (claim_opened-Keeps log c now token id t r to e up h _ refl)
        | inr b ↦ rw b (same-Keeps log t h, tt)
      ]

  pub claim_next-Keeps :
      (log : List RemoteCall) (c : Connection) (now : ℕ) (token : Text) (id : ℕ)
      (t : RetentionTables)
      → IsSound unseal t log
      → let (result, u) = claim_next unseal c now token id t in
        Keeps log t u × ClaimResult log u result
  unfolding claim_next
  claim_next-Keeps log c now token id t h = elim (Option-cases (get_elem? t.actions id)) [
    | inl e ↦ rw e (same-Keeps log t h, tt)
    | inr (r, e) ↦ rw e (claim_row-Keeps log c now token id t r e h _ refl)
  ]

  call_at-put_new :
      (k sealed : Text) (caps : Text → Option Text) (o : Option RetentionAction) (call : Text)
      → call_at unseal caps o ≡ some call
      → call_at unseal (put_new k sealed caps) o ≡ some call
  call_at-put_new k sealed caps none call h = h
  call_at-put_new k sealed caps (some r) call h = ground arith

  capability-Keeps :
      (log : List RemoteCall) (t : RetentionTables) (decisions : Text → Option Text)
      (k sealed : Text)
      → IsSound unseal t log
      → Keeps log t
          (record t { decisions = decisions; capabilities = put_new k sealed t.capabilities })
  unfolding call_of
  capability-Keeps log t decisions k sealed h =
      let u = record t { decisions = decisions; capabilities = put_new k sealed t.capabilities } in
      let follows = λ (id : ℕ) (call : Text).
        call_at-put_new k sealed t.capabilities (get_elem? t.actions id) call in
      record {
        sound = λ id x. found_at-Follows unseal t u log follows id (h id x);
        follows = follows;
      }

  pub record_decision-Keeps :
      (log : List RemoteCall) (seal : Text → RetentionDecision → Text) (c : Connection)
      (k call_key : Text) (d : RetentionDecision) (t : RetentionTables)
      → IsSound unseal t log
      → Keeps log t (record_decision seal c k call_key d t).1
  unfolding record_decision
  record_decision-Keeps log seal c k call_key d t h =
      elim (Bool-cases (is_taken (t.capabilities k))) [
        | inl b ↦ rw b (outcome-Keeps log c true t t (same-Keeps log t h) (same-Keeps log t h))
        | inr b ↦ rw b (elim (Bool-cases (is_taken (t.decisions call_key))) [
          | inl b' ↦ rw b' (same-Keeps log t h)
          | inr b' ↦ rw b' (
              outcome-Keeps log c true t _ (capability-Keeps log t _ k (seal k d) h)
                (same-Keeps log t h))
        ])
      ]

  call_at-append :
      (caps : Text → Option Text) (rows more : List RetentionAction) (id : ℕ) (call : Text)
      → call_at unseal caps (get_elem? rows id) ≡ some call
      → call_at unseal caps (get_elem? (rows ++ more) id) ≡ some call
  call_at-append caps rows more id call h = elim (Option-cases (get_elem? rows id)) [
    | inl e ↦ absurd (let h' : none ≡ some call = rw e at h in cc h')
    | inr (r, e) ↦ rw (get_elem?-append_some rows more id r e) (rw e at h)
  ]

  append-Keeps :
      (log : List RemoteCall) (t : RetentionTables) (asset k : Text)
      → IsSound unseal t log
      → Keeps log t (record t { actions = t.actions ++ new_action asset k ∷ [] })
  unfolding call_of
  append-Keeps log t asset k h =
      let u = record t { actions = t.actions ++ new_action asset k ∷ [] } in
      let follows = λ (id : ℕ) (call : Text).
        call_at-append t.capabilities t.actions (new_action asset k ∷ []) id call in
      record {
        sound = λ id x.
            found_at-Follows unseal t u log follows id
              (h id (confirmed_at-append t.actions asset k id x));
        follows = follows;
      }

  enqueue_under-Keeps :
      (log : List RemoteCall) (c : Connection) (asset : Text) (o : Option Text)
      (t : RetentionTables)
      → IsSound unseal t log
      → Keeps log t (enqueue_under c asset o t).1
  enqueue_under-Keeps log c asset none t h =
      outcome-Keeps log c _ t t (same-Keeps log t h) (same-Keeps log t h)
  enqueue_under-Keeps log c asset (some k) t h = elim (Bool-cases (has_asset asset t.actions)) [
    | inl b ↦ rw b (outcome-Keeps log c _ t t (same-Keeps log t h) (same-Keeps log t h))
    | inr b ↦ rw b (elim (Bool-cases (has_correlation k t.actions)) [
      | inl b' ↦ rw b' (same-Keeps log t h)
      | inr b' ↦
          rw b' (outcome-Keeps log c _ t _ (append-Keeps log t asset k h) (same-Keeps log t h))
    ])
  ]

  pub enqueue_asset-Keeps :
      (log : List RemoteCall) (c : Connection) (asset call_key : Text) (t : RetentionTables)
      → IsSound unseal t log
      → Keeps log t (enqueue_asset c asset call_key t).1
  unfolding enqueue_asset
  enqueue_asset-Keeps log c asset call_key t h = enqueue_under-Keeps log c asset _ t h

  pub override-Keeps :
      (log : List RemoteCall) (c : Connection) (call_key event_key : Text) (t : RetentionTables)
      → IsSound unseal t log
      → Keeps log t (record_voice_auth_override c call_key event_key t).1
  unfolding record_voice_auth_override call_of
  override-Keeps log c k e t h = elim (Bool-cases (is_hash k && is_hash e)) [
    | inl b ↦ elim (Bool-cases (has_override k t.overrides)) [
      | inl recorded ↦
          rw (b, recorded) (outcome-Keeps log c true t t (same-Keeps log t h) (same-Keeps log t h))
      | inr new ↦ elim (Bool-cases (has_override_event e t.overrides)) [
        | inl taken ↦ rw (b, new, taken) (same-Keeps log t h)
        | inr free ↦
            rw (b, new, free)
              (outcome-Keeps log c true t (record t { overrides = t.overrides ++ (k, e) ∷ [] })
                (record { sound = h; follows = λ id call x. x }) (same-Keeps log t h))
      ]
    ]
    | inr b ↦ rw b (same-Keeps log t h)
  ]
