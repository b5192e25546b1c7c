-- ===== src/ActionStore/KillSwitch.antt =====
-- postgres-recording-action-store.mjs: switching the actions off revokes every claim made before.
use air_call_demo_recording.Base.{
  ℕ, ◌≤◌, ◌≡◌, refl, ap, ◌∙◌, inl, inr, Bool, true, false, Option, some, List, [], ◌∷◌, arith,
  Bool-cases, Option-cases, Attempt, returned, thrown,
}
use air_call_demo_recording.Base.Text.{Text}
use air_call_demo_recording.ActionStore.{
  Scope, ActionRow, Tables, Claim, disable_actions, activate, claim, prepare_dispatch,
  schedule_retry, cancel, FailureCode, Control,
}
use air_call_demo_recording.ActionStore.Requests.{
  Context, Request, enqueue_approved_action, record_decision,
}
use air_call_demo_recording.ActionStore.Dispatch.{Weather, execute_with_dispatch_fence, fence_open}
use air_call_demo_recording.ActionStore.History.{
  System, Event, disabling, activating, enqueuing, denying, claiming, retrying, canceling,
  preparing, executing, losing, postponing, Settings, advance, advance_all, execute_first,
  lose_first, postpone_first, after_prepare,
}

-- The control row is changed by its administrators alone.
claim-control :
    (scope : Option Scope) (ms now : ℕ) (token key : Text) (t : Tables)
    → (claim scope ms now token key t).1.control ≡ t.control
unfolding claim
claim-control scope ms now token key t = ground arith

retry-control :
    (delay now : ℕ) (c : Claim) (t : Tables) → (schedule_retry delay now c t).1.control ≡ t.control
unfolding schedule_retry
retry-control delay now c t = ground arith

cancel-control :
    (reason : FailureCode) (now : ℕ) (c : Claim) (t : Tables)
    → (cancel reason now c t).1.control ≡ t.control
unfolding cancel
cancel-control reason now c t = ground arith

prepare-control :
    (scope : Option Scope) (age now : ℕ) (c : Claim) (t : Tables)
    → (prepare_dispatch scope age now c t).1.control ≡ t.control
unfolding prepare_dispatch
prepare-control scope age now c t = ground arith

enqueue-control :
    (encrypt : Text → Text → Context → Text) (id : Text) (scope : Option Scope) (now : ℕ)
    (x : Request) (t : Tables)
    → (enqueue_approved_action encrypt id scope now x t).1.control ≡ t.control
unfolding enqueue_approved_action
enqueue-control encrypt id scope now x t = ground arith

denial-control :
    (now : ℕ) (k p : Text) (b : Bool) (c : Option Text) (t : Tables)
    → (record_decision now k p b c t).1.control ≡ t.control
unfolding record_decision
denial-control now k p b c t = ground arith

execute-control :
    (scope : Option Scope) (w : Weather) (c : Claim) (t : Tables)
    → (execute_with_dispatch_fence scope w c t).tables.control ≡ t.control
unfolding execute_with_dispatch_fence
execute-control scope w c t = ground arith

after_prepare-control :
    (c : Claim) (s : System) (r : Attempt (Unit {0}) × Tables)
    → (after_prepare c s r).tables.control ≡ r.1.control
after_prepare-control c s (returned done, t) = refl
after_prepare-control c s (thrown, t) = refl

abbrev epoch : System → ℕ
epoch s = s.tables.control.control_epoch

module _ (g : Settings) where
  execute_first-epoch :
      (w : Weather) (s : System) (claims : List Claim)
      → epoch s ≤ epoch (execute_first g w s claims)
  execute_first-epoch w s [] = omega arith
  execute_first-epoch w s (c ∷ rest) =
      let same = ap (λ (x : Control). x.control_epoch) (execute-control g.scope w c s.tables) in
      omega arith

  lose_first-epoch : (s : System) (claims : List Claim) → epoch s ≤ epoch (lose_first g s claims)
  lose_first-epoch s [] = omega arith
  lose_first-epoch s (c ∷ rest) = omega arith

  postpone_first-epoch :
      (s : System) (claims : List Claim) → epoch s ≤ epoch (postpone_first g s claims)
  postpone_first-epoch s [] = omega arith
  postpone_first-epoch s (c ∷ rest) = omega arith

  unchanged : (c d : Control) → d ≡ c → c.control_epoch ≤ d.control_epoch
  unchanged c d e = rw e (omega arith)

  advance-epoch : (e : Event) (s : System) → epoch s ≤ epoch (advance g e s)
  unfolding advance disable_actions activate
  advance-epoch disabling s = omega arith
  advance-epoch (activating scope until) s = omega arith
  advance-epoch (enqueuing now x) s =
      unchanged _ _ (enqueue-control g.encrypt g.key_id g.scope now x s.tables)
  advance-epoch (denying now k p b c) s = unchanged _ _ (denial-control now k p b c s.tables)
  advance-epoch (claiming now token key) s =
      unchanged _ _ (claim-control g.scope g.lease_ms now token key s.tables)
  advance-epoch (retrying delay now c) s = unchanged _ _ (retry-control delay now c s.tables)
  advance-epoch (canceling reason now c) s = unchanged _ _ (cancel-control reason now c s.tables)
  advance-epoch (preparing now c) s = unchanged _ _ (
      after_prepare-control c s (prepare_dispatch g.scope g.max_decision_age_ms now c s.tables)
      ∙ prepare-control g.scope g.max_decision_age_ms now c s.tables)
  advance-epoch (executing w) s = execute_first-epoch w s s.prepared
  advance-epoch losing s = lose_first-epoch s s.prepared
  advance-epoch postponing s = postpone_first-epoch s s.prepared

  advance_all-epoch : (es : List Event) (s : System) → epoch s ≤ epoch (advance_all g es s)
  unfolding advance_all
  advance_all-epoch [] s = omega arith
  advance_all-epoch (e ∷ es) s =
      omega (arith, advance-epoch e s, advance_all-epoch es (advance g e s))

-- If the provider is called, the row of the claim exists and the fence is open for it.
pub execute-called :
    (scope : Option Scope) (w : Weather) (c : Claim) (t : Tables)
    → (execute_with_dispatch_fence scope w c t).called ≡ true
    → (r : ActionRow) × (t.outbox c.action_key ≡ some r) × (fence_open scope w c t r ≡ true)
unfolding execute_with_dispatch_fence
execute-called scope w c t e = elim (Option-cases (t.outbox c.action_key)) [
  | inl absent ↦ absurd (ground arith)
  | inr (r, found) ↦ (r, found, ground arith)
]

fence_open-epoch :
    (scope : Option Scope) (w : Weather) (c : Claim) (t : Tables) (r : ActionRow)
    → fence_open scope w c t r ≡ true
    → t.control.control_epoch ≡ c.control_epoch
fence_open-epoch scope w c t r e = ground arith

-- Once the actions are switched off, a claim made before never reaches the provider again: whatever
-- happens afterwards, new activations included, executing it does not call the provider.
pub disable_actions-revokes :
    (g : Settings) (s : System) (c : Claim) (es : List Event) (w : Weather)
    → c.control_epoch ≤ s.tables.control.control_epoch
    → (execute_with_dispatch_fence g.scope w c (advance_all g (disabling ∷ es) s).tables).called
      ≡ false
unfolding advance_all advance disable_actions
disable_actions-revokes g s c es w before =
    elim (Bool-cases
      (execute_with_dispatch_fence g.scope w c (advance_all g (disabling ∷ es) s).tables).called) [
        | inl called ↦
            let (r, found, fence) =
              execute-called g.scope w c (advance_all g (disabling ∷ es) s).tables called in
            let same = fence_open-epoch g.scope w c _ r fence in
            absurd (omega (arith, advance_all-epoch g es (advance g disabling s)))
        | inr quiet ↦ quiet
      ]
