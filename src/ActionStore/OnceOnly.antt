-- ===== src/ActionStore/OnceOnly.antt =====
-- postgres-recording-action-store.mjs: the provider is called at most once for an action.
use air_call_demo_recording.Base.{
  ℕ, ◌+◌, ◌≤◌, ◌≡◌, refl, inl, inr, Bool, Option, none, some, List, [], ◌∷◌, ◌++◌, arith,
  if◌then◌else◌, Bool-cases, Attempt, returned, thrown,
}
use mathlib.Core.Path.{subst}
use air_call_demo_recording.ActionStore.Dispatch.{execute_with_dispatch_fence, Weather}
use air_call_demo_recording.Base.Text.{Text, text_eq}
use air_call_demo_recording.Base.Text.Laws.{text_eq→eq, text_eq_refl}
use air_call_demo_recording.ActionStore.{
  ActionStatus, dispatching, succeeded, outcome_unknown, Scope, ActionRow, Tables, Claim, put,
  claim, schedule_retry, cancel, FailureCode, prepare_dispatch, disable_actions, activate,
}
use air_call_demo_recording.ActionStore.Requests.{
  Context, Request, enqueue_approved_action, record_decision,
}
use air_call_demo_recording.ActionStore.History.{
  System, Settings, advance_all, advance, after_prepare, execute_first, Event, activating,
  postpone_first, enqueuing, lose_first, denying, claiming, retrying, canceling, preparing,
  executing, disabling, losing, postponing,
}

unfoldable pub count_calls : Text → List Text → ℕ
count_calls k [] = 0
count_calls k (j ∷ keys) = (if text_eq j k then 1 else 0) + count_calls k keys

unfoldable pub count_prepared : Text → List Claim → ℕ
count_prepared k [] = 0
count_prepared k (c ∷ claims) = (if text_eq c.action_key k then 1 else 0) + count_prepared k claims

-- Whether an action may have reached the provider.
abbrev pub dispatched : ActionStatus → ℕ
dispatched dispatching = 1
dispatched succeeded = 1
dispatched outcome_unknown = 1
dispatched _ = 0

abbrev pub budget : Option ActionRow → ℕ
budget none = 0
budget (some r) = dispatched r.status

-- The calls made for an action and those still to be made are within its budget.
abbrev pub IsWithin : System → Type 0
IsWithin s =
    (k : Text)
    → count_calls k s.provider_calls + count_prepared k s.prepared ≤ budget (s.tables.outbox k)

-- An operation that prepares nothing and calls nobody keeps within the budget if no action's
-- budget shrinks.
abbrev Grows : Tables → Tables → Type 0
Grows t u = (k : Text) → budget (t.outbox k) ≤ budget (u.outbox k)

put-Grows :
    (outbox : Text → Option ActionRow) (k : Text) (row : Option ActionRow)
    → budget (outbox k) ≤ budget row
    → (j : Text) → budget (outbox j) ≤ budget (put k row outbox j)
put-Grows outbox k row h j = elim (Bool-cases (text_eq j k)) [
  | inl same ↦ rw (same, text_eq→eq j k same) h
  | inr differs ↦ rw differs (omega arith)
]

claim-Grows :
    (scope : Option Scope) (ms now : ℕ) (token key : Text) (t : Tables)
    → Grows t (claim scope ms now token key t).1
unfolding claim
claim-Grows scope ms now token key t k = ground (arith, text_eq→eq k key)

schedule_retry-Grows :
    (delay now : ℕ) (c : Claim) (t : Tables) → Grows t (schedule_retry delay now c t).1
unfolding schedule_retry
schedule_retry-Grows delay now c t k = ground (arith, text_eq→eq k c.action_key)

cancel-Grows :
    (reason : FailureCode) (now : ℕ) (c : Claim) (t : Tables) → Grows t (cancel reason now c t).1
unfolding cancel
cancel-Grows reason now c t k = ground (arith, text_eq→eq k c.action_key)

enqueue-Grows :
    (encrypt : Text → Text → Context → Text) (id : Text) (scope : Option Scope) (now : ℕ)
    (x : Request) (t : Tables)
    → Grows t (enqueue_approved_action encrypt id scope now x t).1
unfolding enqueue_approved_action
enqueue-Grows encrypt id scope now x t k = ground (arith, text_eq→eq k x.action_key_hash)

record_decision-Grows :
    (now : ℕ) (k p : Text) (b : Bool) (c : Option Text) (t : Tables)
    → Grows t (record_decision now k p b c t).1
unfolding record_decision
record_decision-Grows now k p b c t j = ground arith

execute-Grows :
    (scope : Option Scope) (w : Weather) (c : Claim) (t : Tables)
    → Grows t (execute_with_dispatch_fence scope w c t).tables
unfolding execute_with_dispatch_fence
execute-Grows scope w c t k = ground (arith, text_eq→eq k c.action_key)

one_if : Text → Text → ℕ
one_if j k = if text_eq j k then 1 else 0

-- A prepared dispatch takes its action's budget from none to one.
prepare-takes :
    (scope : Option Scope) (age now : ℕ) (c : Claim) (t u : Tables)
    → prepare_dispatch scope age now c t ≡ (returned tt, u)
    → (k : Text) → one_if c.action_key k + budget (t.outbox k) ≤ budget (u.outbox k)
unfolding prepare_dispatch one_if
prepare-takes scope age now c t u e k =
    ground (arith, text_eq→eq k c.action_key, text_eq→eq c.action_key k, text_eq_refl c.action_key)

prepare-thrown :
    (scope : Option Scope) (age now : ℕ) (c : Claim) (t u : Tables)
    → prepare_dispatch scope age now c t ≡ (thrown, u)
    → t ≡ u
unfolding prepare_dispatch
prepare-thrown scope age now c t u e = ground arith

count_prepared-append :
    (k : Text) (claims : List Claim) (c : Claim)
    → count_prepared k (claims ++ c ∷ []) ≡ count_prepared k (c ∷ claims)
unfolding count_prepared
count_prepared-append k [] c = refl
count_prepared-append k (d ∷ claims) c = omega (arith, count_prepared-append k claims c)

IsWithin-Grows :
    (s : System) (t : Tables) → IsWithin s → Grows s.tables t → IsWithin (record s { tables = t })
IsWithin-Grows s t h g k = omega (arith, h k, g k)

module _ (g : Settings) where
  prepare-IsWithin :
      (now : ℕ) (c : Claim) (s : System)
      → IsWithin s
      → (r : Attempt (Unit {0}) × Tables)
      → prepare_dispatch g.scope g.max_decision_age_ms now c s.tables ≡ r
      → IsWithin (after_prepare c s r)
  unfolding count_prepared one_if
  prepare-IsWithin now c s h (returned done, t) e k =
      omega (arith, h k, prepare-takes g.scope g.max_decision_age_ms now c s.tables t e k)
  prepare-IsWithin now c s h (thrown, t) e k =
      subst (λ u. IsWithin (record s { tables = u }))
        (prepare-thrown g.scope g.max_decision_age_ms now c s.tables t e) h k

  execute-IsWithin :
      (w : Weather) (s : System) (claims : List Claim)
      → s.prepared ≡ claims
      → IsWithin s
      → IsWithin (execute_first g w s claims)
  unfolding count_prepared count_calls
  execute-IsWithin w s [] e h k = h k
  execute-IsWithin w s (c ∷ rest) e h k =
      let before =
        subst
          (λ x. count_calls k s.provider_calls + count_prepared k x ≤ budget (s.tables.outbox k)) e
          (h k) in
      ground (arith, execute-Grows g.scope w c s.tables k)

  lose-IsWithin :
      (s : System) (claims : List Claim)
      → s.prepared ≡ claims
      → IsWithin s
      → IsWithin (lose_first g s claims)
  unfolding count_prepared
  lose-IsWithin s [] e h k = h k
  lose-IsWithin s (c ∷ rest) e h k =
      let before =
        subst
          (λ x. count_calls k s.provider_calls + count_prepared k x ≤ budget (s.tables.outbox k)) e
          (h k) in
      omega arith

  postpone-IsWithin :
      (s : System) (claims : List Claim)
      → s.prepared ≡ claims
      → IsWithin s
      → IsWithin (postpone_first g s claims)
  postpone-IsWithin s [] e h k = h k
  postpone-IsWithin s (c ∷ rest) e h k =
      let before =
        subst
          (λ x. count_calls k s.provider_calls + count_prepared k x ≤ budget (s.tables.outbox k)) e
          (h k) in
      omega (arith, count_prepared-append k rest c)

  advance-IsWithin : (e : Event) (s : System) → IsWithin s → IsWithin (advance g e s)
  unfolding advance disable_actions activate
  advance-IsWithin disabling s h = IsWithin-Grows s (disable_actions s.tables) h (λ k. omega arith)
  advance-IsWithin (activating scope until) s h =
      IsWithin-Grows s (activate scope until s.tables) h (λ k. omega arith)
  advance-IsWithin (enqueuing now x) s h =
      IsWithin-Grows s (enqueue_approved_action g.encrypt g.key_id g.scope now x s.tables).1 h
        (enqueue-Grows g.encrypt g.key_id g.scope now x s.tables)
  advance-IsWithin (denying now k p b c) s h =
      IsWithin-Grows s (record_decision now k p b c s.tables).1 h
        (record_decision-Grows now k p b c s.tables)
  advance-IsWithin (claiming now token key) s h =
      IsWithin-Grows s (claim g.scope g.lease_ms now token key s.tables).1 h
        (claim-Grows g.scope g.lease_ms now token key s.tables)
  advance-IsWithin (retrying delay now c) s h =
      IsWithin-Grows s (schedule_retry delay now c s.tables).1 h
        (schedule_retry-Grows delay now c s.tables)
  advance-IsWithin (canceling reason now c) s h =
      IsWithin-Grows s (cancel reason now c s.tables).1 h (cancel-Grows reason now c s.tables)
  advance-IsWithin (preparing now c) s h = prepare-IsWithin now c s h _ refl
  advance-IsWithin (executing w) s h = execute-IsWithin w s s.prepared refl h
  advance-IsWithin losing s h = lose-IsWithin s s.prepared refl h
  advance-IsWithin postponing s h = postpone-IsWithin s s.prepared refl h

  advance_all-IsWithin : (es : List Event) (s : System) → IsWithin s → IsWithin (advance_all g es s)
  unfolding advance_all
  advance_all-IsWithin [] s h = h
  advance_all-IsWithin (e ∷ es) s h =
      advance_all-IsWithin es (advance g e s) (advance-IsWithin e s h)

-- A system before its first action: nothing in the outbox, nothing prepared, nobody called.
abbrev pub IsFresh : System → Type 0
IsFresh s = ((k : Text) → s.tables.outbox k ≡ none) × (s.prepared ≡ []) × (s.provider_calls ≡ [])

IsFresh-IsWithin : (s : System) → IsFresh s → IsWithin s
unfolding count_calls count_prepared
IsFresh-IsWithin s (empty, idle, silent) k = rw (idle, silent, empty k) (omega arith)

budget-le-one : (o : Option ActionRow) → budget o ≤ 1
budget-le-one o = ground arith

-- Whatever the workers, the administrators and the connections do, in any order, crashes and lost
-- commits included, as long as each prepared dispatch is executed at most once: the provider is
-- called at most once for an action, and it is called for none whose row is not dispatching,
-- succeeded or of unknown outcome.
pub count_calls-advance_all :
    (g : Settings) (es : List Event) (s : System)
    → IsFresh s
    → (k : Text)
    → (count_calls k (advance_all g es s).provider_calls ≤ 1)
      × (count_calls k (advance_all g es s).provider_calls
          ≤ budget ((advance_all g es s).tables.outbox k))
count_calls-advance_all g es s fresh k =
    let within = advance_all-IsWithin g es s (IsFresh-IsWithin s fresh) k in
    omega (arith, budget-le-one ((advance_all g es s).tables.outbox k))
