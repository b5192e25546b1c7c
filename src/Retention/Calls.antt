-- ===== src/Retention/Calls.antt =====
-- postgres-two-party-retention-store.mjs: the call of an action, which no change of a row or a new
-- row alters, and the rows whose status says that the call's recording was found unavailable.
use mathlib.Core.Path.{subst}
use air_call_demo_recording.Base.{
  ℕ, zero, suc, ◌≡◌, refl, ap, ◌⊎◌, inl, inr, Bool, true, false, ◌&&◌, ◌||◌, Option, none, some,
  List, [], ◌∷◌, ◌++◌, arith, Option-cases, get_elem?,
}
use air_call_demo_recording.Base.Text.{Text, text_eq}
use air_call_demo_recording.Retention.{
  new_action, RetentionStatus, delete_confirmed, clearing, monday_link_cleared, RetentionDecision,
  RetentionAction, RetentionTables,
}
use air_call_demo_recording.Retention.Actions.{set_elem, unsealed, with_action}
use air_call_demo_recording.Retention.Finalizer.{RemoteCall, found_unavailable, clear_link}

-- Whether Aircall reported the recording of a call as unavailable.
unfoldable pub found : Text → List RemoteCall → Bool
found k [] = false
found k (found_unavailable call ∷ log) = text_eq call k || found k log
found k (_ ∷ log) = found k log

abbrev pub founded : RemoteCall → List RemoteCall → Bool
founded (clear_link call item) earlier = found call earlier
founded _ earlier = true

-- Each clearing of a link comes after a report that the call's recording is unavailable.
unfoldable pub all_founded : List RemoteCall → Bool
all_founded [] = true
all_founded (call ∷ earlier) = founded call earlier && all_founded earlier

-- The statuses from the confirmation on.
abbrev pub is_confirmed : RetentionStatus → Bool
is_confirmed delete_confirmed = true
is_confirmed clearing = true
is_confirmed monday_link_cleared = true
is_confirmed _ = false

abbrev pub confirmed_at : Option RetentionAction → Bool
confirmed_at none = false
confirmed_at (some r) = is_confirmed r.status

abbrev pub found_at : Option Text → List RemoteCall → Bool
found_at none log = false
found_at (some call) log = found call log

abbrev pub call_in : Option RetentionDecision → Option Text
call_in none = none
call_in (some d) = some d.provider_call_id

pub get_elem?-append_some {ℓ} :
    {A : Type ℓ} (xs ys : List A) (i : ℕ) (a : A)
    → get_elem? xs i ≡ some a
    → get_elem? (xs ++ ys) i ≡ some a
get_elem?-append_some [] ys i a h = cc
get_elem?-append_some (x ∷ xs) ys zero a h = h
get_elem?-append_some (x ∷ xs) ys (suc i) a h = get_elem?-append_some xs ys i a h

pub confirmed_at-append :
    (rows : List RetentionAction) (asset correlation : Text) (i : ℕ)
    → confirmed_at (get_elem? (rows ++ new_action asset correlation ∷ []) i) ≡ true
    → confirmed_at (get_elem? rows i) ≡ true
confirmed_at-append [] a k zero h = h
confirmed_at-append [] a k (suc i) h = h
confirmed_at-append (r ∷ rows) a k zero h = h
confirmed_at-append (r ∷ rows) a k (suc i) h = confirmed_at-append rows a k i h

confirmed_at-set_elem :
    (rows : List RetentionAction) (i : ℕ) (x : RetentionAction) (j : ℕ)
    → confirmed_at (get_elem? (set_elem rows i x) j) ≡ true
    → (confirmed_at (get_elem? rows j) ≡ true) ⊎ ((i ≡ j) × (is_confirmed x.status ≡ true))
confirmed_at-set_elem [] i x j h = inl h
confirmed_at-set_elem (r ∷ rows) zero x zero h = inr (refl, h)
confirmed_at-set_elem (r ∷ rows) zero x (suc j) h = inl h
confirmed_at-set_elem (r ∷ rows) (suc i) x zero h = inl h
confirmed_at-set_elem (r ∷ rows) (suc i) x (suc j) h = elim (confirmed_at-set_elem rows i x j h) [
  | inl was ↦ inl was
  | inr (same, now) ↦ inr (ap suc same, now)
]

module _ (unseal : Text → Text → Option RetentionDecision) where
  abbrev pub call_at : (Text → Option Text) → Option RetentionAction → Option Text
  call_at caps none = none
  call_at caps (some r) = call_in (unsealed unseal r.correlation (caps r.correlation))

  -- The call of an action.
  unfoldable pub call_of : RetentionTables → ℕ → Option Text
  call_of t id = call_at t.capabilities (get_elem? t.actions id)

  pub call_at-set_elem :
      (caps : Text → Option Text) (rows : List RetentionAction) (i : ℕ) (r x : RetentionAction)
      (j : ℕ)
      → get_elem? rows i ≡ some r
      → x.correlation ≡ r.correlation
      → call_at caps (get_elem? (set_elem rows i x) j) ≡ call_at caps (get_elem? rows j)
  call_at-set_elem caps [] i r x j h e = refl
  call_at-set_elem caps (y ∷ rows) zero r x zero h e = ground arith
  call_at-set_elem caps (y ∷ rows) zero r x (suc j) h e = refl
  call_at-set_elem caps (y ∷ rows) (suc i) r x zero h e = refl
  call_at-set_elem caps (y ∷ rows) (suc i) r x (suc j) h e = call_at-set_elem caps rows i r x j h e

  -- Every action keeps its call.
  abbrev pub Follows : RetentionTables → RetentionTables → Type 0
  Follows t u = (id : ℕ) (call : Text) → call_of t id ≡ some call → call_of u id ≡ some call

  -- The call of an action that is confirmed was found.
  abbrev pub IsSound : RetentionTables → List RemoteCall → Type 0
  IsSound t log =
      (id : ℕ) → confirmed_at (get_elem? t.actions id) ≡ true → found_at (call_of t id) log ≡ true

  pub found_at-Follows :
      (t u : RetentionTables) (log : List RemoteCall)
      → Follows t u
      → (id : ℕ) → found_at (call_of t id) log ≡ true
      → found_at (call_of u id) log ≡ true
  found_at-Follows t u log f id h = elim (Option-cases (call_of t id)) [
    | inl e ↦ absurd (let h' : false ≡ true = rw e at h in cc h')
    | inr (call, e) ↦ rw (f id call e) (rw e at h)
  ]

  pub set_elem-Follows :
      (t : RetentionTables) (id : ℕ) (r x : RetentionAction)
      → get_elem? t.actions id ≡ some r
      → x.correlation ≡ r.correlation
      → Follows t (with_action t id x)
  unfolding call_of
  set_elem-Follows t id r x e same j call h =
      rw (call_at-set_elem t.capabilities t.actions id r x j e same) h

  pub set_elem-IsSound :
      (t : RetentionTables) (log : List RemoteCall) (id : ℕ) (r x : RetentionAction)
      → get_elem? t.actions id ≡ some r
      → x.correlation ≡ r.correlation
      → IsSound t log
      → (is_confirmed x.status ≡ true → found_at (call_of t id) log ≡ true)
      → IsSound (with_action t id x) log
  unfolding call_of
  set_elem-IsSound t log id r x e same sound founded j h =
      elim (confirmed_at-set_elem t.actions id x j h) [
        | inl was ↦ rw (call_at-set_elem t.capabilities t.actions id r x j e same) (sound j was)
        | inr (here, now) ↦
            subst (λ i. found_at (call_of (with_action t id x) i) log ≡ true) here
              (rw (call_at-set_elem t.capabilities t.actions id r x id e same) (founded now))
      ]
