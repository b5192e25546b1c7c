-- ===== src/ConsentStore/Steps.antt =====
-- postgres-consent-decision-store.mjs: the changes that the operations make to the tables, and the
-- histories that they make up, in any order and from any callers.
use air_call_demo_recording.Base.Text.Patterns.{is_opaque}
use air_call_demo_recording.Base.{
  ℕ, ◌+◌, ◌≡◌, refl, sym, ◌∙◌, inl, inr, Bool, true, not, ◌||◌, Option, none, some, List, [], ◌∷◌,
  arith, Bool-cases, and-both, Attempt,
}
use air_call_demo_recording.Base.Text.Laws.{text_eq→eq}
use air_call_demo_recording.Base.Text.{Text, text_eq}
use air_call_demo_recording.ConsentStore.{
  Result, processing, completed, ClaimRow, Tables, Lease, Connection, works, fails, commit_unheard,
  Store, update, transact, claim, finalize, release, close, safe_correlation, claimable, fenced_by,
  held_by, ready, safe_claim,
}
use air_call_demo_recording.ConsentStore.Invariant.{
  IsConsistent, granted_tables, completed_tables, released_tables, granted-IsConsistent,
  completed-IsConsistent, released-IsConsistent, audits, completions,
}

-- A change of the tables under the test that its operation makes first, as a device of the proofs: that
-- each operation makes one of them is shown from its code.
pub data Step (t : Tables) (u : Tables) : Type 0 where
  stay : u ≡ t → Step t u
  grant :
      (k token : Text) (until now : ℕ)
      → claimable (t.claims k) now ≡ true
      → u ≡ granted_tables k token until t
      → Step t u
  complete :
      (k token : Text) (now : ℕ) (result : Result) (correlation : Option Text)
      → fenced_by (t.claims k) token now ≡ true
      → u ≡ completed_tables k now result correlation t
      → Step t u
  give_up :
      (k token : Text) → held_by (t.claims k) token ≡ true → u ≡ released_tables k t → Step t u

fenced_by-held_by :
    (r : Option ClaimRow) (token : Text) (now : ℕ)
    → fenced_by r token now ≡ true
    → held_by r token ≡ true
fenced_by-held_by none token now e = e
fenced_by-held_by (some r) token now e = (and-both _ _ e).0

pub Step-IsConsistent : {t u : Tables} → Step t u → IsConsistent t → IsConsistent u
Step-IsConsistent (stay e) h = rw e h
Step-IsConsistent {t} (grant k token until now free e) h =
    rw e (granted-IsConsistent k token until now t free h)
Step-IsConsistent {t} (complete k token now result correlation fenced e) h = rw e (
    completed-IsConsistent k token now result correlation t
      (fenced_by-held_by (t.claims k) token now fenced) h)
Step-IsConsistent {t} (give_up k token held e) h = rw e (released-IsConsistent k token t held h)

-- An operation's result whose tables are a step away from those of the store.
Moves {ℓ} : {A : Type ℓ} → Store → Attempt A × Store → Type 0
Moves s r = Step s.tables r.1.tables

Moves-stay {ℓ} : {A : Type ℓ} (a : Attempt A) (s : Store) → Moves s (a, s)
unfolding Moves
Moves-stay a s = stay refl

-- A transaction leaves what it means to leave, or nothing.
Moves-transact {ℓ} :
    {A : Type ℓ} (c : Connection) (a : A) (t : Tables) (s : Store)
    → Step s.tables t
    → Moves s (transact c a t s)
unfolding Moves
Moves-transact works a t s st = st
Moves-transact fails a t s st = stay refl
Moves-transact commit_unheard a t s st = st

module _ (hash : Text → Text) where
  claim-Moves :
      (ttl now : ℕ) (c : Connection) (token key : Text) (s : Store)
      → Moves s (claim hash ttl now c token key s)
  unfolding claim
  claim-Moves ttl now c token key s = elim (Bool-cases (not (ready s) || not (is_opaque key))) [
    | inl bad ↦ rw bad (Moves-stay _ s)
    | inr good ↦ elim (Bool-cases (claimable (s.tables.claims (hash key)) now)) [
      | inl free ↦
          rw (good, free)
            (Moves-transact c _ _ s (grant (hash key) token (now + ttl) now free refl))
      | inr taken ↦ rw (good, taken) (Moves-transact c _ _ s (stay refl))
    ]
  ]

  finalize-Moves :
      (now : ℕ) (c : Connection) (lease : Lease) (result : Result) (correlation : Text) (s : Store)
      → Moves s (finalize hash now c lease result correlation s)
  unfolding finalize
  finalize-Moves now c lease result correlation s =
      elim (Bool-cases (not (ready s) || not (safe_claim lease))) [
        | inl bad ↦ rw bad (Moves-stay _ s)
        | inr good ↦
            elim (Bool-cases (fenced_by (s.tables.claims (hash lease.key)) lease.lease_token now)) [
              | inl fenced ↦
                  rw (good, fenced)
                    (Moves-transact c _ _ s (
                      complete (hash lease.key) lease.lease_token now result
                        (safe_correlation correlation) fenced refl))
              | inr lost ↦ rw (good, lost) (Moves-stay _ s)
            ]
      ]

  release-Moves : (c : Connection) (lease : Lease) (s : Store) → Moves s (release hash c lease s)
  unfolding release
  release-Moves c lease s = elim (Bool-cases (not (ready s))) [
    | inl bad ↦ rw bad (Moves-stay _ s)
    | inr good ↦ elim (Bool-cases (not (safe_claim lease))) [
      | inl unsafe ↦ rw (good, unsafe) (Moves-stay _ s)
      | inr safe ↦
          elim (Bool-cases (held_by (s.tables.claims (hash lease.key)) lease.lease_token)) [
            | inl held ↦
                rw (good, safe, held)
                  (Moves-transact c _ _ s (give_up (hash lease.key) lease.lease_token held refl))
            | inr lost ↦ rw (good, safe, lost) (Moves-transact c _ _ s (stay refl))
          ]
    ]
  ]

-- A call of the store by any of the processes that share its tables.
pub data Call : Type 0 where
  claiming : (ttl now : ℕ) → Connection → (token key : Text) → Call
  finalizing : (now : ℕ) → Connection → Lease → Result → Text → Call
  releasing : Connection → Lease → Call
  closing : Call

module _ (hash : Text → Text) where
  unfoldable pub perform : Call → Store → Store
  perform (claiming ttl now c token key) s = (claim hash ttl now c token key s).1
  perform (finalizing now c lease result correlation) s =
      (finalize hash now c lease result correlation s).1
  perform (releasing c lease) s = (release hash c lease s).1
  perform closing s = close s

  unfoldable pub perform_all : List Call → Store → Store
  perform_all [] s = s
  perform_all (call ∷ calls) s = perform_all calls (perform call s)

  pub perform-Step : (call : Call) (s : Store) → Step s.tables (perform call s).tables
  unfolding perform close Moves
  perform-Step (claiming ttl now c token key) s = claim-Moves hash ttl now c token key s
  perform-Step (finalizing now c lease result correlation) s =
      finalize-Moves hash now c lease result correlation s
  perform-Step (releasing c lease) s = release-Moves hash c lease s
  perform-Step closing s = stay refl

  pub perform_all-IsConsistent :
      (calls : List Call) (s : Store)
      → IsConsistent s.tables
      → IsConsistent (perform_all calls s).tables
  unfolding perform_all
  perform_all-IsConsistent [] s h = h
  perform_all-IsConsistent (call ∷ calls) s h =
      perform_all-IsConsistent calls (perform call s) (Step-IsConsistent (perform-Step call s) h)

abbrev pub empty_tables : Tables
empty_tables = record { claims = λ k. none; audit = [] }

pub empty_tables-IsConsistent : IsConsistent empty_tables
unfolding audits
empty_tables-IsConsistent = record { audited = λ k. refl; shaped = λ k r e. cc; admitted = tt }

-- After any calls on empty tables, by any callers in any order and over any connections, failing
-- ones included: a key has one audit row if its claim is completed, and none if it is not.
pub audits-perform_all :
    (hash : Text → Text) (calls : List Call) (migrated closed : Bool) (k : Text)
    → let t =
        (perform_all hash calls
          (record { migrated = migrated; closed = closed; tables = empty_tables })).tables in
      audits k t.audit ≡ completions (t.claims k)
audits-perform_all hash calls migrated closed k =
    (perform_all-IsConsistent hash calls _ empty_tables-IsConsistent).audited k

processing-ne-completed : processing ≡ completed → ⊥
processing-ne-completed e = cc

claimable-running :
    (o : Option ClaimRow) (now : ℕ)
    → claimable o now ≡ true
    → (r : ClaimRow) → o ≡ some r
    → r.status ≡ processing
claimable-running o now free r e = ground arith

held_by-running :
    (o : Option ClaimRow) (token : Text)
    → held_by o token ≡ true
    → (r : ClaimRow) → o ≡ some r
    → r.status ≡ processing
held_by-running o token held r e = ground arith

other_key :
    (claims : Text → Option ClaimRow) (j k : Text) (new : Option ClaimRow) {row : ClaimRow}
    → claims k ≡ some row
    → row.status ≡ completed
    → ((r : ClaimRow) → claims j ≡ some r → r.status ≡ processing)
    → update j new claims k ≡ some row
unfolding update
other_key claims j k new {row} at done running = elim (Bool-cases (text_eq k j)) [
  | inl same ↦
      absurd (processing-ne-completed (sym (running row (rw (text_eq→eq k j same) at at)) ∙ done))
  | inr differs ↦ rw differs at
]

Step-completed :
    {t u : Tables} (k : Text) (row : ClaimRow)
    → Step t u
    → t.claims k ≡ some row
    → row.status ≡ completed
    → u.claims k ≡ some row
Step-completed k row (stay e) at done = rw e at
Step-completed {t} k row (grant j token until now free e) at done =
    rw e (other_key t.claims j k _ at done (claimable-running (t.claims j) now free))
Step-completed {t} k row (complete j token now result correlation fenced e) at done = rw e (
    other_key t.claims j k _ at done
      (held_by-running (t.claims j) token (fenced_by-held_by (t.claims j) token now fenced)))
Step-completed {t} k row (give_up j token held e) at done =
    rw e (other_key t.claims j k _ at done (held_by-running (t.claims j) token held))

module _ (hash : Text → Text) (k : Text) (row : ClaimRow) (done : row.status ≡ completed) where
  perform-completed :
      (call : Call) (s : Store)
      → s.tables.claims k ≡ some row
      → (perform hash call s).tables.claims k ≡ some row
  perform-completed call s at = Step-completed k row (perform-Step hash call s) at done

  -- A completed claim is never granted, released or completed again: after any calls, by any callers in
  -- any order and over any connections, its row is as it was.
  pub perform_all-completed :
      (calls : List Call) (s : Store)
      → s.tables.claims k ≡ some row
      → (perform_all hash calls s).tables.claims k ≡ some row
  unfolding perform_all
  perform_all-completed [] s at = at
  perform_all-completed (call ∷ calls) s at =
      perform_all-completed calls (perform hash call s) (perform-completed call s at)
