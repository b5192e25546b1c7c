-- ===== src/ConsentStore/Invariant.antt =====
-- postgres-consent-decision-store.mjs: each key is audited once, when it is completed.
use mathlib.Core.Path.{subst}
use air_call_demo_recording.Base.{
  ℕ, ◌+◌, ◌≡◌, refl, inl, inr, true, Option, none, some, List, [], ◌∷◌, arith, if◌then◌else◌,
  Bool-cases, All,
}
use air_call_demo_recording.Base.Text.{Text, text_eq}
use air_call_demo_recording.Base.Text.Laws.{text_eq→eq, text_eq_refl}
use air_call_demo_recording.ConsentStore.{
  Result, processing, completed, ClaimRow, AuditRow, Tables, update, safe_decision, in_tables,
  leased, finished, held_by, claimable,
}

unfoldable pub audits : Text → List AuditRow → ℕ
audits k [] = 0
audits k (row ∷ rows) = (if text_eq k row.event_key_hash then 1 else 0) + audits k rows

abbrev pub completions : Option ClaimRow → ℕ
completions none = 0
completions (some r) = elim r.status [ processing ↦ 0 | completed ↦ 1 ]

-- The CHECK of the claims table.
abbrev pub IsShaped : ClaimRow → Type 0
IsShaped r = elim r.status [
  | processing ↦
      ((t : Text) × (r.lease_token ≡ some t))
      × ((e : ℕ) × (r.lease_expires_at ≡ some e))
      × (r.completed_at ≡ none)
  | completed ↦
      (r.lease_token ≡ none) × (r.lease_expires_at ≡ none) × ((e : ℕ) × (r.completed_at ≡ some e))
]

pub record IsConsistent (t : Tables) : Type 0 where
  pub audited : (k : Text) → audits k t.audit ≡ completions (t.claims k)
  pub shaped : (k : Text) (r : ClaimRow) → t.claims k ≡ some r → IsShaped r
  pub admitted : All (λ row. in_tables row.result.reason ≡ true) t.audit

safe_decision-admitted : (r : Result) → in_tables (safe_decision r).reason ≡ true
unfolding safe_decision
safe_decision-admitted r = ground arith

some_eq {ℓ} : {A : Type ℓ} {a b : A} → ◌≡◌ {A = Option A} (some a) (some b) → a ≡ b
some_eq e = cc

update-IsShaped :
    (claims : Text → Option ClaimRow) (k : Text) (row : Option ClaimRow)
    → ((j : Text) (r : ClaimRow) → claims j ≡ some r → IsShaped r)
    → ((r : ClaimRow) → row ≡ some r → IsShaped r)
    → (j : Text) (r : ClaimRow) → update k row claims j ≡ some r
    → IsShaped r
unfolding update
update-IsShaped claims k row old new j r e = elim (Bool-cases (text_eq j k)) [
  | inl same ↦ new r (rw same at e)
  | inr differs ↦ old j r (rw differs at e)
]

leased-IsShaped :
    (token : Text) (until : ℕ) (r : ClaimRow) → some (leased token until) ≡ some r → IsShaped r
leased-IsShaped token until r e = subst IsShaped (some_eq e) ((token, refl), (until, refl), refl)

finished-IsShaped : (now : ℕ) (r : ClaimRow) → some (finished now) ≡ some r → IsShaped r
finished-IsShaped now r e = subst IsShaped (some_eq e) (refl, refl, (now, refl))

-- The tables after a claim that is granted, a completion and a release.
abbrev pub granted_tables : Text → Text → ℕ → Tables → Tables
granted_tables k token until t = record t { claims = update k (some (leased token until)) t.claims }

abbrev pub completed_tables : Text → ℕ → Result → Option Text → Tables → Tables
completed_tables k now result correlation t = record {
  claims = update k (some (finished now)) t.claims;
  audit =
      record { event_key_hash = k; result = safe_decision result; correlation_prefix = correlation }
      ∷ t.audit;
}

abbrev pub released_tables : Text → Tables → Tables
released_tables k t = record t { claims = update k none t.claims }

pub granted-IsConsistent :
    (k token : Text) (until now : ℕ) (t : Tables)
    → claimable (t.claims k) now ≡ true
    → IsConsistent t
    → IsConsistent (granted_tables k token until t)
granted-IsConsistent k token until now t free h = record {
  audited = λ j. unfold update in ground (arith, h.audited j, text_eq→eq j k);
  shaped = update-IsShaped t.claims k _ h.shaped (leased-IsShaped token until);
  admitted = h.admitted;
}

pub completed-IsConsistent :
    (k token : Text) (now : ℕ) (result : Result) (correlation : Option Text) (t : Tables)
    → held_by (t.claims k) token ≡ true
    → IsConsistent t
    → IsConsistent (completed_tables k now result correlation t)
completed-IsConsistent k token now result correlation t held h = record {
  audited =
      λ j. unfold update audits in ground (arith, h.audited j, text_eq→eq j k, text_eq_refl j);
  shaped = update-IsShaped t.claims k _ h.shaped (finished-IsShaped now);
  admitted = (safe_decision-admitted result, h.admitted);
}

pub released-IsConsistent :
    (k token : Text) (t : Tables)
    → held_by (t.claims k) token ≡ true
    → IsConsistent t
    → IsConsistent (released_tables k t)
released-IsConsistent k token t held h = record {
  audited = λ j. unfold update in ground (arith, h.audited j, text_eq→eq j k);
  shaped = update-IsShaped t.claims k none h.shaped (λ r e. cc);
  admitted = h.admitted;
}
