-- ===== src/ConsentStore/Fencing.antt =====
-- postgres-consent-decision-store.mjs: the token of a lease fences its holder's calls.
use air_call_demo_recording.Base.{
  ℕ, ◌+◌, ◌<◌, ◌≡◌, refl, sym, ap, ◌≢◌, inl, inr, true, false, Option, none, some, ◌∷◌, arith,
  Bool-cases, and-both, returned, thrown,
}
use air_call_demo_recording.Base.Text.{Text, text_eq}
use air_call_demo_recording.Base.Text.Laws.{text_eq→eq, text_eq_refl}
use air_call_demo_recording.ConsentStore.{
  Result, processing, ClaimRow, Lease, granted, Connection, Store, update, claim, finalize, release,
  safe_decision, safe_correlation, fenced_by, held_by, leased, finished, after, token_is,
}

token_is-some : (o : Option Text) (t : Text) → token_is o t ≡ true → o ≡ some t
token_is-some none t e = cc
token_is-some (some s) t e = ap some (text_eq→eq s t e)

-- A row that holds a lease which has not run out.
pub record IsHeld (o : Option ClaimRow) (token : Text) (now : ℕ) : Type 0 where
  pub row : ClaimRow
  pub present : o ≡ some row
  pub running : row.status ≡ processing
  pub token_same : row.lease_token ≡ some token
  pub expires : ℕ
  pub expires_at : row.lease_expires_at ≡ some expires
  pub in_time : now < expires

fenced_by-IsHeld :
    (o : Option ClaimRow) (token : Text) (now : ℕ)
    → fenced_by o token now ≡ true
    → IsHeld o token now
fenced_by-IsHeld none token now e = cc
fenced_by-IsHeld (some r) token now e =
    let (held, late) = and-both _ _ e in
    let (same, running) = and-both _ _ held in
    let (until, at, lt) = after-some r.lease_expires_at late in
    record {
      row = r;
      present = refl;
      running = ground arith;
      token_same = token_is-some r.lease_token token same;
      expires = until;
      expires_at = at;
      in_time = lt;
    }
  where
    after-some : (x : Option ℕ) → after x now ≡ true → (t : ℕ) × (x ≡ some t) × (now < t)
    after-some none h = cc
    after-some (some t) h = (t, refl, ground arith)

held_by-other :
    (token : Text) (until : ℕ) (t : Text)
    → t ≢ token
    → held_by (some (leased token until)) t ≡ false
held_by-other token until t other = elim (Bool-cases (text_eq token t)) [
  | inl same ↦ absurd (other (sym (text_eq→eq token t same)))
  | inr differs ↦ ground arith
]

fenced_by-unheld :
    (o : Option ClaimRow) (token : Text) (now : ℕ)
    → held_by o token ≡ false
    → fenced_by o token now ≡ false
fenced_by-unheld none token now e = refl
fenced_by-unheld (some r) token now e = ground arith

update_self :
    (k : Text) (row : Option ClaimRow) (claims : Text → Option ClaimRow)
    → update k row claims k ≡ row
unfolding update
update_self k row claims = rw (text_eq_refl k)

module _ (hash : Text → Text) where
  -- A finalization that returns was called by the holder of a lease that has not run out; it
  -- completes the claim and adds one audit row, with the decision and the correlation that the
  -- tables admit.
  pub finalize-returned :
      (now : ℕ) (c : Connection) (lease : Lease) (result : Result) (correlation : Text)
      (s s' : Store)
      → finalize hash now c lease result correlation s ≡ (returned tt, s')
      → IsHeld (s.tables.claims (hash lease.key)) lease.lease_token now
        × (s'.tables.claims (hash lease.key) ≡ some (finished now))
        × (s'.tables.audit
            ≡ record {
              event_key_hash = hash lease.key;
              result = safe_decision result;
              correlation_prefix = safe_correlation correlation;
            }
              ∷ s.tables.audit)
  unfolding finalize
  finalize-returned now c lease result correlation s s' e =
      elim (Bool-cases (fenced_by (s.tables.claims (hash lease.key)) lease.lease_token now)) [
        | inl fenced ↦ (
          fenced_by-IsHeld _ lease.lease_token now fenced,
          ground (arith, update_self (hash lease.key) (some (finished now)) s.tables.claims),
          ground arith,
        )
        | inr lost ↦ absurd (ground arith)
      ]

  claim-leases :
      (ttl now : ℕ) (c : Connection) (token key : Text) (s s' : Store) (lease : Lease)
      → claim hash ttl now c token key s ≡ (returned (granted lease), s')
      → s'.tables.claims (hash key) ≡ some (leased token (now + ttl))
  unfolding claim
  claim-leases ttl now c token key s s' lease e =
      ground (arith, update_self (hash key) (some (leased token (now + ttl))) s.tables.claims)

  finalize-unheld :
      (now : ℕ) (c : Connection) (lease : Lease) (result : Result) (correlation : Text) (s : Store)
      → held_by (s.tables.claims (hash lease.key)) lease.lease_token ≡ false
      → finalize hash now c lease result correlation s ≡ (thrown, s)
  unfolding finalize
  finalize-unheld now c lease result correlation s unheld =
      ground (arith, fenced_by-unheld (s.tables.claims (hash lease.key)) lease.lease_token now)

  release-unheld :
      (c : Connection) (lease : Lease) (s : Store)
      → held_by (s.tables.claims (hash lease.key)) lease.lease_token ≡ false
      → (release hash c lease s).1.tables ≡ s.tables
  unfolding release
  release-unheld c lease s unheld = ground arith

  -- In the state that the grant of a key's claim to a token leaves, a finalization of that key under
  -- another token throws and changes nothing, and a release of that key under another token leaves the
  -- tables as they are.
  pub claim-fences :
      (ttl now : ℕ) (c : Connection) (token key : Text) (s s' : Store) (lease : Lease)
      → claim hash ttl now c token key s ≡ (returned (granted lease), s')
      → (old : Lease) → old.key ≡ key
      → old.lease_token ≢ token
      → (later : ℕ) (d : Connection) (result : Result) (correlation : Text)
      → (finalize hash later d old result correlation s' ≡ (thrown, s'))
        × ((release hash d old s').1.tables ≡ s'.tables)
  claim-fences ttl now c token key s s' lease e old same_key other later d result correlation =
      let row = claim-leases ttl now c token key s s' lease e in
      let lost = held_by-other token (now + ttl) old.lease_token other in
      let unheld : held_by (s'.tables.claims (hash old.key)) old.lease_token ≡ false =
        rw (same_key, row) lost in
      (finalize-unheld later d old result correlation s' unheld, release-unheld d old s' unheld)
