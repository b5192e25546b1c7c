-- ===== src/ConsentStore.antt =====
-- postgres-consent-decision-store.mjs over the tables of migrations/001-consent-decision-store.sql.
-- `hash` is the SHA-256 digest of node:crypto in hex. Each operation takes the clock's time and what
-- the connection does: a transaction that fails leaves the tables as they were, or, when only the
-- answer to its COMMIT is lost, as it meant to leave them.
pub mod Invariant
pub mod Steps
pub mod Fencing
mod Examples
use air_call_demo_recording.Base.{
  ℕ, zero, suc, ◌+◌, ◌-◌, ◌*◌, ◌/◌, ◌%◌, ◌^◌, ◌≤◌, ◌<◌, ◌≡◌, refl, sym, ap, ◌∙◌, ◌≢◌, ◌↔◌, ◌⊎◌, inl,
  inr, Bool, true, false, not, ◌&&◌, ◌||◌, Option, none, some, List, [], ◌∷◌, ◌++◌, map, arith, ltb,
  leb, ◌==◌, if◌then◌else◌, ==_iff, Bool-cases, Option-cases, and-both, length, get_elem?,
  get_elem?-lt, all, any, All, Attempt, returned, thrown,
}
use air_call_demo_recording.Base.Text.{Text, text_eq, has}
use air_call_demo_recording.Base.Text.Patterns.{is_opaque, is_correlation}

-- The reasons of the decision service; the tables hold the first seven.
pub data DecisionReason : Type 0 where
  audit_only_eligible_one_party_state not_one_party_state invalid_state : DecisionReason
  invalid_ruleset resolver_not_found resolver_not_unique resolver_denied : DecisionReason
  dependency_failure invalid_event : DecisionReason

pub data Outcome : Type 0 where
  left_disabled : Outcome

pub record Result : Type 0 where
  pub outcome : Outcome
  pub reason : DecisionReason

pub data ClaimStatus : Type 0 where
  processing completed : ClaimStatus

pub record ClaimRow : Type 0 where
  pub status : ClaimStatus
  pub lease_token : Option Text
  pub lease_expires_at : Option ℕ
  pub completed_at : Option ℕ

pub record AuditRow : Type 0 where
  pub event_key_hash : Text
  pub result : Result
  pub correlation_prefix : Option Text

-- The claims by their key's hash, the audit outbox with its last row first.
pub record Tables : Type 0 where
  pub claims : Text → Option ClaimRow
  pub audit : List AuditRow

pub record Lease : Type 0 where
  pub claimed : Bool
  pub key : Text
  pub lease_token : Text

pub data ClaimResult : Type 0 where
  granted : Lease → ClaimResult
  refused : Text → ClaimResult

pub data Connection : Type 0 where
  works fails commit_unheard : Connection

-- The store: whether its migration succeeded, whether it was closed, and its tables.
pub record Store : Type 0 where
  pub migrated : Bool
  pub closed : Bool
  pub tables : Tables

unfoldable pub update : Text → Option ClaimRow → (Text → Option ClaimRow) → Text → Option ClaimRow
update k row claims j = if text_eq j k then row else claims j

abbrev pub at_most : Option ℕ → ℕ → Bool
at_most none now = false
at_most (some t) now = leb t now

abbrev pub after : Option ℕ → ℕ → Bool
after none now = false
after (some t) now = ltb now t

abbrev pub is_processing : ClaimStatus → Bool
is_processing processing = true
is_processing completed = false

abbrev pub token_is : Option Text → Text → Bool
token_is none t = false
token_is (some s) t = text_eq s t

-- The row that a claim writes, over none or over a lease that has run out.
abbrev pub leased : Text → ℕ → ClaimRow
leased token until = record {
  status = processing;
  lease_token = some token;
  lease_expires_at = some until;
  completed_at = none;
}

abbrev pub claimable : Option ClaimRow → ℕ → Bool
claimable none now = true
claimable (some r) now = is_processing r.status && at_most r.lease_expires_at now

-- `WHERE event_key_hash = $1 AND lease_token = $2 AND status = 'processing'`
abbrev pub held_by : Option ClaimRow → Text → Bool
held_by none token = false
held_by (some r) token = token_is r.lease_token token && is_processing r.status

-- The same with `AND lease_expires_at > NOW()`.
abbrev pub fenced_by : Option ClaimRow → Text → ℕ → Bool
fenced_by none token now = false
fenced_by (some r) token now = held_by (some r) token && after r.lease_expires_at now

abbrev pub finished : ℕ → ClaimRow
finished now = record {
  status = completed;
  lease_token = none;
  lease_expires_at = none;
  completed_at = some now;
}

abbrev pub in_tables : DecisionReason → Bool
in_tables dependency_failure = false
in_tables invalid_event = false
in_tables _ = true

-- `safeDecision`; the only outcome is the one of OUTCOMES.
unfoldable pub safe_decision : Result → Result
safe_decision r =
    if in_tables r.reason then r else record { outcome = left_disabled; reason = invalid_ruleset }

-- `safeCorrelation`; a correlation that passes has 64 characters at most, so `slice` keeps it.
unfoldable pub safe_correlation : Text → Option Text
safe_correlation t = if is_correlation t then some t else none

-- `safeClaim`
unfoldable pub safe_claim : Lease → Bool
safe_claim l =
    l.claimed && is_opaque l.key && leb 1 (length l.lease_token) && leb (length l.lease_token) 200

-- `safeTtl`, of a given integer or of none.
unfoldable pub safe_ttl : Option ℕ → Attempt ℕ
safe_ttl none = returned 60000
safe_ttl (some n) = if leb 1 n && leb n 86400000 then returned n else thrown

abbrev pub ready : Store → Bool
ready s = s.migrated && not s.closed

-- A transaction that means to leave `t`.
abbrev pub transact {ℓ} : {A : Type ℓ} → Connection → A → Tables → Store → Attempt A × Store
transact works a t s = (returned a, record s { tables = t })
transact fails a t s = (thrown, s)
transact commit_unheard a t s = (thrown, record s { tables = t })

module _ (hash : Text → Text) where
  unfoldable pub claim : ℕ → ℕ → Connection → Text → Text → Store → Attempt ClaimResult × Store
  claim ttl now connection token key s =
      if not (ready s) || not (is_opaque key)
      then (thrown, s)
      else if claimable (s.tables.claims (hash key)) now
      then transact connection (granted (record { claimed = true; key = key; lease_token = token }))
          (record s.tables {
            claims = update (hash key) (some (leased token (now + ttl))) s.tables.claims;
          })
          s
      else transact connection (refused key) s.tables s

  unfoldable pub finalize :
      ℕ → Connection → Lease → Result → Text → Store → Attempt (Unit {0}) × Store
  finalize now connection lease result correlation s =
      if not (ready s) || not (safe_claim lease)
      then (thrown, s)
      else if fenced_by (s.tables.claims (hash lease.key)) lease.lease_token now
      then transact connection tt
          (record {
            claims = update (hash lease.key) (some (finished now)) s.tables.claims;
            audit =
                record {
                  event_key_hash = hash lease.key;
                  result = safe_decision result;
                  correlation_prefix = safe_correlation correlation;
                }
                ∷ s.tables.audit;
          })
          s
      else (thrown, s)

  unfoldable pub release : Connection → Lease → Store → Attempt (Unit {0}) × Store
  release connection lease s =
      if not (ready s)
      then (thrown, s)
      else if not (safe_claim lease)
      then (returned tt, s)
      else if held_by (s.tables.claims (hash lease.key)) lease.lease_token
      then transact connection tt
          (record s.tables { claims = update (hash lease.key) none s.tables.claims }) s
      else transact connection tt s.tables s

-- A store that is open stays so until `close`.
unfoldable pub close : Store → Store
close s = record s { closed = true }
