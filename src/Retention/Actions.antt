-- ===== src/Retention/Actions.antt =====
-- postgres-two-party-retention-store.mjs: the claims and the transitions of the actions.
use air_call_demo_recording.Base.{
  ℕ, zero, suc, ◌+◌, ◌≡◌, refl, Bool, true, false, not, ◌&&◌, ◌||◌, Option, none, some, List, [],
  ◌∷◌, leb, if◌then◌else◌, get_elem?, Attempt, returned, thrown,
}
use air_call_demo_recording.Base.Text.{Text, text_eq}
use air_call_demo_recording.ConsentStore.{Connection}
use air_call_demo_recording.Retention.{
  RetentionStatus, delete_pending, deleting, delete_requested, confirming, delete_confirmed,
  clearing, monday_link_cleared, voiceauth_retained, exception, RetentionDecision, RetentionAction,
  RetentionTables, ExceptionCode, outcome,
}

-- What `claimNext` gives its worker.
pub record RetentionClaim : Type 0 where
  pub id : ℕ
  pub status : RetentionStatus
  pub provider_call_id : Text
  pub calls_item_id : Text
  pub lease_token : Text

-- The statuses that a claim may take up, and the status under the claim.
abbrev pub taken_up : RetentionStatus → Option RetentionStatus
taken_up delete_pending = some deleting
taken_up deleting = some deleting
taken_up delete_requested = some confirming
taken_up confirming = some confirming
taken_up delete_confirmed = some clearing
taken_up clearing = some clearing
taken_up _ = none

-- The status that the worker is told, of a row under its claim.
abbrev pub logical_status : RetentionStatus → RetentionStatus
logical_status deleting = delete_requested
logical_status confirming = delete_requested
logical_status clearing = delete_confirmed
logical_status s = s

abbrev pub lease_free : Option ℕ → ℕ → Bool
lease_free none now = true
lease_free (some t) now = leb t now

abbrev pub claimed_row : RetentionAction → RetentionStatus → Text → ℕ → RetentionAction
claimed_row r s token now = record r {
  status = s;
  lease_token = some token;
  lease_expires_at = some (now + 300000);
}

abbrev pub set_elem {ℓ} : {A : Type ℓ} → List A → ℕ → A → List A
set_elem [] i a = []
set_elem (x ∷ xs) zero a = a ∷ xs
set_elem (x ∷ xs) (suc i) a = x ∷ set_elem xs i a

pub get_elem?-set_elem {ℓ} :
    {A : Type ℓ} (xs : List A) (i : ℕ) (a b : A)
    → get_elem? xs i ≡ some b
    → get_elem? (set_elem xs i a) i ≡ some a
get_elem?-set_elem [] i a b h = cc
get_elem?-set_elem (x ∷ xs) zero a b h = refl
get_elem?-set_elem (x ∷ xs) (suc i) a b h = get_elem?-set_elem xs i a b h

abbrev pub with_action : RetentionTables → ℕ → RetentionAction → RetentionTables
with_action t id r = record t { actions = set_elem t.actions id r }

abbrev pub unsealed :
    (Text → Text → Option RetentionDecision) → Text → Option Text → Option RetentionDecision
unsealed unseal correlation none = none
unsealed unseal correlation (some sealed) = unseal correlation sealed

-- The capability of an action, opened.
unfoldable pub decision_of :
    (Text → Text → Option RetentionDecision)
    → RetentionTables
    → RetentionAction
    → Option RetentionDecision
decision_of unseal t r = unsealed unseal r.correlation (t.capabilities r.correlation)

module _ (unseal : Text → Text → Option RetentionDecision) where
  -- A claim whose capability cannot be opened is rolled back.
  abbrev pub claim_opened :
      Connection
      → ℕ
      → Text
      → ℕ
      → RetentionAction
      → RetentionStatus
      → Option RetentionDecision
      → RetentionTables
      → Attempt (Option RetentionClaim) × RetentionTables
  claim_opened c now token id r s none t = (thrown, t)
  claim_opened c now token id r s (some d) t =
      outcome c
        (some (record {
          id = id;
          status = logical_status s;
          provider_call_id = d.provider_call_id;
          calls_item_id = d.calls_item_id;
          lease_token = token;
        }))
        (with_action t id (claimed_row r s token now)) t

  abbrev pub claim_row :
      Connection
      → ℕ
      → Text
      → ℕ
      → RetentionAction
      → Option RetentionStatus
      → RetentionTables
      → Attempt (Option RetentionClaim) × RetentionTables
  claim_row c now token id r none t = (returned none, t)
  claim_row c now token id r (some s) t =
      if lease_free r.lease_expires_at now
      then claim_opened c now token id r s (decision_of unseal t r) t
      else (returned none, t)

  abbrev pub claim_at :
      Connection
      → ℕ
      → Text
      → ℕ
      → Option RetentionAction
      → RetentionTables
      → Attempt (Option RetentionClaim) × RetentionTables
  claim_at c now token id none t = (returned none, t)
  claim_at c now token id (some r) t = claim_row c now token id r (taken_up r.status) t

  -- `claimNext`, where `id` is the candidate.
  unfoldable pub claim_next :
      Connection
      → (now : ℕ) → (token : Text) → (id : ℕ) → RetentionTables
      → Attempt (Option RetentionClaim) × RetentionTables
  claim_next c now token id t = claim_at c now token id (get_elem? t.actions id) t

abbrev pub holds_token : Option Text → Text → Bool
holds_token none token = false
holds_token (some s) token = text_eq s token

abbrev pub released_row : RetentionAction → RetentionStatus → RetentionAction
released_row r s = record r { status = s; lease_token = none; lease_expires_at = none }

abbrev pub transition_row :
    Connection
    → (RetentionStatus → Bool)
    → RetentionStatus
    → RetentionClaim
    → Option RetentionAction
    → RetentionTables
    → Attempt (Unit {0}) × RetentionTables
transition_row c from to a none t = (thrown, t)
transition_row c from to a (some r) t =
    if holds_token r.lease_token a.lease_token && from r.status
    then outcome c tt (with_action t a.id (released_row r to)) t
    else (thrown, t)

-- `transition`; it throws where no row is updated.
unfoldable pub transition :
    Connection
    → (RetentionStatus → Bool)
    → RetentionStatus
    → RetentionClaim
    → RetentionTables
    → Attempt (Unit {0}) × RetentionTables
transition c from to a t = transition_row c from to a (get_elem? t.actions a.id) t

abbrev pub is_deleting : RetentionStatus → Bool
is_deleting deleting = true
is_deleting _ = false

abbrev pub is_confirming : RetentionStatus → Bool
is_confirming confirming = true
is_confirming _ = false

abbrev pub is_clearing : RetentionStatus → Bool
is_clearing clearing = true
is_clearing _ = false

abbrev pub mark_delete_requested :
    Connection → RetentionClaim → RetentionTables → Attempt (Unit {0}) × RetentionTables
mark_delete_requested c = transition c is_deleting delete_requested

abbrev pub mark_delete_confirmed :
    Connection → RetentionClaim → RetentionTables → Attempt (Unit {0}) × RetentionTables
mark_delete_confirmed c = transition c (λ s. is_deleting s || is_confirming s) delete_confirmed

abbrev pub mark_monday_cleared :
    Connection → RetentionClaim → RetentionTables → Attempt (Unit {0}) × RetentionTables
mark_monday_cleared c = transition c is_clearing monday_link_cleared

abbrev pub mark_voice_auth_retained :
    Connection → RetentionClaim → RetentionTables → Attempt (Unit {0}) × RetentionTables
mark_voice_auth_retained c =
    transition c (λ s. is_deleting s || is_confirming s || is_clearing s) voiceauth_retained

abbrev pub release_for_reconcile :
    Connection → RetentionClaim → RetentionTables → Attempt (Unit {0}) × RetentionTables
release_for_reconcile c = transition c is_confirming delete_requested

abbrev pub is_cleared : RetentionStatus → Bool
is_cleared monday_link_cleared = true
is_cleared _ = false

abbrev pub excepted_row : RetentionAction → ExceptionCode → RetentionAction
excepted_row r code = record r {
  status = exception;
  lease_token = none;
  lease_expires_at = none;
  exception_code = some code;
}

abbrev pub except_row :
    Connection
    → RetentionClaim
    → ExceptionCode
    → Option RetentionAction
    → RetentionTables
    → Attempt (Unit {0}) × RetentionTables
except_row c a code none t = outcome c tt t t
except_row c a code (some r) t =
    if holds_token r.lease_token a.lease_token && not (is_cleared r.status)
    then outcome c tt (with_action t a.id (excepted_row r code)) t
    else outcome c tt t t

-- `markException`; it is no error that no row is updated.
unfoldable pub mark_exception :
    Connection
    → RetentionClaim
    → ExceptionCode
    → RetentionTables
    → Attempt (Unit {0}) × RetentionTables
mark_exception c a code t = except_row c a code (get_elem? t.actions a.id) t
