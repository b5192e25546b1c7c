-- ===== src/ConsentStore/Examples.antt =====
-- postgres-consent-decision-store.mjs: runs of the store.
use air_call_demo_recording.Base.{
  ◌≡◌, refl, ◌≢◌, true, false, some, List, [], ◌∷◌, ◌++◌, returned, thrown,
}
use air_call_demo_recording.Base.Text.{Text, codes, text_eq}
use air_call_demo_recording.Base.Text.Patterns.{is_opaque, is_opaque_unit, is_alnum, is_digit}
use air_call_demo_recording.ConsentStore.{
  Result, left_disabled, not_one_party_state, Lease, granted, works, Store, claim, finalize, update,
  safe_decision, safe_correlation, safe_claim, finished, release,
}
use air_call_demo_recording.ConsentStore.Invariant.{audits, completions}
use air_call_demo_recording.ConsentStore.Steps.{
  Call, claiming, finalizing, perform_all, empty_tables, audits-perform_all, perform_all-completed,
  releasing,
}
use air_call_demo_recording.ConsentStore.Fencing.{IsHeld, finalize-returned, claim-fences}

-- A stand-in for the digest.
abbrev digest : Text → Text
digest t = codes "h" ++ t

abbrev open_store : Store
open_store = record { migrated = true; closed = false; tables = empty_tables }

abbrev lease_of : Text → Lease
lease_of token = record { claimed = true; key = codes "k1"; lease_token = token }

abbrev not_one_party : Result
not_one_party = record { outcome = left_disabled; reason = not_one_party_state }

abbrev claimed_store : Store
claimed_store = (claim digest 60000 5 works (codes "t1") (codes "k1") open_store).1

claimed_run :
    claim digest 60000 5 works (codes "t1") (codes "k1") open_store
    ≡ (returned (granted (lease_of (codes "t1"))), claimed_store)
unfolding claim is_opaque is_opaque_unit is_alnum is_digit
claimed_run = refl

t_ne_t1 : codes "t" ≢ codes "t1"
t_ne_t1 e = cc

claim-fences_example :
    (finalize digest 9 works (lease_of (codes "t")) not_one_party (codes "") claimed_store
      ≡ (thrown, claimed_store))
    × ((release digest works (lease_of (codes "t")) claimed_store).1.tables ≡ claimed_store.tables)
claim-fences_example =
    claim-fences digest 60000 5 works (codes "t1") (codes "k1") open_store claimed_store
      (lease_of (codes "t1")) claimed_run (lease_of (codes "t")) refl t_ne_t1 9 works not_one_party
      (codes "")

abbrev finalized_store : Store
finalized_store =
    (finalize digest 9 works (lease_of (codes "t1")) not_one_party (codes "") claimed_store).1

finalized_run :
    finalize digest 9 works (lease_of (codes "t1")) not_one_party (codes "") claimed_store
    ≡ (returned tt, finalized_store)
unfolding claim finalize is_opaque is_opaque_unit is_alnum is_digit update text_eq safe_claim
finalized_run = refl

finalize-returned_example :
    IsHeld (claimed_store.tables.claims (codes "hk1")) (codes "t1") 9
    × (finalized_store.tables.claims (codes "hk1") ≡ some (finished 9))
    × (finalized_store.tables.audit
        ≡ record {
          event_key_hash = codes "hk1";
          result = safe_decision not_one_party;
          correlation_prefix = safe_correlation (codes "");
        }
          ∷ claimed_store.tables.audit)
finalize-returned_example =
    finalize-returned digest 9 works (lease_of (codes "t1")) not_one_party (codes "") claimed_store
      finalized_store finalized_run

abbrev calls : List Call
calls =
    claiming 60000 5 works (codes "t1") (codes "k1")
    ∷ finalizing 9 works (lease_of (codes "t1")) not_one_party (codes "")
    ∷ claiming 60000 99 works (codes "t2") (codes "k1")
    ∷ []

audits-perform_all_example :
    audits (codes "hk1") (perform_all digest calls open_store).tables.audit
    ≡ completions ((perform_all digest calls open_store).tables.claims (codes "hk1"))
audits-perform_all_example = audits-perform_all digest calls true false (codes "hk1")

finished_row : finalized_store.tables.claims (codes "hk1") ≡ some (finished 9)
unfolding claim finalize is_opaque is_opaque_unit is_alnum is_digit update text_eq safe_claim
finished_row = refl

-- Another worker claims the key again, finalizes under its own token, and gives up the first lease.
abbrev later_calls : List Call
later_calls =
    claiming 60000 99999 works (codes "t2") (codes "k1")
    ∷ finalizing 99999 works (lease_of (codes "t2")) not_one_party (codes "")
    ∷ releasing works (lease_of (codes "t1"))
    ∷ []

perform_all-completed_example :
    (perform_all digest later_calls finalized_store).tables.claims (codes "hk1") ≡ some (finished 9)
perform_all-completed_example =
    perform_all-completed digest (codes "hk1") (finished 9) refl later_calls finalized_store
      finished_row
