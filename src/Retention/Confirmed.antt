-- ===== src/Retention/Confirmed.antt =====
-- two-party-retention-finalizer.mjs over postgres-two-party-retention-store.mjs: the link of a call in
-- Monday is cleared only after Aircall has reported the recording of that call as unavailable.
use air_call_demo_recording.Base.{
  ◌≡◌, refl, true, false, Option, none, some, List, [], ◌∷◌, ◌++◌, Attempt, returned, thrown,
}
use air_call_demo_recording.Base.Text.{Text}
use air_call_demo_recording.Retention.{RetentionDecision, RetentionTables}
use air_call_demo_recording.Retention.Actions.{RetentionClaim, claim_next}
use air_call_demo_recording.Retention.Finalizer.{Outside, Work, act}
use air_call_demo_recording.Retention.History.{
  System, Event, recording, enqueuing, overriding, claiming, acting, losing, postponing, advance,
  advance_all, act_first, lose_first, postpone_first, after_claiming, with_tables,
}
use air_call_demo_recording.Retention.Calls.{all_founded}
use air_call_demo_recording.Retention.Statements.{
  Keeps, IsClaim, ClaimResult, claim_next-Keeps, record_decision-Keeps, enqueue_asset-Keeps,
  override-Keeps,
}
use air_call_demo_recording.Retention.Runs.{
  IsGood, tables-Goes, act-Goes, AreClaims-Goes, AreClaims,
}

module _ (seal : Text → RetentionDecision → Text)
    (unseal : Text → Text → Option RetentionDecision) where
  record IsSafe (s : System) : Type 0 where
    safe_work : IsGood unseal s.work
    safe_claims : AreClaims unseal s.work s.claims

  Keeps-IsSafe :
      (s : System) (t : RetentionTables)
      → IsSafe s
      → Keeps unseal s.work.log s.work.tables t
      → IsSafe (with_tables s t)
  Keeps-IsSafe s t h k =
      let goes = tables-Goes unseal s.work t h.safe_work k in
      record {
        safe_work = goes.to_good;
        safe_claims =
            AreClaims-Goes unseal s.work (record s.work { tables = t }) goes s.claims h.safe_claims;
      }

  after_claiming-IsSafe :
      (s : System)
      → IsSafe s
      → (r : Attempt (Option RetentionClaim) × RetentionTables)
      → Keeps unseal s.work.log s.work.tables r.1
      → ClaimResult unseal s.work.log r.1 r.0
      → IsSafe (after_claiming s r)
  after_claiming-IsSafe s h (returned (some a), t) k q =
      let rest = Keeps-IsSafe s t h k in
      record { safe_work = rest.safe_work; safe_claims = (q, rest.safe_claims) }
  after_claiming-IsSafe s h (returned none, t) k q = Keeps-IsSafe s t h k
  after_claiming-IsSafe s h (thrown, t) k q = Keeps-IsSafe s t h k

  act_first-IsSafe :
      (o : Outside) (s : System)
      → IsSafe s
      → (claims : List RetentionClaim) → AreClaims unseal s.work claims
      → IsSafe (act_first o s claims)
  act_first-IsSafe o s h [] q = h
  act_first-IsSafe o s h (a ∷ rest) (q, qs) =
      let goes = act-Goes unseal o a s.work h.safe_work q in
      record {
        safe_work = goes.to_good;
        safe_claims = AreClaims-Goes unseal s.work (act o a s.work).1 goes rest qs;
      }

  lose_first-IsSafe :
      (s : System)
      → IsSafe s
      → (claims : List RetentionClaim) → AreClaims unseal s.work claims
      → IsSafe (lose_first s claims)
  lose_first-IsSafe s h [] q = h
  lose_first-IsSafe s h (a ∷ rest) (q, qs) = record { safe_work = h.safe_work; safe_claims = qs }

  AreClaims-append :
      (w : Work) (claims : List RetentionClaim) (a : RetentionClaim)
      → AreClaims unseal w claims
      → IsClaim unseal w.log w.tables a
      → AreClaims unseal w (claims ++ a ∷ [])
  AreClaims-append w [] a q r = (r, tt)
  AreClaims-append w (b ∷ claims) a (q, qs) r = (q, AreClaims-append w claims a qs r)

  postpone_first-IsSafe :
      (s : System)
      → IsSafe s
      → (claims : List RetentionClaim) → AreClaims unseal s.work claims
      → IsSafe (postpone_first s claims)
  postpone_first-IsSafe s h [] q = h
  postpone_first-IsSafe s h (a ∷ rest) (q, qs) = record {
    safe_work = h.safe_work;
    safe_claims = AreClaims-append s.work rest a qs q;
  }

  advance-IsSafe : (e : Event) (s : System) → IsSafe s → IsSafe (advance seal unseal e s)
  unfolding advance
  advance-IsSafe (recording c k j d) s h =
      Keeps-IsSafe s _ h
        (record_decision-Keeps unseal s.work.log seal c k j d s.work.tables h.safe_work.good)
  advance-IsSafe (enqueuing c a k) s h =
      Keeps-IsSafe s _ h
        (enqueue_asset-Keeps unseal s.work.log c a k s.work.tables h.safe_work.good)
  advance-IsSafe (overriding c k e) s h =
      Keeps-IsSafe s _ h (override-Keeps unseal s.work.log c k e s.work.tables h.safe_work.good)
  advance-IsSafe (claiming c now token id) s h =
      let (keeps, q) =
        claim_next-Keeps unseal s.work.log c now token id s.work.tables h.safe_work.good in
      after_claiming-IsSafe s h (claim_next unseal c now token id s.work.tables) keeps q
  advance-IsSafe (acting o) s h = act_first-IsSafe o s h s.claims h.safe_claims
  advance-IsSafe losing s h = lose_first-IsSafe s h s.claims h.safe_claims
  advance-IsSafe postponing s h = postpone_first-IsSafe s h s.claims h.safe_claims

  advance_all-IsSafe :
      (es : List Event) (s : System) → IsSafe s → IsSafe (advance_all seal unseal es s)
  unfolding advance_all
  advance_all-IsSafe [] s h = h
  advance_all-IsSafe (e ∷ es) s h =
      advance_all-IsSafe es (advance seal unseal e s) (advance-IsSafe e s h)

  -- From a system with no action, no claim and no call, whatever decisions, assets and workers come, in
  -- any order, and however their calls and statements end, crashes and lost commits included: before
  -- each clearing of a link for a call, Aircall has reported the recording of that call as unavailable.
  pub all_founded-advance_all :
      (es : List Event) (s : System)
      → s.work.tables.actions ≡ []
      → s.work.log ≡ []
      → s.claims ≡ []
      → all_founded (advance_all seal unseal es s).work.log ≡ true
  unfolding all_founded
  all_founded-advance_all es s empty silent idle =
      (advance_all-IsSafe es s (record {
        safe_work = record {
          good = λ id h. absurd (let h' : false ≡ true = rw empty at h in cc h');
          ordered = rw silent refl;
        };
        safe_claims = rw idle tt;
      })).safe_work.ordered
