-- ===== src/Retention/Assets.antt =====
-- two-party-retention-finalizer.mjs over postgres-two-party-retention-store.mjs: an asset's event that
-- comes again.
use mathlib.Core.Path.{subst}
use air_call_demo_recording.Base.{
  ◌≡◌, refl, sym, ap, ◌∙◌, inl, inr, true, ◌&&◌, Option, none, some, List, [], ◌∷◌, ◌++◌, arith,
  Bool-cases, returned, thrown,
}
use air_call_demo_recording.Base.Text.{Text}
use air_call_demo_recording.Base.Text.Laws.{text_eq_refl}
use air_call_demo_recording.Base.Text.Patterns.{is_opaque}
use air_call_demo_recording.ConsentStore.{Connection, works, fails, commit_unheard}
use air_call_demo_recording.Retention.{
  enqueue_under, new_action, has_asset, queued, duplicate, RetentionAction, RetentionTables,
  enqueue_asset,
}
use air_call_demo_recording.Retention.Requests.{receive_asset_event, call_key, asset_key}

has_asset-append :
    (asset k : Text) (rows : List RetentionAction)
    → has_asset asset (rows ++ new_action asset k ∷ []) ≡ true
has_asset-append asset k [] = rw (text_eq_refl asset) refl
has_asset-append asset k (r ∷ rows) = ground (arith, has_asset-append asset k rows)

enqueue_under-again :
    (c : Connection) (asset : Text) (o : Option Text) (t u : RetentionTables)
    → enqueue_under c asset o t ≡ (returned queued, u)
    → enqueue_under works asset o u ≡ (returned duplicate, u)
enqueue_under-again works asset none t u h = ground arith
enqueue_under-again fails asset none t u h = ground arith
enqueue_under-again commit_unheard asset none t u h = ground arith
enqueue_under-again works asset (some k) t u h = ground (arith, has_asset-append asset k t.actions)
enqueue_under-again fails asset (some k) t u h = ground arith
enqueue_under-again commit_unheard asset (some k) t u h = ground arith

enqueue_asset-keeps :
    (c : Connection) (asset call_key : Text) (t : RetentionTables)
    → (enqueue_asset c asset call_key t).1.decisions ≡ t.decisions
unfolding enqueue_asset
enqueue_asset-keeps c asset call_key t = ground arith

enqueue_asset-again :
    (c : Connection) (asset call_key : Text) (t u : RetentionTables)
    → enqueue_asset c asset call_key t ≡ (returned queued, u)
    → enqueue_asset works asset call_key u ≡ (returned duplicate, u)
unfolding enqueue_asset
enqueue_asset-again c asset call_key t u h =
    let kept : u.decisions ≡ t.decisions =
      ap (λ p. p.1.decisions) (sym h) ∙ enqueue_asset-keeps c asset call_key t in
    subst (λ o. enqueue_under works asset o u ≡ (returned duplicate, u))
      (ap (λ rows. rows call_key) (sym kept))
      (enqueue_under-again c asset (t.decisions call_key) t u h)

-- An event that was queued, delivered again while the store works, is answered as a duplicate, and
-- the tables stay as they are.
pub receive_asset_event-again :
    (hash : Text → Text) (key : Text) (c : Connection) (call asset : Text) (t u : RetentionTables)
    → receive_asset_event hash key c call asset t ≡ (returned queued, u)
    → receive_asset_event hash key works call asset u ≡ (returned duplicate, u)
unfolding receive_asset_event
receive_asset_event-again hash key c call asset t u h =
    elim (Bool-cases (is_opaque call && is_opaque asset)) [
      | inl b ↦ rw b (
          enqueue_asset-again c (asset_key hash key call asset) (call_key hash key call) t u
            (rw b at h))
      | inr b ↦ absurd (let h' : (thrown, t) ≡ (returned queued, u) = rw b at h in cc h')
    ]
