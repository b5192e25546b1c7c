-- ===== src/AuditReceiver/Bounds.antt =====
-- audit-only-receiver.mjs: the count of requests in flight.
use air_call_demo_recording.Js.{Heap, Value}
use air_call_demo_recording.AuditReceiver.Config.{Settings, snapshot_config}
use air_call_demo_recording.AuditReceiver.Accepted.{snapshot_config-IsBounded}
use air_call_demo_recording.AuditReceiver.Requests.{limits_of}
use air_call_demo_recording.Base.{some, [], refl}
use air_call_demo_recording.Base.{
  ℕ, zero, suc, ◌≤◌, ◌<◌, ◌≡◌, refl, ap, inl, inr, Bool, false, some, List, [], ◌∷◌, arith,
  Option-cases, length, get_elem?,
}
use air_call_demo_recording.AuditReceiver.Requests.{
  Request, Limits, Admission, awaits_body, replied, asks_readiness, admit, Receiver, Step, arriving,
  finishing, closing_down, admitted, remove_elem, receive, receive_all,
}

length-remove_elem {ℓ} :
    {A : Type ℓ} (xs : List A) (i : ℕ) (a : A)
    → get_elem? xs i ≡ some a
    → suc (length (remove_elem xs i)) ≡ length xs
length-remove_elem [] i a h = cc
length-remove_elem (x ∷ xs) zero a h = refl
length-remove_elem (x ∷ xs) (suc i) a h = ap suc (length-remove_elem xs i a h)

pub record IsCounted (g : Limits) (r : Receiver) : Type 0 where
  pub counted : r.in_flight ≡ length r.handling
  pub bounded : r.in_flight ≤ g.max_in_flight

admit-lt :
    (g : Limits) (closing : Bool) (n : ℕ) (q : Request)
    → admit g closing n q ≡ awaits_body
    → (closing ≡ false) × (n < g.max_in_flight)
unfolding admit
admit-lt g closing n q h = ground arith

receive-IsCounted :
    (g : Limits) (e : Step) (r : Receiver) → IsCounted g r → IsCounted g (receive g e r)
unfolding receive
receive-IsCounted g (arriving q) r h = go _ refl
  where
    go : (a : Admission) → admit g r.closing r.in_flight q ≡ a → IsCounted g (admitted r q a)
    go awaits_body e = ground (arith, admit-lt g r.closing r.in_flight q e)
    go (replied reply) e = h
    go asks_readiness e = h
receive-IsCounted g (finishing i) r h = elim (Option-cases (get_elem? r.handling i)) [
  | inl e ↦ rw e h
  | inr (q, e) ↦ rw e (ground (arith, length-remove_elem r.handling i q e))
]
receive-IsCounted g closing_down r h = record { counted = h.counted; bounded = h.bounded }

receive_all-IsCounted :
    (g : Limits) (steps : List Step) (r : Receiver)
    → IsCounted g r
    → IsCounted g (receive_all g steps r)
unfolding receive_all
receive_all-IsCounted g [] r h = h
receive_all-IsCounted g (e ∷ steps) r h =
    receive_all-IsCounted g steps (receive g e r) (receive-IsCounted g e r h)

-- Under a configuration that the receiver accepts, from no request in flight, whatever requests arrive,
-- in whatever order they finish, and whenever it is closed: the count of requests in flight is the
-- number of requests that have not finished, at most the configured one, and so at most 32.
pub receive_all-bounded :
    (h : Heap) (v : Value) (s : Settings) (steps : List Step) (r : Receiver)
    → snapshot_config h v ≡ some s
    → r.in_flight ≡ 0
    → r.handling ≡ []
    → ((receive_all (limits_of s) steps r).in_flight
        ≡ length (receive_all (limits_of s) steps r).handling)
      × ((receive_all (limits_of s) steps r).in_flight ≤ s.max_in_flight)
      × (s.max_in_flight ≤ 32)
receive_all-bounded h v s steps r accepted none_in_flight none_handled =
    let bounds = snapshot_config-IsBounded h v s accepted in
    let kept = receive_all-IsCounted (limits_of s) steps r (record {
      counted = rw (none_in_flight, none_handled) refl;
      bounded = rw none_in_flight (omega arith);
    }) in
    (kept.counted, kept.bounded, bounds.flights_bounded.1)
