-- ===== src/ControlPolicy/Termination.antt =====
-- recording-control-policy.mjs: the snapshot ends on every heap, cyclic ones included.
use air_call_demo_recording.Base.{
  ℕ, zero, suc, ◌+◌, ◌≤◌, ◌<◌, ◌≡◌, refl, ◌≢◌, inl, inr, false, Option, none, some, List, [], ◌∷◌,
  arith, if◌then◌else◌, Bool-cases, Option-cases, length, get_elem?, get_elem?-lt,
}
use air_call_demo_recording.Js.{Heap, HeapObject, Value, Key, Descriptor, null, ref}
use air_call_demo_recording.ControlPolicy.Snapshot.{
  Snap, Plain, out_of_fuel, seen_before, plain_value, snapshot_elements, snapshot_fields,
  snapshot_object, snapshot_plain_data, snapshot,
}

-- How many addresses below n are not seen.
unseen : ℕ → List ℕ → ℕ
unseen zero seen = 0
unseen (suc n) seen = (if seen_before n seen then 0 else 1) + unseen n seen

unseen-cons_above : (n a : ℕ) (seen : List ℕ) → n ≤ a → unseen n (a ∷ seen) ≡ unseen n seen
unfolding unseen seen_before
unseen-cons_above zero a seen h = refl
unseen-cons_above (suc n) a seen h = ground (arith, unseen-cons_above n a seen)

unseen-cons :
    (n a : ℕ) (seen : List ℕ)
    → a < n
    → seen_before a seen ≡ false
    → unseen n (a ∷ seen) + 1 ≡ unseen n seen
unfolding unseen seen_before
unseen-cons zero a seen h new = absurd (omega arith)
unseen-cons (suc n) a seen h new = ground (arith, unseen-cons n a seen, unseen-cons_above n a seen)

unseen-le : (n : ℕ) (seen : List ℕ) → unseen n seen ≤ n
unfolding unseen
unseen-le zero seen = omega arith
unseen-le (suc n) seen = ground (arith, unseen-le n seen)

plain_value-ends : (d : Option Descriptor) → plain_value d ≢ out_of_fuel
plain_value-ends d = ground arith

module _ (copy : Value → Snap Plain) (ends : (v : Value) → copy v ≢ out_of_fuel) where
  snapshot_elements-ends :
      (o : HeapObject) (left i : ℕ) → snapshot_elements copy o left i ≢ out_of_fuel
  unfolding snapshot_elements
  snapshot_elements-ends o zero i = ground arith
  snapshot_elements-ends o (suc left) i =
      grind (arith, ends, snapshot_elements-ends o left (suc i), plain_value-ends)

  snapshot_fields-ends :
      (props : List (Key × Descriptor)) → snapshot_fields copy props ≢ out_of_fuel
  unfolding snapshot_fields
  snapshot_fields-ends [] = ground arith
  snapshot_fields-ends ((k, d) ∷ props) = grind (arith, ends, snapshot_fields-ends props)

  snapshot_object-ends : (o : Option HeapObject) → snapshot_object copy o ≢ out_of_fuel
  unfolding snapshot_object
  snapshot_object-ends none = ground arith
  snapshot_object-ends (some o) = grind (arith, snapshot_elements-ends, snapshot_fields-ends)

snapshot_object-none : (copy : Value → Snap Plain) → snapshot_object copy none ≢ out_of_fuel
unfolding snapshot_object
snapshot_object-none copy = ground arith

snapshot_plain_data-ends :
    (h : Heap) (fuel : ℕ) (seen : List ℕ) (v : Value)
    → unseen (length h) seen < fuel
    → snapshot_plain_data h fuel seen v ≢ out_of_fuel
unfolding snapshot_plain_data
snapshot_plain_data-ends h zero seen v e = absurd (omega arith)
snapshot_plain_data-ends h (suc fuel) seen null e = ground arith
snapshot_plain_data-ends h (suc fuel) seen (ref a) e = elim (Bool-cases (seen_before a seen)) [
  | inl old ↦ ground arith
  | inr new ↦ elim (Option-cases (get_elem? h a)) [
    | inl missing ↦ rw (new, missing) (snapshot_object-none _)
    | inr (o, found) ↦
        let smaller = unseen-cons (length h) a seen (get_elem?-lt h a o found) new in
        rw new (
          snapshot_object-ends (snapshot_plain_data h fuel (a ∷ seen))
            (λ x. snapshot_plain_data-ends h fuel (a ∷ seen) x (omega arith)) (get_elem? h a))
  ]
]
snapshot_plain_data-ends h (suc fuel) seen _ e = ground arith

-- On any heap, cyclic ones included, the snapshot of any value does not run out of fuel, of which it
-- has one round for each object of the heap and one more.
pub snapshot-ends : (h : Heap) (v : Value) → snapshot h v ≢ out_of_fuel
unfolding snapshot
snapshot-ends h v =
    snapshot_plain_data-ends h (suc (length h)) [] v (omega (arith, unseen-le (length h) []))
