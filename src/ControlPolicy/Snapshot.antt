-- ===== src/ControlPolicy/Snapshot.antt =====
-- recording-control-policy.mjs: `snapshotPlainData`, which copies recursively plain data from the
-- heap without running an accessor. The depth of the recursion is bounded by fuel; the addresses on
-- the way from the root are `seen`.
use air_call_demo_recording.Base.{
  ℕ, zero, suc, ◌+◌, Bool, true, false, not, ◌&&◌, ◌||◌, Option, none, some, List, [], ◌∷◌, ◌==◌,
  if◌then◌else◌, length, get_elem?, any,
}
use air_call_demo_recording.Base.Text.{Text, codes}
use air_call_demo_recording.Js.{
  Heap, HeapObject, Value, Key, Descriptor, Number, Kind, Proto, own_descriptor, key_eq, index,
  name, symbol, null, bool, num, str, ref, natural, finite, value, accessor, array, proxy,
  object_prototype, array_prototype,
}

-- Plain data: what a snapshot holds.
mutual
  pub data Plain : Type 0 where
    nothing : Plain
    flag : Bool → Plain
    number : Number → Plain
    text : Text → Plain
    arr : Items → Plain
    obj : Fields → Plain

  pub data Items : Type 0 where
    nil : Items
    cons : Plain → Items → Items

  pub data Fields : Type 0 where
    end : Fields
    field : Key → Plain → Fields → Fields

-- `invalid` is the symbol INVALID; `out_of_fuel` is the model's own.
pub data Snap {ℓ} (A : Type ℓ) : Type ℓ where
  plain : A → Snap A
  invalid : Snap A
  out_of_fuel : Snap A

infixl 5 ◌>>=◌
abbrev pub ◌>>=◌ {ℓ κ} : {A : Type ℓ} {B : Type κ} → Snap A → (A → Snap B) → Snap B
plain a >>= k = k a
invalid >>= k = invalid
out_of_fuel >>= k = out_of_fuel

unfoldable pub seen_before : ℕ → List ℕ → Bool
seen_before a [] = false
seen_before a (b ∷ seen) = a == b || seen_before a seen

-- `plainDataDescriptor`, with the value of the descriptor.
abbrev pub plain_value : Option Descriptor → Snap Value
plain_value none = invalid
plain_value (some d) = elim d.content [
  | accessor ↦ invalid
  | value v ↦ if d.enumerable then plain v else invalid
]

abbrev pub has_symbol : List (Key × Descriptor) → Bool
has_symbol props = any (λ p. elim p.0 [ index n ↦ false | name t ↦ false | symbol n ↦ true ]) props

module _ (copy : Value → Snap Plain) where
  -- The loop of `snapshotArray`, with `left` rounds to go from index i.
  unfoldable pub snapshot_elements : HeapObject → ℕ → ℕ → Snap Items
  snapshot_elements o zero i = plain nil
  snapshot_elements o (suc left) i = do
    v ← plain_value (own_descriptor o (index i))
    item ← copy v
    rest ← snapshot_elements o left (suc i)
    plain (cons item rest)

  -- The loop of `snapshotRecord`.
  unfoldable pub snapshot_fields : List (Key × Descriptor) → Snap Fields
  snapshot_fields [] = plain end
  snapshot_fields ((k, d) ∷ props) = do
    v ← plain_value (some d)
    item ← copy v
    rest ← snapshot_fields props
    plain (field k item rest)

  abbrev pub snapshot_record : HeapObject → Proto → Snap Plain
  snapshot_record o object_prototype =
      if has_symbol o.props then invalid else do fs ← snapshot_fields o.props; plain (obj fs)
  snapshot_record o _ = invalid

  abbrev pub snapshot_array : HeapObject → ℕ → Proto → Snap Plain
  snapshot_array o n array_prototype =
      if not (has_symbol o.props)
        && length o.props == n + 1
        && any (λ p. key_eq p.0 (name (codes "length"))) o.props
      then (do items ← snapshot_elements o n 0; plain (arr items))
      else invalid
  snapshot_array o n _ = invalid

  abbrev pub snapshot_kind : HeapObject → Kind → Snap Plain
  snapshot_kind o (array n) = snapshot_array o n o.proto
  snapshot_kind o proxy = invalid
  snapshot_kind o _ = snapshot_record o o.proto

  -- An object whose address is not `seen`.
  unfoldable pub snapshot_object : Option HeapObject → Snap Plain
  snapshot_object none = invalid
  snapshot_object (some o) = snapshot_kind o o.kind

abbrev pub finite_number : Number → Snap Plain
finite_number (natural n) = plain (number (natural n))
finite_number (finite n) = plain (number (finite n))
finite_number _ = invalid

unfoldable pub snapshot_plain_data : Heap → ℕ → List ℕ → Value → Snap Plain
snapshot_plain_data h zero seen v = out_of_fuel
snapshot_plain_data h (suc fuel) seen null = plain nothing
snapshot_plain_data h (suc fuel) seen (bool b) = plain (flag b)
snapshot_plain_data h (suc fuel) seen (str t) = plain (text t)
snapshot_plain_data h (suc fuel) seen (num n) = finite_number n
snapshot_plain_data h (suc fuel) seen (ref a) =
    if seen_before a seen
    then invalid
    else snapshot_object (λ v. snapshot_plain_data h fuel (a ∷ seen) v) (get_elem? h a)
snapshot_plain_data h (suc fuel) seen _ = invalid

-- The snapshot of the evaluator's input: one round for each object of the heap, and one more.
unfoldable pub snapshot : Heap → Value → Snap Plain
unfolding snapshot_plain_data
snapshot h v = snapshot_plain_data h (suc (length h)) [] v
