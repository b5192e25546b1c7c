-- ===== src/ControlPolicy/Faithful.antt =====
-- recording-control-policy.mjs: what a snapshot says of the objects that it was taken from.

use mathlib.Core.Path.{subst}
use air_call_demo_recording.Base.{
  ℕ, zero, suc, ◌≡◌, refl, sym, ◌∙◌, ◌≢◌, inl, inr, Bool, true, false, Option, none, some, List, [],
  ◌∷◌, arith, if◌then◌else◌, Bool-cases, Option-cases, get_elem?,
}
use air_call_demo_recording.Js.{
  Heap, HeapObject, Value, Key, Descriptor, Kind, Proto, Number, own_descriptor, null, bool, num,
  str, ref, natural, finite, infinite, nan, ordinary, array, set_of, proxy, object_prototype,
  array_prototype, set_prototype, null_prototype, other_prototype, index, value,
}
use air_call_demo_recording.ControlPolicy.Snapshot.{
  Snap, Plain, Items, Fields, nothing, flag, number, text, arr, obj, nil, cons, end, field, plain,
  invalid, out_of_fuel, seen_before, plain_value, snapshot_elements, snapshot_fields,
  snapshot_object, snapshot_plain_data, ◌>>=◌, snapshot_record, snapshot_array, snapshot_kind,
  finite_number, has_symbol,
}

-- An own enumerable data property.
abbrev pub data_property : Value → Descriptor
data_property v = record { enumerable = true; content = value v }

-- A value on the heap and the plain data that it is.
mutual
  pub data Copies (h : Heap) : Value → Plain → Type 0 where
    a_null : Copies h null nothing
    a_flag : (b : Bool) → Copies h (bool b) (flag b)
    a_text : (t : List ℕ) → Copies h (str t) (text t)
    a_natural : (n : ℕ) → Copies h (num (natural n)) (number (natural n))
    a_finite : (n : ℕ) → Copies h (num (finite n)) (number (finite n))
    an_array :
        {a : ℕ} (o : HeapObject) (n : ℕ) {items : Items}
        → get_elem? h a ≡ some o
        → o.kind ≡ array n
        → o.proto ≡ array_prototype
        → CopiesItems h o n 0 items
        → Copies h (ref a) (arr items)
    a_record :
        {a : ℕ} (o : HeapObject) {fs : Fields}
        → get_elem? h a ≡ some o
        → o.kind ≢ proxy
        → o.proto ≡ object_prototype
        → CopiesFields h o.props fs
        → Copies h (ref a) (obj fs)

  -- The elements of an array from an index on.
  pub data CopiesItems (h : Heap) : HeapObject → ℕ → ℕ → Items → Type 0 where
    no_items : (o : HeapObject) (i : ℕ) → CopiesItems h o zero i nil
    an_item :
        {o : HeapObject} {left i : ℕ} {p : Plain} {items : Items} (v : Value)
        → own_descriptor o (index i) ≡ some (data_property v)
        → Copies h v p
        → CopiesItems h o left (suc i) items
        → CopiesItems h o (suc left) i (cons p items)

  pub data CopiesFields (h : Heap) : List (Key × Descriptor) → Fields → Type 0 where
    no_fields : CopiesFields h [] end
    a_field :
        {k : Key} {d : Descriptor} {p : Plain} {props : List (Key × Descriptor)} {fs : Fields}
        (v : Value)
        → d ≡ data_property v
        → Copies h v p
        → CopiesFields h props fs
        → CopiesFields h ((k, d) ∷ props) (field k p fs)

plain-injective {ℓ} : {A : Type ℓ} {a b : A} → ◌≡◌ {A = Snap A} (plain a) (plain b) → a ≡ b
plain-injective e = cc

>>=-eq-plain {ℓ κ} :
    {A : Type ℓ} {B : Type κ} (m : Snap A) (f : A → Snap B) {b : B}
    → (m >>= f) ≡ plain b
    → (a : A) × (m ≡ plain a) × (f a ≡ plain b)
>>=-eq-plain (plain a) f h = (a, refl, h)
>>=-eq-plain invalid f h = cc
>>=-eq-plain out_of_fuel f h = cc

plain_value-property :
    (d : Option Descriptor) (v : Value) → plain_value d ≡ plain v → d ≡ some (data_property v)
plain_value-property d v e = ground arith

property_of : (d : Descriptor) (v : Value) → plain_value (some d) ≡ plain v → d ≡ data_property v
property_of d v e = ground arith

guarded-eq-plain {ℓ} :
    {A : Type ℓ} (c : Bool) (m : Snap A) {a : A}
    → (if c then m else invalid) ≡ plain a
    → m ≡ plain a
guarded-eq-plain true m e = e
guarded-eq-plain false m e = cc

snapshot_object-some :
    (copy : Value → Snap Plain) (o : HeapObject)
    → snapshot_object copy (some o) ≡ snapshot_kind copy o o.kind
unfolding snapshot_object
snapshot_object-some copy o = refl

module _ (h : Heap) (copy : Value → Snap Plain)
    (sound : (v : Value) (p : Plain) → copy v ≡ plain p → Copies h v p) where
  snapshot_elements-CopiesItems :
      (o : HeapObject) (left i : ℕ) (items : Items)
      → snapshot_elements copy o left i ≡ plain items
      → CopiesItems h o left i items
  unfolding snapshot_elements
  snapshot_elements-CopiesItems o zero i nil e = no_items o i
  snapshot_elements-CopiesItems o zero i (cons p items) e = cc
  snapshot_elements-CopiesItems o (suc left) i items e =
      let (v, found, e1) = >>=-eq-plain (plain_value (own_descriptor o (index i))) _ e in
      let (p, copied, e2) = >>=-eq-plain (copy v) _ e1 in
      let (rest, later, e3) = >>=-eq-plain (snapshot_elements copy o left (suc i)) _ e2 in
      subst (λ x. CopiesItems h o (suc left) i x) (plain-injective e3)
        (an_item v (plain_value-property _ v found) (sound v p copied)
          (snapshot_elements-CopiesItems o left (suc i) rest later))

  snapshot_fields-CopiesFields :
      (props : List (Key × Descriptor)) (fs : Fields)
      → snapshot_fields copy props ≡ plain fs
      → CopiesFields h props fs
  unfolding snapshot_fields
  snapshot_fields-CopiesFields [] fs e =
      subst (λ x. CopiesFields h [] x) (plain-injective e) no_fields
  snapshot_fields-CopiesFields ((k, d) ∷ props) fs e =
      let (v, found, e1) = >>=-eq-plain (plain_value (some d)) _ e in
      let (p, copied, e2) = >>=-eq-plain (copy v) _ e1 in
      let (rest, later, e3) = >>=-eq-plain (snapshot_fields copy props) _ e2 in
      subst (λ x. CopiesFields h ((k, d) ∷ props) x) (plain-injective e3)
        (a_field v (property_of d v found) (sound v p copied)
          (snapshot_fields-CopiesFields props rest later))

  record_inv :
      (o : HeapObject) (p : Plain)
      → snapshot_record copy o o.proto ≡ plain p
      → (fs : Fields) × (p ≡ obj fs)
        × (o.proto ≡ object_prototype)
        × (snapshot_fields copy o.props ≡ plain fs)
  record_inv o p e = record_at o.proto p e refl
    where
      record_at :
          (k : Proto) (p : Plain)
          → snapshot_record copy o k ≡ plain p
          → o.proto ≡ k
          → (fs : Fields) × (p ≡ obj fs)
            × (o.proto ≡ object_prototype)
            × (snapshot_fields copy o.props ≡ plain fs)
      record_at object_prototype p e is = elim (Bool-cases (has_symbol o.props)) [
        | inl has ↦ absurd (ground arith)
        | inr hasnt ↦
            let (fs, copied, e1) =
              >>=-eq-plain (snapshot_fields copy o.props) (λ x. plain (obj x)) (rw hasnt at e) in
            (fs, sym (plain-injective e1), is, copied)
      ]
      record_at array_prototype p e is = cc
      record_at set_prototype p e is = cc
      record_at null_prototype p e is = cc
      record_at other_prototype p e is = cc

  array_inv :
      (o : HeapObject) (n : ℕ) (p : Plain)
      → snapshot_array copy o n o.proto ≡ plain p
      → (items : Items) × (p ≡ arr items)
        × (o.proto ≡ array_prototype)
        × (snapshot_elements copy o n 0 ≡ plain items)
  array_inv o n p e = array_at o.proto p e refl
    where
      array_at :
          (k : Proto) (p : Plain)
          → snapshot_array copy o n k ≡ plain p
          → o.proto ≡ k
          → (items : Items) × (p ≡ arr items)
            × (o.proto ≡ array_prototype)
            × (snapshot_elements copy o n 0 ≡ plain items)
      array_at array_prototype p e is =
          let (items, copied, e1) =
            >>=-eq-plain (snapshot_elements copy o n 0) (λ x. plain (arr x))
              (guarded-eq-plain _ _ e) in
          (items, sym (plain-injective e1), is, copied)
      array_at object_prototype p e is = cc
      array_at set_prototype p e is = cc
      array_at null_prototype p e is = cc
      array_at other_prototype p e is = cc

  snapshot_kind-Copies :
      (a : ℕ) (o : HeapObject) (p : Plain)
      → get_elem? h a ≡ some o
      → snapshot_kind copy o o.kind ≡ plain p
      → Copies h (ref a) p
  snapshot_kind-Copies a o p at e = of_kind o.kind e refl
    where
      of_kind : (k : Kind) → snapshot_kind copy o k ≡ plain p → o.kind ≡ k → Copies h (ref a) p
      of_kind (array n) e is =
          let (items, is_arr, proto, copied) = array_inv o n p e in
          subst (λ x. Copies h (ref a) x) (sym is_arr)
            (an_array o n at is proto (snapshot_elements-CopiesItems o n 0 items copied))
      of_kind ordinary e is =
          let (fs, is_obj, proto, copied) = record_inv o p e in
          subst (λ x. Copies h (ref a) x) (sym is_obj)
            (a_record o at (λ q. cc) proto (snapshot_fields-CopiesFields o.props fs copied))
      of_kind (set_of members) e is =
          let (fs, is_obj, proto, copied) = record_inv o p e in
          subst (λ x. Copies h (ref a) x) (sym is_obj)
            (a_record o at (λ q. cc) proto (snapshot_fields-CopiesFields o.props fs copied))
      of_kind proxy e is = cc

snapshot_object-none :
    (copy : Value → Snap Plain) {p : Plain} → snapshot_object copy none ≡ plain p → ⊥
unfolding snapshot_object
snapshot_object-none copy e = cc

finite_number-Copies :
    (h : Heap) (n : Number) (p : Plain) → finite_number n ≡ plain p → Copies h (num n) p
finite_number-Copies h (natural n) p e =
    subst (λ x. Copies h (num (natural n)) x) (plain-injective e) (a_natural n)
finite_number-Copies h (finite n) p e =
    subst (λ x. Copies h (num (finite n)) x) (plain-injective e) (a_finite n)
finite_number-Copies h (infinite b) p e = cc
finite_number-Copies h nan p e = cc

-- Whatever the fuel and the objects on the path: if the copy of a value gives plain data, then this is
-- the plain data that the value on the heap is.
pub snapshot_plain_data-Copies :
    (h : Heap) (fuel : ℕ) (seen : List ℕ) (v : Value) (p : Plain)
    → snapshot_plain_data h fuel seen v ≡ plain p
    → Copies h v p
unfolding snapshot_plain_data
snapshot_plain_data-Copies h zero seen v p e = cc
snapshot_plain_data-Copies h (suc fuel) seen null p e =
    subst (λ x. Copies h null x) (plain-injective e) a_null
snapshot_plain_data-Copies h (suc fuel) seen (bool b) p e =
    subst (λ x. Copies h (bool b) x) (plain-injective e) (a_flag b)
snapshot_plain_data-Copies h (suc fuel) seen (str t) p e =
    subst (λ x. Copies h (str t) x) (plain-injective e) (a_text t)
snapshot_plain_data-Copies h (suc fuel) seen (num n) p e = finite_number-Copies h n p e
snapshot_plain_data-Copies h (suc fuel) seen (ref a) p e = elim (Bool-cases (seen_before a seen)) [
  | inl old ↦ absurd (ground arith)
  | inr new ↦ elim (Option-cases (get_elem? h a)) [
    | inl missing ↦ absurd (snapshot_object-none _ (rw (new, missing) at e))
    | inr (o, found) ↦
        snapshot_kind-Copies h (snapshot_plain_data h fuel (a ∷ seen))
          (λ x q copied. snapshot_plain_data-Copies h fuel (a ∷ seen) x q copied) a o p found
          (sym (snapshot_object-some _ o) ∙ (rw (new, found) at e))
  ]
]
snapshot_plain_data-Copies h (suc fuel) seen _ p e = cc
