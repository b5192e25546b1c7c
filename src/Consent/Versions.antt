-- ===== src/Consent/Versions.antt =====
-- consent.mjs: which versions `isApprovedVersion` accepts.
use air_call_demo_recording.Base.{
  ℕ, zero, suc, ◌+◌, ◌<◌, true, false, ◌≡◌, ◌↔◌, inl, inr, some, List, [], ◌∷◌, returned, arith,
  Bool-cases, sym, ap,
}
use mathlib.Core.List.{Memᴰ}
use air_call_demo_recording.Base.Text.{Text}
use air_call_demo_recording.Base.Text.Laws.{text_eq_refl, text_eq→eq}
use air_call_demo_recording.Js.{
  Value, str, array, array_prototype, HeapObject, Heap, deref, set_of, set_prototype, same_value,
  bool,
}
use air_call_demo_recording.Consent.Rulesets.{
  text_at, approved_from, names_are_elements, is_approved_version, set_has,
}

-- The loop finds the version, or accepts once it has seen nothing but texts.
approved_from-texts :
    (o : HeapObject) (version : Text) (left i : ℕ)
    → names_are_elements o ≡ true
    → ((j : ℕ) → j < i + left → (t : Text) × (text_at o j ≡ some t))
    → approved_from o version left i ≡ true
unfolding approved_from
approved_from-texts o version zero i names texts = names
approved_from-texts o version (suc left) i names texts =
    let (t, found) = texts i (omega arith) in
    ground (arith, approved_from-texts o version left (suc i) names (λ j h. texts j (omega arith)))

-- An array with the array prototype whose elements are all texts, with no other property than its
-- elements and its length, approves every version, listed or not.
pub is_approved_version-array :
    (h : Heap) (versions : Value) (o : HeapObject) (n : ℕ) (version : Text)
    → deref h versions ≡ some o
    → o.kind ≡ array n
    → o.proto ≡ array_prototype
    → names_are_elements o ≡ true
    → ((j : ℕ) → j < n → (t : Text) × (text_at o j ≡ some t))
    → is_approved_version h versions version ≡ returned true
is_approved_version-array h versions o n version at kind proto names texts =
    let loop = approved_from-texts o version n 0 names (λ j p. texts j (omega arith)) in
    unfold is_approved_version in ground arith

same_value-str : (v : Value) (t : Text) → same_value v (str t) ≡ true → v ≡ str t
unfolding same_value
same_value-str (str s) t h = ap str (text_eq→eq s t h)
same_value-str (bool true) t h = cc
same_value-str (bool false) t h = cc
same_value-str _ t h = cc

same_value-str_self : (t : Text) → same_value (str t) (str t) ≡ true
unfolding same_value
same_value-str_self t = text_eq_refl t

set_has-Memᴰ :
    (members : List Value) (version : Text)
    → set_has members version ≡ true
    → Memᴰ (str version) members
unfolding set_has
set_has-Memᴰ [] version h = cc
set_has-Memᴰ (v ∷ members) version h = elim (Bool-cases (same_value v (str version))) [
  | inl same ↦ Memᴰ.head (sym (same_value-str v version same))
  | inr other ↦ Memᴰ.tail (set_has-Memᴰ members version (ground arith))
]

Memᴰ-set_has :
    (version : Text) {members : List Value}
    → Memᴰ (str version) members
    → set_has members version ≡ true
unfolding set_has
Memᴰ-set_has version (Memᴰ.head e) = rw (← e, same_value-str_self version)
Memᴰ-set_has version (Memᴰ.tail m) = ground (arith, Memᴰ-set_has version m)

-- A set with the set prototype approves exactly the versions that are its members.
pub is_approved_version-set :
    (h : Heap) (versions : Value) (o : HeapObject) (members : List Value) (version : Text)
    → deref h versions ≡ some o
    → o.kind ≡ set_of members
    → o.proto ≡ set_prototype
    → (is_approved_version h versions version ≡ returned true) ↔ Memᴰ (str version) members
unfolding is_approved_version
is_approved_version-set h versions o members version at kind proto =
    let unfolded : is_approved_version h versions version ≡ returned (set_has members version) =
      ground arith in
    (λ e. set_has-Memᴰ members version (ground arith), λ m. rw (unfolded, Memᴰ-set_has version m))
