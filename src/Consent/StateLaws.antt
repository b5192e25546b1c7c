-- ===== src/Consent/StateLaws.antt =====
-- consent.mjs: the normal form of a state, and the spellings that share it.
use air_call_demo_recording.Base.{
  ℕ, zero, suc, ◌+◌, ◌≤◌, ◌<◌, ◌≡◌, refl, ap, ◌∙◌, inl, inr, Bool, true, false, not, ◌&&◌, none,
  some, List, [], ◌∷◌, ◌++◌, map, arith, leb, if◌then◌else◌, Bool-cases, Option-cases, and-both,
  all,
}
use mathlib.Core.List.{[]}
use mathlib.Core.Bool.{false}
use native.Mathlib.Decide.{dec_lt}
use air_call_demo_recording.Base.Text.Laws.{text_eq→eq, IsBlank, trim-blank}
use air_call_demo_recording.Base.Text.{
  Text, has, trim, is_space, to_upper, text_eq, trim_start, trim_end, keep_unless_blank, upper_unit,
}
use air_call_demo_recording.Js.{Value, str}
use air_call_demo_recording.Consent.States.{
  normalize_state, us_state_abbreviations, normalize_text, normalize_state-has,
}

-- A spelling with the ASCII letters in lower case.
unfoldable pub lower_unit : ℕ → ℕ
lower_unit c = if leb b'A' c && leb c b'Z' then c + 32 else c

abbrev is_itself : Text → Bool
is_itself s = elim (normalize_text s) [ none ↦ false | some t ↦ text_eq t s ]

abbrevs_are_normal : all is_itself us_state_abbreviations ≡ true
unfolding us_state_abbreviations normalize_text trim is_space to_upper has upper_unit
abbrevs_are_normal = refl

has-all :
    (p : Text → Bool) (table : List Text) (s : Text)
    → has table s ≡ true
    → all p table ≡ true
    → p s ≡ true
unfolding has
has-all p [] s h k = cc
has-all p (t ∷ table) s h k = elim (Bool-cases (text_eq t s)) [
  | inl same ↦ rw (← text_eq→eq t s same) (and-both _ _ k).0
  | inr other ↦ has-all p table s (ground arith) (and-both _ _ k).1
]

-- A normal form is an abbreviation of the table, and normalising it again gives it back.
pub normalize_state-normal :
    (v : Value) (s : Text)
    → normalize_state v ≡ some s
    → (has us_state_abbreviations s ≡ true) × (normalize_state (str s) ≡ some s)
unfolding normalize_state
normalize_state-normal v s h =
    let listed = normalize_state-has v s h in
    let normal = has-all is_itself us_state_abbreviations s listed abbrevs_are_normal in
    (listed, itself s normal)
  where
    itself : (s : Text) → is_itself s ≡ true → normalize_state (str s) ≡ some s
    itself s k = elim (Option-cases (normalize_text s)) [
      | inl missing ↦ ground arith
      | inr (t, found) ↦ ground (arith, text_eq→eq t s)
    ]

-- Whether a test holds of each ASCII unit up to a bound.
each_to : (ℕ → Bool) → ℕ → Bool
each_to test zero = true
each_to test (suc top) = each_to test top && test top

each_to-at :
    (test : ℕ → Bool) (unit top : ℕ) → unit < top → each_to test top ≡ true → test unit ≡ true
unfolding each_to
each_to-at test unit zero under held = absurd (omega arith)
each_to-at test unit (suc top) under held = elim (dec_lt unit top) [
  | yes lower ↦ each_to-at test unit top lower (and-both _ _ held).0
  | no at_top ↦ let same : unit ≡ top = omega arith in rw same (and-both _ _ held).1
]

abbrev bool_eq : Bool → Bool → Bool
bool_eq true b = b
bool_eq false b = not b

abbrev same_class : ℕ → Bool
same_class c =
    bool_eq (is_space (lower_unit c)) (is_space c)
    && text_eq (upper_unit (lower_unit c)) (upper_unit c)

same_class_table : each_to same_class 128 ≡ true
unfolding each_to is_space lower_unit upper_unit text_eq
same_class_table = refl

lower_unit-other : (c : ℕ) → 128 ≤ c → lower_unit c ≡ c
unfolding lower_unit
lower_unit-other c h = ground arith

bool_eq→eq : (a b : Bool) → bool_eq a b ≡ true → a ≡ b
bool_eq→eq a b h = ground arith

lower_unit_class :
    (c : ℕ) → (is_space (lower_unit c) ≡ is_space c) × (upper_unit (lower_unit c) ≡ upper_unit c)
lower_unit_class c = elim (dec_lt c 128) [
  | yes below ↦
      let (blank, upper) = and-both _ _ (each_to-at same_class c 128 below same_class_table) in
      (bool_eq→eq _ _ blank, text_eq→eq _ _ upper)
  | no above ↦ rw (lower_unit-other c (omega arith)) (refl, refl)
]

trim_start-lower : (t : Text) → trim_start (map lower_unit t) ≡ map lower_unit (trim_start t)
unfolding trim_start
trim_start-lower [] = refl
trim_start-lower (c ∷ t) = ground (arith, (lower_unit_class c).0, trim_start-lower t)

keep_unless_blank-lower :
    (c : ℕ) (t : Text)
    → keep_unless_blank (lower_unit c) (map lower_unit t) ≡ map lower_unit (keep_unless_blank c t)
keep_unless_blank-lower c [] = ground (arith, (lower_unit_class c).0)
keep_unless_blank-lower c (d ∷ t) = refl

trim_end-lower : (t : Text) → trim_end (map lower_unit t) ≡ map lower_unit (trim_end t)
unfolding trim_end
trim_end-lower [] = refl
trim_end-lower (c ∷ t) = rw (trim_end-lower t) (keep_unless_blank-lower c (trim_end t))

to_upper-lower : (t : Text) → to_upper (map lower_unit t) ≡ to_upper t
unfolding to_upper
to_upper-lower [] = refl
to_upper-lower (c ∷ t) = rw ((lower_unit_class c).1, to_upper-lower t)

-- Neither blanks around a spelling nor the case of its ASCII letters change its normal form.
pub normalize_state-spelling :
    (a t b : Text)
    → IsBlank a
    → IsBlank b
    → normalize_state (str (a ++ (map lower_unit t ++ b))) ≡ normalize_state (str t)
unfolding normalize_state trim
normalize_state-spelling a t b ha hb =
    let same : to_upper (trim (a ++ (map lower_unit t ++ b))) ≡ to_upper (trim t) =
      rw (trim-blank a (map lower_unit t) b ha hb) (trimmed t) in
    rw same
  where
    trimmed : (t : Text) → to_upper (trim (map lower_unit t)) ≡ to_upper (trim t)
    trimmed t =
        ap to_upper (ap trim_end (trim_start-lower t) ∙ trim_end-lower (trim_start t))
        ∙ to_upper-lower (trim t)
