-- ===== src/Base/Text/Laws.antt =====
-- Laws of text equality, of tables of texts and of `trim`.
use mathlib.Core.Path.{◌≡◌, refl, ap}
use mathlib.Core.Logic.{◌↔◌}
use mathlib.Core.Bool.{true}
use mathlib.Core.List.{[], ◌∷◌, ◌++◌}
use native.Mathlib.Omega.{arith}
use air_call_demo_recording.Base.Lists.{all}
use air_call_demo_recording.Base.Text.{
  Text, text_eq, is_space, trim_start, keep_unless_blank, trim_end, trim,
}

pub text_eq→eq : (s t : Text) → text_eq s t ≡ true → s ≡ t
unfolding text_eq
text_eq→eq [] [] h = refl
text_eq→eq (x ∷ s) (y ∷ t) h = ground (arith, text_eq→eq s t)
text_eq→eq _ _ h = cc

pub text_eq_refl : (t : Text) → text_eq t t ≡ true
unfolding text_eq
text_eq_refl [] = refl
text_eq_refl (x ∷ t) = ground (arith, text_eq_refl t)

pub text_eq_iff : (s t : Text) → (text_eq s t ≡ true) ↔ (s ≡ t)
text_eq_iff s t = (text_eq→eq s t, λ e. rw e (text_eq_refl t))

-- A text that begins and ends with no blank.
abbrev pub IsBlank : Text → Type 0
IsBlank t = all is_space t ≡ true

pub trim_start-blank : (b t : Text) → IsBlank b → trim_start (b ++ t) ≡ trim_start t
unfolding trim_start
trim_start-blank [] t h = refl
trim_start-blank (c ∷ b) t h = ground (arith, trim_start-blank b t)

pub trim_end-of_blank : (b : Text) → IsBlank b → trim_end b ≡ []
unfolding trim_end
trim_end-of_blank [] h = refl
trim_end-of_blank (c ∷ b) h = ground (arith, trim_end-of_blank b)

pub trim_end-blank : (t b : Text) → IsBlank b → trim_end (t ++ b) ≡ trim_end t
unfolding trim_end
trim_end-blank [] b h = trim_end-of_blank b h
trim_end-blank (c ∷ t) b h = ap (keep_unless_blank c) (trim_end-blank t b h)

-- Removing blanks in front of a text followed by blanks leaves the blanks behind it, or nothing
-- but blanks.
trim_end-trim_start-blank :
    (t b : Text) → IsBlank b → trim_end (trim_start (t ++ b)) ≡ trim_end (trim_start t)
unfolding trim_start
trim_end-trim_start-blank [] b h = blank-trim_start b h
  where
    blank-trim_start : (b : Text) → IsBlank b → trim_end (trim_start b) ≡ trim_end []
    blank-trim_start [] h = refl
    blank-trim_start (c ∷ b) h = ground (arith, blank-trim_start b)
trim_end-trim_start-blank (c ∷ t) b h =
    ground (arith, trim_end-trim_start-blank t b, trim_end-blank (c ∷ t) b)

-- Blanks around a text do not change what `trim` leaves of it.
pub trim-blank : (a t b : Text) → IsBlank a → IsBlank b → trim (a ++ (t ++ b)) ≡ trim t
unfolding trim
trim-blank a t b ha hb = rw (trim_start-blank a (t ++ b) ha) (trim_end-trim_start-blank t b hb)
