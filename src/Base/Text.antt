-- ===== src/Base/Text.antt =====
-- JavaScript strings as lists of UTF-16 code units: equality, tables of texts, `trim` and
-- `toUpperCase`, and the character patterns that several files test.
pub mod Laws
pub mod Patterns
use Prim.Native.Char.{code}
use Prim.Native.Nat.{ℕ, ◌-◌}
use Prim.Native.String.{String}
use mathlib.Core.Bool.{Bool, true, false, ◌&&◌, ◌||◌}
use mathlib.Core.List.{List, [], ◌∷◌, ◌++◌}
use air_call_demo_recording.Base.Tests.{leb, ◌==◌, if◌then◌else◌}
use air_call_demo_recording.Base.Lists.{any}

abbrev pub Text : Type 0
Text = List ℕ

-- The code units of an ASCII literal.
abbrev pub codes : String → Text
codes String.[] = []
codes (String.◌∷◌ c s) = code c ∷ codes s

unfoldable pub text_eq : Text → Text → Bool
text_eq [] [] = true
text_eq (x ∷ xs) (y ∷ ys) = x == y && text_eq xs ys
text_eq _ _ = false

-- `table.has(t)` for a set of texts.
unfoldable pub has : List Text → Text → Bool
unfolding text_eq
has [] t = false
has (s ∷ table) t = text_eq s t || has table t

-- The code units that `trim` removes: WhiteSpace and LineTerminator of ECMAScript.
unfoldable pub is_space : ℕ → Bool
is_space c =
    leb 9 c && leb c 13
    || c == 32
    || c == 160
    || c == 0x1680
    || leb 0x2000 c && leb c 0x200a
    || c == 0x2028
    || c == 0x2029
    || c == 0x202f
    || c == 0x205f
    || c == 0x3000
    || c == 0xfeff

unfoldable pub trim_start : Text → Text
trim_start [] = []
trim_start (c ∷ t) = if is_space c then trim_start t else c ∷ t

abbrev pub keep_unless_blank : ℕ → Text → Text
keep_unless_blank c [] = if is_space c then [] else c ∷ []
keep_unless_blank c (d ∷ t) = c ∷ d ∷ t

unfoldable pub trim_end : Text → Text
trim_end [] = []
trim_end (c ∷ t) = keep_unless_blank c (trim_end t)

unfoldable pub trim : Text → Text
unfolding trim_start trim_end
trim t = trim_end (trim_start t)

-- `toUpperCase` of one code unit. The units beyond ASCII whose upper case is ASCII text are
-- listed; any other is kept as it is, since its upper case is text beyond ASCII, as it is itself,
-- and the program looks only for ASCII text in the result.
unfoldable pub upper_unit : ℕ → Text
upper_unit c =
    if leb b'a' c && leb c b'z'
    then (c - 32) ∷ []
    else if c == 0xdf
    then codes "SS"
    else if c == 0x131
    then codes "I"
    else if c == 0x17f
    then codes "S"
    else if c == 0xfb00
    then codes "FF"
    else if c == 0xfb01
    then codes "FI"
    else if c == 0xfb02
    then codes "FL"
    else if c == 0xfb03
    then codes "FFI"
    else if c == 0xfb04
    then codes "FFL"
    else if c == 0xfb05
    then codes "ST"
    else if c == 0xfb06
    then codes "ST"
    else c ∷ []

unfoldable pub to_upper : Text → Text
to_upper [] = []
to_upper (c ∷ t) = upper_unit c ++ to_upper t
