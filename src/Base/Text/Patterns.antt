-- ===== src/Base/Text/Patterns.antt =====
-- The regular expressions that several files share, as tests on code units.
use Prim.Native.Nat.{ℕ}
use mathlib.Core.Bool.{Bool, false, ◌&&◌, ◌||◌}
use mathlib.Core.List.{[], ◌∷◌}
use air_call_demo_recording.Base.Tests.{leb, ◌==◌}
use air_call_demo_recording.Base.Lists.{length, all}
use air_call_demo_recording.Base.Text.{Text}

unfoldable pub is_digit : ℕ → Bool
is_digit c = leb b'0' c && leb c b'9'

unfoldable pub is_alnum : ℕ → Bool
unfolding is_digit
is_alnum c = is_digit c || leb b'A' c && leb c b'Z' || leb b'a' c && leb c b'z'

-- [A-Za-z0-9._:-]
unfoldable pub is_opaque_unit : ℕ → Bool
unfolding is_alnum
is_opaque_unit c = is_alnum c || c == b'.' || c == b'_' || c == b':' || c == b'-'

-- /^[A-Za-z0-9][A-Za-z0-9._:-]{0,127}$/
unfoldable pub is_opaque : Text → Bool
unfolding is_opaque_unit is_alnum
is_opaque [] = false
is_opaque (c ∷ t) = is_alnum c && all is_opaque_unit t && leb (length t) 127

-- /^\d{10,15}$/
unfoldable pub is_phone : Text → Bool
unfolding is_digit
is_phone t = all is_digit t && leb 10 (length t) && leb (length t) 15

-- [0-9a-f]
unfoldable pub is_hex_unit : ℕ → Bool
unfolding is_digit
is_hex_unit c = is_digit c || leb b'a' c && leb c b'f'

-- /^[0-9a-f]{64}$/
unfoldable pub is_hash : Text → Bool
unfolding is_hex_unit
is_hash t = all is_hex_unit t && length t == 64

-- /^[0-9a-f]{8,64}$/
unfoldable pub is_correlation : Text → Bool
unfolding is_hex_unit
is_correlation t = all is_hex_unit t && leb 8 (length t) && leb (length t) 64
