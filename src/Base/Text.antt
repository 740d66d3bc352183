-- ===== src/Base/Text.antt =====
-- The tests of Go's strings package that the components share. A position counts bytes.
use Prim.Native.Nat.{ℕ, zero, suc, ◌+◌}
use Prim.Native.String.{String, len, slice}
use text.Mathlib.Text.{starts_with}
use mathlib.Core.Bool.{Bool, true, ◌&&◌}
use mathlib.Core.List.{List, [], ◌∷◌}
use repo_plane.Base.Tests.{◌==◌, String_eq, if◌then◌else◌}
use repo_plane.Base.Lists.{any}

-- strings.TrimPrefix
abbrev pub trim_prefix : String → String → String
trim_prefix s p = if starts_with s p then slice s (len p) (len s) else s

-- "0123456789abcdef"
abbrev digits : List String
digits =
    "0" ∷ "1" ∷ "2" ∷ "3" ∷ "4" ∷ "5" ∷ "6" ∷ "7" ∷ "8" ∷ "9" ∷ "a" ∷ "b" ∷ "c" ∷ "d" ∷ "e" ∷ "f"
    ∷ []

abbrev pub is_hex_digit : String → Bool
is_hex_digit c = any (λ d. c == d) digits

-- The `n` bytes from a position on are lower-case hexadecimal digits.
abbrev pub all_hex : String → ℕ → ℕ → Bool
all_hex s i zero = true
all_hex s i (suc n) = is_hex_digit (slice s i (i + 1)) && all_hex s (i + 1) n
