-- ===== src/Prelude/Text.antt =====
-- What the source uses of Python's `str`: the ASCII and Unicode white space of `strip`, lower case,
-- and texts as lists of character codes.
use Prim.Native.Nat.{ℕ, ◌+◌}
use Prim.Native.Char.{code}
use Prim.Native.String.{String, [], ◌∷◌}
use mathlib.Core.List.{List}
use mathlib.Core.Bool.{Bool, true, false, ◌&&◌, ◌||◌}
use text.Mathlib.Text.{◌==◌}
use loop_agent.Prelude.Tests.{leb, nat_eq, if◌then◌else◌}

abbrev between : ℕ → ℕ → ℕ → Bool
between lo hi n = leb lo n && leb n hi

-- `str.isspace` of one character
abbrev pub is_space : ℕ → Bool
is_space n =
    between 9 13 n
    || between 28 32 n
    || nat_eq n 133
    || nat_eq n 160
    || nat_eq n 5760
    || between 8192 8202 n
    || nat_eq n 8232
    || nat_eq n 8233
    || nat_eq n 8239
    || nat_eq n 8287
    || nat_eq n 12288

unfoldable pub lstrip : String → String
lstrip [] = []
lstrip (c ∷ s) = if is_space (code c) then lstrip s else c ∷ s

unfoldable pub rstrip : String → String
rstrip [] = []
rstrip (c ∷ s) = let rest = rstrip s in if rest == "" && is_space (code c) then "" else c ∷ rest

-- `s.strip()`
unfoldable pub strip : String → String
unfolding lstrip rstrip
strip s = rstrip (lstrip s)

abbrev pub codes : String → List ℕ
codes [] = List.[]
codes (c ∷ s) = List.◌∷◌ (code c) (codes s)

-- `str.lower` of one ASCII character; other characters stay.
abbrev pub lower_code : ℕ → ℕ
lower_code n = if between 65 90 n then n + 32 else n

abbrev pub codes_eq : List ℕ → List ℕ → Bool
codes_eq List.[] List.[] = true
codes_eq (List.◌∷◌ m ms) (List.◌∷◌ n ns) = nat_eq m n && codes_eq ms ns
codes_eq _ _ = false
