-- ===== src/Prelude/Codes.antt =====
-- Texts as lists of character codes: what the source does at their ends.
use Prim.Native.Nat.{ℕ, zero, suc}
use mathlib.Core.Bool.{Bool, true, false, ◌&&◌, ◌||◌}
use mathlib.Core.List.{List, [], ◌∷◌}
use loop_agent.Prelude.Tests.{nat_eq, if◌then◌else◌}
use loop_agent.Prelude.Text.{codes_eq}

-- `s.lstrip(chars)` and `s.rstrip(chars)`, the characters given by a test
unfoldable pub drop_start : (ℕ → Bool) → List ℕ → List ℕ
drop_start p [] = []
drop_start p (c ∷ s) = let rest = drop_start p s in if p c then rest else c ∷ s

unfoldable pub drop_end : (ℕ → Bool) → List ℕ → List ℕ
drop_end p [] = []
drop_end p (c ∷ s) = let rest = drop_end p s in if codes_eq rest [] && p c then [] else c ∷ rest

-- `s.startswith(t)`
unfoldable pub starts_with : List ℕ → List ℕ → Bool
starts_with s [] = true
starts_with [] (c ∷ t) = false
starts_with (d ∷ s) (c ∷ t) = nat_eq d c && starts_with s t

-- `t in s`
unfoldable pub contains_text : List ℕ → List ℕ → Bool
unfolding starts_with
contains_text [] t = starts_with [] t
contains_text (c ∷ s) t = starts_with (c ∷ s) t || contains_text s t

-- `s[:n]`
unfoldable pub take {ℓ} : {A : Type ℓ} → ℕ → List A → List A
take zero s = []
take (suc n) [] = []
take (suc n) (c ∷ s) = c ∷ take n s
