-- ===== src/Prelude/TextLaws.antt =====
-- Laws of joined texts.
use Prim.Native.Nat.{ℕ, suc, ◌+◌}
use Prim.Native.String.{String, [], ◌∷◌, ◌++◌}
use Prim.Native.String.append
use mathlib.Core.Path.{◌≡◌, refl, ap, sym, ◌∙◌}
use native.Mathlib.Omega.{arith}

-- `len(text)`
abbrev pub text_length : String → ℕ
text_length [] = 0
text_length (c ∷ s) = suc (text_length s)

-- Two texts joined from parts of which the first are of one length are equal only by their parts.
pub append-injective :
    (p q b c : String) → text_length p ≡ text_length q → p ++ b ≡ q ++ c → (p ≡ q) × (b ≡ c)
append-injective [] [] b c l e = (refl, sym (append.nil b) ∙ e ∙ append.nil c)
append-injective [] (y ∷ q) b c l e = absurd (omega arith)
append-injective (x ∷ p) [] b c l e = absurd (omega arith)
append-injective (x ∷ p) (y ∷ q) b c l e =
    let e' : x ∷ (p ++ b) ≡ y ∷ (q ++ c) = sym (append.cons x p b) ∙ e ∙ append.cons y q c in
    let (h, r) = append-injective p q b c (omega arith) (cc e') in (cc (e', h), r)

pub length-append : (p b : String) → text_length (p ++ b) ≡ text_length p + text_length b
length-append [] b = ap text_length (append.nil b) ∙ omega arith
length-append (x ∷ p) b = ap text_length (append.cons x p b) ∙ omega (arith, length-append p b)
