-- ===== src/Contract/Found.antt =====
-- What it means that `_deterministic_issues` finds nothing: every issue is a text that `strip` does
-- not empty, so that none is lost on the way to the verdict.
use Prim.Native.String.{◌++◌ as append, []}
use Prim.Native.String as Text
use Prim.Native.String.append
use Prim.Native.Char.{Char, code}
use loop_agent.Prelude.{
  ℕ, suc, ◌≡◌, ◌≢◌, refl, sym, subst, String, Bool, false, List, ◌++◌, ◌&&◌, arith, All, ◌==◌,
  if◌then◌else◌,
}
use text.Mathlib.TextEquality.{eq_iff}
use loop_agent.Prelude.Text.{strip, lstrip, rstrip, is_space}
use loop_agent.Prelude.Codes.{take}
use loop_agent.Contract.{unique, stripped}

-- A text that begins with a character that is no white space.
abbrev pub IsSpoken : String → Type 0
IsSpoken Text.[] = ⊥
IsSpoken (Text.◌∷◌ c s) = is_space (code c) ≡ false

pub append-IsSpoken : (s t : String) → IsSpoken s → IsSpoken (append s t)
append-IsSpoken Text.[] t h = absurd h
append-IsSpoken (Text.◌∷◌ c s) t h = subst IsSpoken (sym (append.cons c s t)) h

kept_head :
    (empty space : Bool) (s t : String)
    → space ≡ false
    → t ≢ ""
    → (if empty && space then "" else t) ≢ ""
kept_head empty space s t h n = ground arith

cons-ne-nil : (c : Char) (s : String) → Text.◌∷◌ c s ≢ ""
cons-ne-nil c s h = cc

pub strip-IsSpoken : (s : String) → IsSpoken s → (strip s == "") ≡ false
unfolding strip lstrip
strip-IsSpoken Text.[] h = absurd h
strip-IsSpoken (Text.◌∷◌ c s) h =
    let full : rstrip (if is_space (code c) then lstrip s else Text.◌∷◌ c s) ≢ "" = rw h (
      unfold rstrip in
      kept_head (rstrip s == "") (is_space (code c)) s (Text.◌∷◌ c (rstrip s)) h
        (cons-ne-nil c (rstrip s))) in
    ground (arith, eq_iff (strip (Text.◌∷◌ c s)) "")

pub unique-nil : (xs : List String) → unique List.[] xs ≡ List.[] → xs ≡ List.[]
unfolding unique
unique-nil List.[] h = refl
unique-nil (List.◌∷◌ x xs) h = cc

pub take-nil : (n : ℕ) (xs : List String) → take (suc n) xs ≡ List.[] → xs ≡ List.[]
unfolding take
take-nil n List.[] h = refl
take-nil n (List.◌∷◌ x xs) h = cc

pub stripped-nil :
    (xs ys : List String) → All IsSpoken ys → stripped (xs ++ ys) ≡ List.[] → ys ≡ List.[]
unfolding stripped
stripped-nil List.[] List.[] a h = refl
stripped-nil List.[] (List.◌∷◌ y ys) a h = let first = strip-IsSpoken y a.0 in ground arith
stripped-nil (List.◌∷◌ x xs) ys a h = ground (arith, stripped-nil xs ys a)
