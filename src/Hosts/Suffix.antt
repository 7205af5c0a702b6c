-- ===== src/Hosts/Suffix.antt =====
-- When one host lies under another: laws of `endswith` and of a match.
use mathlib.Core.List.{append_assoc}
use loop_agent.Prelude.{
  subst, ◌≡◌, ◌⊎◌, ◌↔◌, inl, inr, refl, sym, ap, ◌∙◌, true, [], ◌∷◌, ◌++◌, arith, Bool-cases,
}
use loop_agent.Prelude.Text.{codes_eq}
use loop_agent.Hosts.{Host, ends_with, matches}

pub codes_eq_iff : (s t : Host) → (codes_eq s t ≡ true) ↔ (s ≡ t)
codes_eq_iff [] [] = (λ h. refl, λ h. refl)
codes_eq_iff [] (b ∷ t) = (λ h. cc, λ h. cc)
codes_eq_iff (a ∷ s) [] = (λ h. cc, λ h. cc)
codes_eq_iff (a ∷ s) (b ∷ t) =
    let (f, g) = codes_eq_iff s t in (λ h. ground (arith, f), λ h. ground (arith, g))

-- The host is the allowed one, or a name below it: the allowed one after some text and a dot.
abbrev pub Under : Host → Host → Type 0
Under host allowed = (host ≡ allowed) ⊎ ((p : Host) × (host ≡ p ++ b'.' ∷ allowed))

pub ends_with→suffix : (s t : Host) → ends_with s t ≡ true → (p : Host) × (s ≡ p ++ t)
unfolding ends_with
ends_with→suffix [] t h = ([], (codes_eq_iff [] t).0 h)
ends_with→suffix (c ∷ s) t h = elim (Bool-cases (codes_eq (c ∷ s) t)) [
  | inl e ↦ ([], (codes_eq_iff (c ∷ s) t).0 e)
  | inr n ↦ let (p, q) = ends_with→suffix s t (rw n at h) in (c ∷ p, ap (λ x. c ∷ x) q)
]

pub suffix→ends_with : (p s t : Host) → s ≡ p ++ t → ends_with s t ≡ true
unfolding ends_with
suffix→ends_with [] [] t e = (codes_eq_iff [] t).1 e
suffix→ends_with [] (c ∷ s) t e = let same = (codes_eq_iff (c ∷ s) t).1 e in ground arith
suffix→ends_with (a ∷ p) [] t e = cc
suffix→ends_with (a ∷ p) (c ∷ s) t e = let rest = suffix→ends_with p s t (cc e) in ground arith

pub matches_iff : (h a : Host) → (matches h a ≡ true) ↔ Under h a
unfolding matches
matches_iff h a = (
  λ m. elim (Bool-cases (codes_eq h a)) [
    | inl e ↦ inl ((codes_eq_iff h a).0 e)
    | inr n ↦ inr (ends_with→suffix h (b'.' ∷ a) (rw n at m))
  ],
  λ u. elim u [
    | inl e ↦ let same = (codes_eq_iff h a).1 e in ground arith
    | inr (p, e) ↦ let below = suffix→ends_with p h (b'.' ∷ a) e in ground arith
  ],
)

pub Under-trans : (h r c : Host) → Under h r → Under r c → Under h c
Under-trans h r c (inl e) u = subst (λ x. Under x c) (sym e) u
Under-trans h r c (inr (p, e)) (inl f) = inr (p, e ∙ ap (λ x. p ++ b'.' ∷ x) f)
Under-trans h r c (inr (p, e)) (inr (q, f)) =
    inr (p ++ b'.' ∷ q, e ∙ ap (λ x. p ++ b'.' ∷ x) f ∙ sym (append_assoc p (b'.' ∷ q) (b'.' ∷ c)))

suffixes : (p q r c : Host) → p ++ b'.' ∷ r ≡ q ++ b'.' ∷ c → Under r c ⊎ Under c r
suffixes [] [] r c e = inl (inl (cc e))
suffixes [] (y ∷ q) r c e = inl (inr (q, cc e))
suffixes (x ∷ p) [] r c e = inr (inr (p, cc e))
suffixes (x ∷ p) (y ∷ q) r c e = suffixes p q r c (cc e)

-- Two hosts that one host lies under lie one under the other.
pub Under-comparable : (h r c : Host) → Under h r → Under h c → Under r c ⊎ Under c r
Under-comparable h r c (inl e) u = inl (subst (λ x. Under x c) e u)
Under-comparable h r c (inr (p, e)) (inl f) = inr (subst (λ x. Under x r) f (inr (p, e)))
Under-comparable h r c (inr (p, e)) (inr (q, f)) = suffixes p q r c (sym e ∙ f)
