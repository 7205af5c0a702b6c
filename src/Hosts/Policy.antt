-- ===== src/Hosts/Policy.antt =====
-- What the intersection of two host policies permits.
use loop_agent.Prelude.{
  ◌≡◌, ◌⊎◌, ◌↔◌, inl, inr, sym, Bool, true, false, List, [], ◌∷◌, ◌++◌, arith, Bool-cases, Any,
  Any-append, Any-left, Any-right, any,
}
use loop_agent.Hosts.{Host, ends_with, matches, permits, meet_one, intersect}
use loop_agent.Hosts.Suffix.{
  Under, matches_iff, Under-trans, Under-comparable, suffix→ends_with, ends_with→suffix,
}

any_iff {ℓ} :
    {A : Type ℓ} (p : A → Bool) (xs : List A) → (any p xs ≡ true) ↔ Any (λ x. p x ≡ true) xs
any_iff p [] = (λ h. cc, λ h. absurd h)
any_iff p (x ∷ xs) = let (f, g) = any_iff p xs in (λ h. ground (arith, f), λ h. ground (arith, g))

Any-map : {P Q : Host → Type 0} (xs : List Host) → ((x : Host) → P x → Q x) → Any P xs → Any Q xs
Any-map [] f h = absurd h
Any-map (x ∷ xs) f (inl h) = inl (f x h)
Any-map (x ∷ xs) f (inr h) = inr (Any-map xs f h)

pub permits_iff : (hs : List Host) (h : Host) → (permits hs h ≡ true) ↔ Any (Under h) hs
unfolding permits
permits_iff hs h = (
  λ p. Any-map hs (λ a. (matches_iff h a).0) ((any_iff (matches h) hs).0 p),
  λ p. (any_iff (matches h) hs).1 (Any-map hs (λ a. (matches_iff h a).1) p),
)

-- What one step of the inner loop adds.
data Meet (r c : Host) (rest : List Host) : List Host → Type 0 where
  keeps_requested : Under r c → Meet r c rest (r ∷ rest)
  keeps_ceiling : Under c r → Meet r c rest (c ∷ rest)
  keeps_neither : (Under r c → ⊥) → (Under c r → ⊥) → Meet r c rest rest

Meet-step : (r c : Host) (cs : List Host) → Meet r c (meet_one r cs) (meet_one r (c ∷ cs))
unfolding meet_one matches
Meet-step r c cs = elim (Bool-cases (matches r c)) [
  | inl t ↦ rw t (keeps_requested ((matches_iff r c).0 t))
  | inr n ↦ rw n (elim (Bool-cases (ends_with c (b'.' ∷ r))) [
    | inl t ↦ rw t (keeps_ceiling (inr (ends_with→suffix c (b'.' ∷ r) t)))
    | inr m ↦ rw m (keeps_neither (λ u. cc (n, (matches_iff r c).1 u)) (not_below n m))
  ])
]
  where
    not_below : matches r c ≡ false → ends_with c (b'.' ∷ r) ≡ false → Under c r → ⊥
    not_below n m (inl e) = cc (n, (matches_iff r c).1 (inl (sym e)))
    not_below n m (inr (p, e)) = cc (m, suffix→ends_with p c (b'.' ∷ r) e)

module _ (r h : Host) where
  Meet-sound_step :
      (c : Host) (cs rest out : List Host)
      → Meet r c rest out
      → (Any (Under h) rest → Under h r × Any (Under h) cs)
      → Any (Under h) out
      → Under h r × Any (Under h) (c ∷ cs)
  Meet-sound_step c cs rest out (keeps_requested u) f (inl a) = (a, inl (Under-trans h r c a u))
  Meet-sound_step c cs rest out (keeps_requested u) f (inr b) = ((f b).0, inr (f b).1)
  Meet-sound_step c cs rest out (keeps_ceiling u) f (inl a) = (Under-trans h c r a u, inl a)
  Meet-sound_step c cs rest out (keeps_ceiling u) f (inr b) = ((f b).0, inr (f b).1)
  Meet-sound_step c cs rest out (keeps_neither n m) f b = ((f b).0, inr (f b).1)

  Meet-complete_step :
      (c : Host) (cs rest out : List Host)
      → Meet r c rest out
      → (Any (Under h) cs → Any (Under h) rest)
      → Under h r
      → Any (Under h) (c ∷ cs)
      → Any (Under h) out
  Meet-complete_step c cs rest out (keeps_requested u) f v a = inl v
  Meet-complete_step c cs rest out (keeps_ceiling u) f v (inl a) = inl a
  Meet-complete_step c cs rest out (keeps_ceiling u) f v (inr b) = inr (f b)
  Meet-complete_step c cs rest out (keeps_neither n m) f v (inl a) =
      elim (Under-comparable h r c v a) [ inl u ↦ absurd (n u) | inr u ↦ absurd (m u) ]
  Meet-complete_step c cs rest out (keeps_neither n m) f v (inr b) = f b

  meet_sound : (cs : List Host) → Any (Under h) (meet_one r cs) → Under h r × Any (Under h) cs
  meet_sound [] a = absurd (unfold meet_one in a)
  meet_sound (c ∷ cs) a = Meet-sound_step c cs _ _ (Meet-step r c cs) (meet_sound cs) a

  meet_complete : (cs : List Host) → Under h r → Any (Under h) cs → Any (Under h) (meet_one r cs)
  meet_complete [] v a = absurd a
  meet_complete (c ∷ cs) v a =
      Meet-complete_step c cs _ _ (Meet-step r c cs) (meet_complete cs v) v a

intersect_sound :
    (rs cs : List Host) (h : Host)
    → Any (Under h) (intersect rs cs)
    → Any (Under h) rs × Any (Under h) cs
unfolding intersect
intersect_sound [] cs h a = absurd a
intersect_sound (r ∷ rs) cs h a = elim (Any-append (Under h) (meet_one r cs) (intersect rs cs) a) [
  | inl b ↦ let (u, v) = meet_sound r h cs b in (inl u, v)
  | inr b ↦ let (u, v) = intersect_sound rs cs h b in (inr u, v)
]

intersect_complete :
    (rs cs : List Host) (h : Host)
    → Any (Under h) rs
    → Any (Under h) cs
    → Any (Under h) (intersect rs cs)
unfolding intersect
intersect_complete [] cs h a b = absurd a
intersect_complete (r ∷ rs) cs h (inl u) b =
    Any-left (Under h) (meet_one r cs) (intersect rs cs) (meet_complete r h cs u b)
intersect_complete (r ∷ rs) cs h (inr a) b =
    Any-right (Under h) (meet_one r cs) (intersect rs cs) (intersect_complete rs cs h a b)

-- The intersection of two sets of normalized hosts permits a host exactly when each of the two
-- sets permits it: nothing that the ceiling forbids gets in, and nothing that both allow is lost.
pub permits-intersect :
    (rs cs : List Host) (h : Host)
    → (permits (intersect rs cs) h ≡ true) ↔ ((permits rs h ≡ true) × (permits cs h ≡ true))
permits-intersect rs cs h = (
  λ p.
      let (a, b) = intersect_sound rs cs h ((permits_iff (intersect rs cs) h).0 p) in
      ((permits_iff rs h).1 a, (permits_iff cs h).1 b),
  λ (p, q).
      (permits_iff (intersect rs cs) h).1
        (intersect_complete rs cs h ((permits_iff rs h).0 p) ((permits_iff cs h).0 q)),
)

-- A host is permitted exactly when it is one of the hosts of the policy or some text, a dot and
-- one of them: a name that merely ends in the letters of an allowed one is not.
pub permits_exact :
    (hs : List Host) (h : Host)
    → (permits hs h ≡ true) ↔ Any (λ a. (h ≡ a) ⊎ ((p : Host) × (h ≡ p ++ b'.' ∷ a))) hs
permits_exact hs h = permits_iff hs h
