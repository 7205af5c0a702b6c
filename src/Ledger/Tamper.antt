-- ===== src/Ledger/Tamper.antt =====
-- Tamper evidence as a reduction: two different histories under one head are a hash collision.
use Prim.Native.String.{◌++◌ as append}
use mathlib.Core.List.{append-nil}
use mathlib.Core.Path.{subst₂}
use loop_agent.Prelude.{
  Any, ◌<◌, String, ◌≡◌, ◌≢◌, ◌⊎◌, inl, inr, refl, sym, ap, subst, ◌++◌, ◌∙◌, true, Option, none,
  some, List, [], ◌∷◌, ◌==◌, eq_iff, arith, Bool-cases,
}
use loop_agent.Prelude.TextLaws.{text_length, append-injective, length-append}
use loop_agent.Json.{Value}
use loop_agent.Ledger.{
  Step, links_to, genesis_prefix, genesis_hash, body, step_hash, hash_matches, verify_from,
  verify_chain, head_from,
}

-- A text that a step's hash may stand for: its body with its thought, or without.
abbrev pub IsBody : (Value → String) → String → Step → Type 0
IsBody dumps t s = (t ≡ body dumps s s.thought) ⊎ (t ≡ body dumps s "")

-- Step by step, the two histories have a text in common that their hashes may stand for.
pub data Agree (dumps : Value → String) : List Step → List Step → Type 0 where
  both_end : Agree dumps [] []
  both :
      {s s' : Step} {rest rest' : List Step} (t : String)
      → IsBody dumps t s
      → IsBody dumps t s'
      → Agree dumps rest rest'
      → Agree dumps (s ∷ rest) (s' ∷ rest')

-- A text that verifying the step hashes: the hash that it links to, and a body of it.
abbrev pub HashedFor : (Value → String) → String → Step → Type 0
HashedFor dumps x s =
    (prev : String) × (t : String) × (s.prev_hash ≡ some prev)
    × IsBody dumps t s
    × (x ≡ append prev t)

-- A text that verifying the steps hashes: the genesis text, or that of a step.
abbrev pub Hashed : (Value → String) → String → List Step → String → Type 0
Hashed dumps seed xs x = (x ≡ seed) ⊎ Any (HashedFor dumps x) xs

-- Two different texts with one hash, the first hashed in verifying one history and the second in
-- verifying the other.
pub record Collision (sha256 : String → String) (dumps : Value → String) (seed : String)
    (xs ys : List Step) : Type 0 where
  pub left : String
  pub right : String
  pub left_hashed : Hashed dumps seed xs left
  pub right_hashed : Hashed dumps seed ys right
  pub differ : left ≢ right
  pub collide : sha256 left ≡ sha256 right

rev_onto : List Step → List Step → List Step
rev_onto [] done = done
rev_onto (s ∷ rest) done = rev_onto rest (s ∷ done)

rev_onto-rev_onto : (xs ds es : List Step) → rev_onto (rev_onto xs ds) es ≡ rev_onto ds (xs ++ es)
unfolding rev_onto
rev_onto-rev_onto [] ds es = refl
rev_onto-rev_onto (x ∷ xs) ds es = rev_onto-rev_onto xs (x ∷ ds) es

twice : (xs : List Step) → rev_onto (rev_onto xs []) [] ≡ xs
unfolding rev_onto
twice xs = rev_onto-rev_onto xs [] [] ∙ append-nil xs

Agree-rev_onto :
    {dumps : Value → String} {xs ys ds es : List Step}
    → Agree dumps xs ys
    → Agree dumps ds es
    → Agree dumps (rev_onto xs ds) (rev_onto ys es)
unfolding rev_onto
Agree-rev_onto both_end d = d
Agree-rev_onto (both t p q rest) d = Agree-rev_onto rest (both t p q d)

Any-rev_onto :
    (P : Step → Type 0) (xs ds : List Step) → Any P (rev_onto xs ds) → Any P xs ⊎ Any P ds
unfolding rev_onto
Any-rev_onto P [] ds h = inr h
Any-rev_onto P (x ∷ xs) ds h = elim (Any-rev_onto P xs (x ∷ ds) h) [
  | inl a ↦ inl (inr a)
  | inr (inl b) ↦ inl (inl b)
  | inr (inr c) ↦ inr c
]

Hashed-rev_onto :
    (dumps : Value → String) (seed x : String) (xs : List Step)
    → Hashed dumps seed (rev_onto xs []) x
    → Hashed dumps seed xs x
Hashed-rev_onto dumps seed x xs (inl e) = inl e
Hashed-rev_onto dumps seed x xs (inr a) = elim (Any-rev_onto (HashedFor dumps x) xs [] a) [
  | inl b ↦ inr b
  | inr c ↦ absurd c
]

-- A chain, last step first.
data Chain (sha256 : String → String) (dumps : Value → String) (g : String)
    : List Step → String → Type 0 where
  start : Chain sha256 dumps g [] g
  link :
      (s : Step) (t prev h : String) {rest : List Step}
      → Chain sha256 dumps g rest prev
      → s.prev_hash ≡ some prev
      → IsBody dumps t s
      → h ≡ sha256 (append prev t)
      → Chain sha256 dumps g (s ∷ rest) h

links_to_eq : (o : Option String) (prev : String) → links_to o prev ≡ true → o ≡ some prev
links_to_eq none prev h = cc
links_to_eq (some p) prev h = ap some ((eq_iff p prev).0 h)

module _ (sha256 : String → String) (dumps : Value → String) where
  matches-IsBody :
      (prev : String) (s : Step)
      → hash_matches sha256 dumps prev s ≡ true
      → (t : String) × IsBody dumps t s × (s.hash ≡ sha256 (append prev t))
  unfolding hash_matches step_hash
  matches-IsBody prev s h =
      elim (Bool-cases (s.hash == sha256 (append prev (body dumps s s.thought)))) [
        | inl e ↦ (body dumps s s.thought, inl refl, (eq_iff _ _).0 e)
        | inr n ↦ (body dumps s "", inr refl, (eq_iff _ _).0 (rw n at h))
      ]

  verified-Chain :
      (g prev : String) (steps done : List Step)
      → verify_from sha256 dumps prev steps ≡ (true, none)
      → Chain sha256 dumps g done prev
      → Chain sha256 dumps g (rev_onto steps done) (head_from prev steps)
  unfolding verify_from rev_onto
  verified-Chain g prev [] done h c = c
  verified-Chain g prev (s ∷ rest) done h c =
      let ok : hash_matches sha256 dumps prev s ≡ true = ground arith in
      let more : verify_from sha256 dumps s.hash rest ≡ (true, none) = ground arith in
      let linked : s.prev_hash ≡ some prev = links_to_eq s.prev_hash prev (ground arith) in
      let (t, b, e) = matches-IsBody prev s ok in
      verified-Chain g s.hash rest (s ∷ done) more (link s t prev s.hash c linked b e)

  module _ (fixed : (x : String) → text_length (sha256 x) ≡ 64) (seed : String)
      (short : text_length seed < 64) where
    abbrev first : String
    first = sha256 seed

    abbrev Found : List Step → List Step → Type 0
    Found = Collision sha256 dumps seed

    Found-step : {s s' : Step} {xs ys : List Step} → Found xs ys → Found (s ∷ xs) (s' ∷ ys)
    Found-step k = record {
      left = k.left;
      right = k.right;
      left_hashed = elim k.left_hashed [ inl e ↦ inl e | inr a ↦ inr (inr a) ];
      right_hashed = elim k.right_hashed [ inl e ↦ inl e | inr a ↦ inr (inr a) ];
      differ = k.differ;
      collide = k.collide;
    }

    Chain-length :
        {xs : List Step} {h : String} → Chain sha256 dumps first xs h → text_length h ≡ 64
    Chain-length start = fixed seed
    Chain-length (link s t prev h c n b e) = rw e (fixed (append prev t))

    -- The genesis text is shorter than what is hashed for a step.
    seed-ne : (prev t : String) → text_length prev ≡ 64 → seed ≢ append prev t
    seed-ne prev t l q = omega (arith, short, l, length-append prev t, ap text_length q)

    chains_agree :
        {xs ys : List Step} {h h' : String}
        → Chain sha256 dumps first xs h
        → Chain sha256 dumps first ys h'
        → h ≡ h'
        → Agree dumps xs ys ⊎ Found xs ys
    chains_agree start start p = inl both_end
    chains_agree start (link s t prev h c n b e) p = inr (record {
      left = seed;
      right = append prev t;
      left_hashed = inl refl;
      right_hashed = inr (inl (prev, t, n, b, refl));
      differ = seed-ne prev t (Chain-length c);
      collide = p ∙ e;
    })
    chains_agree (link s t prev h c n b e) start p = inr (record {
      left = append prev t;
      right = seed;
      left_hashed = inr (inl (prev, t, n, b, refl));
      right_hashed = inl refl;
      differ = λ q. seed-ne prev t (Chain-length c) (sym q);
      collide = sym e ∙ p;
    })
    chains_agree (link s t prev h c n b e) (link s' t' prev' h' c' n' b' e') p =
        elim (Bool-cases (append prev t == append prev' t')) [
          | inr z ↦ inr (record {
            left = append prev t;
            right = append prev' t';
            left_hashed = inr (inl (prev, t, n, b, refl));
            right_hashed = inr (inl (prev', t', n', b', refl));
            differ = λ q. cc (z, (eq_iff (append prev t) (append prev' t')).1 q);
            collide = sym e ∙ p ∙ e';
          })
          | inl z ↦
              let (r, u) =
                append-injective prev prev' t t' (Chain-length c ∙ sym (Chain-length c'))
                  ((eq_iff (append prev t) (append prev' t')).0 z) in
              elim (chains_agree c c' r) [
                | inr k ↦ inr (Found-step k)
                | inl a ↦ inl (both t b (subst (λ x. IsBody dumps x s') (sym u) b') a)
              ]
        ]

    Found-back : (xs ys : List Step) → Found (rev_onto xs []) (rev_onto ys []) → Found xs ys
    Found-back xs ys k = record {
      left = k.left;
      right = k.right;
      left_hashed = Hashed-rev_onto dumps seed k.left xs k.left_hashed;
      right_hashed = Hashed-rev_onto dumps seed k.right ys k.right_hashed;
      differ = k.differ;
      collide = k.collide;
    }

    from_first :
        (xs ys : List Step)
        → verify_from sha256 dumps first xs ≡ (true, none)
        → verify_from sha256 dumps first ys ≡ (true, none)
        → head_from first xs ≡ head_from first ys
        → Agree dumps xs ys ⊎ Found xs ys
    from_first xs ys hx hy e =
        let cx = verified-Chain first first xs [] hx start in
        let cy = verified-Chain first first ys [] hy start in
        elim (chains_agree cx cy e) [
          | inr k ↦ inr (Found-back xs ys k)
          | inl a ↦ inl (subst₂ (Agree dumps) (twice xs) (twice ys) (Agree-rev_onto a both_end))
        ]

-- Two step lists that verify for one task, and whose last steps carry one hash, agree step by step
-- in a text that both hashes may stand for; or else, among the texts that were hashed to verify
-- the one and those hashed to verify the other, two different ones have one SHA-256 hash. The hash
-- has 64 characters, and the task's identifier has the 36 of a UUID.
pub verify_chain_unique :
    (sha256 : String → String) (dumps : Value → String) (task_id : String) (xs ys : List Step)
    → ((x : String) → text_length (sha256 x) ≡ 64)
    → text_length task_id ≡ 36
    → verify_chain sha256 dumps task_id xs ≡ (true, none)
    → verify_chain sha256 dumps task_id ys ≡ (true, none)
    → head_from (genesis_hash sha256 task_id) xs ≡ head_from (genesis_hash sha256 task_id) ys
    → Agree dumps xs ys ⊎ Collision sha256 dumps (append genesis_prefix task_id) xs ys
unfolding verify_chain genesis_hash
verify_chain_unique sha256 dumps task_id xs ys fixed uuid hx hy e =
    from_first sha256 dumps fixed (append genesis_prefix task_id)
      (omega (arith, length-append genesis_prefix task_id)) xs ys hx hy e
