-- ===== src/Queue/Lowers.antt =====
-- What deliveries and deletions do to the work that the stream can still cause.
use loop_agent.Prelude.{
  ℕ, zero, suc, ◌+◌, ◌≤◌, ◌<◌, ◌≡◌, ◌≢◌, Bool, true, List, [], ◌∷◌, ◌++◌, nat_eq, arith, inl, inr,
  Bool-cases, Any, All,
}
use loop_agent.Prelude.Codes.{take}
use loop_agent.Queue.{Entry, Library, without}
use loop_agent.Queue.Worker.{select, deliver, is_in, pending_deliveries}
use loop_agent.Queue.Entries.{count}
use loop_agent.Queue.Ranks.{rank, load, Present}

Any-count :
    (P : Entry → Type 0) (i : ℕ) (q : List Entry) → Any (λ x. (x.id ≡ i) × P x) q → 1 ≤ count i q
unfolding count
Any-count P i [] h = absurd h
Any-count P i (x ∷ q) (inl h) = let same = h.0 in ground arith
Any-count P i (x ∷ q) (inr h) = let more = Any-count P i q h in omega arith

-- An entry that was delivered too often is found to be so.
pub tired-pending :
    (limit i : ℕ) (batch q : List Entry)
    → count i q ≤ 1
    → Any (λ x. (x.id ≡ i) × (limit < x.deliveries)) q
    → limit < pending_deliveries i (deliver batch q)
unfolding pending_deliveries deliver count
tired-pending limit i batch [] u h = absurd h
tired-pending limit i batch (x ∷ q) u (inl h) = let (same, late) = h in ground arith
tired-pending limit i batch (x ∷ q) u (inr h) =
    let more = Any-count (λ x. limit < x.deliveries) i q h in
    let rest = tired-pending limit i batch q (omega arith) h in ground arith

pub select-All :
    (P : Entry → Type 0) (p : Entry → Bool) (q : List Entry) → All P q → All P (select p q)
unfolding select
select-All P p [] h = tt
select-All P p (e ∷ q) h = elim (Bool-cases (p e)) [
  | inl y ↦ rw y (h.0, select-All P p q h.1)
  | inr n ↦ rw n (select-All P p q h.1)
]

pub take-All : (P : Entry → Type 0) (n : ℕ) (q : List Entry) → All P q → All P (take n q)
unfolding take
take-All P zero q h = tt
take-All P (suc n) [] h = tt
take-All P (suc n) (e ∷ q) h = (h.0, take-All P n q h.1)

module _ (lib : Library) (limit : ℕ) where
  pub without-Present :
      (i : ℕ) (y : Entry) (q : List Entry)
      → y.id ≢ i
      → Present lib limit y q
      → Present lib limit y (without i q)
  unfolding without
  without-Present i y [] n h = h
  without-Present i y (x ∷ q) n (inl h) = elim (Bool-cases (nat_eq x.id i)) [
    | inl e ↦ absurd (n (let same = h.0 in ground arith))
    | inr e ↦ rw e (inl h)
  ]
  without-Present i y (x ∷ q) n (inr h) = elim (Bool-cases (nat_eq x.id i)) [
    | inl e ↦ rw e (without-Present i y q n h)
    | inr e ↦ rw e (inr (without-Present i y q n h))
  ]

  pub deliver-Present :
      (y : Entry) (batch q : List Entry)
      → Present lib limit y q
      → Present lib limit y (deliver batch q)
  unfolding deliver
  deliver-Present y batch [] h = h
  deliver-Present y batch (x ∷ q) (inl h) = elim (Bool-cases (is_in x.id batch)) [
    | inl b ↦ rw b (inl h)
    | inr b ↦ rw b (inl h)
  ]
  deliver-Present y batch (x ∷ q) (inr h) = inr (deliver-Present y batch q h)

  pub load-deliver : (batch q : List Entry) → load lib limit (deliver batch q) ≤ load lib limit q
  unfolding deliver load rank
  load-deliver batch [] = omega arith
  load-deliver batch (x ∷ q) = ground (arith, load-deliver batch q)

  pub load-deliver-lt :
      (i : ℕ) (batch q : List Entry)
      → is_in i batch ≡ true
      → Any (λ x. (x.id ≡ i) × (x.deliveries ≤ limit)) q
      → load lib limit (deliver batch q) < load lib limit q
  unfolding deliver load rank
  load-deliver-lt i batch [] b h = absurd h
  load-deliver-lt i batch (x ∷ q) b (inl h) =
      let chosen : is_in x.id batch ≡ true = rw h.0 b in
      let few = h.1 in rw chosen (omega (arith, load-deliver batch q))
  load-deliver-lt i batch (x ∷ q) b (inr h) = ground (arith, load-deliver-lt i batch q b h)

  pub load-without-snoc :
      (i : ℕ) (x : Entry) (q : List Entry)
      → load lib limit (without i (q ++ x ∷ [])) ≤ load lib limit (without i q) + rank lib limit x
  unfolding without load
  load-without-snoc i x [] = ground arith
  load-without-snoc i x (y ∷ q) = ground (arith, load-without-snoc i x q)
