-- ===== src/Queue/Entries.antt =====
-- How many entries of the stream have an id, and what the operations of the queue do to that.
use loop_agent.Prelude.{
  ℕ, zero, suc, ◌+◌, ◌≤◌, ◌≡◌, ◌≢◌, refl, Bool, List, [], ◌∷◌, ◌++◌, length, nat_eq, if◌then◌else◌,
  arith,
}
use loop_agent.Prelude.Codes.{take}
use loop_agent.Queue.{Entry, without}
use loop_agent.Queue.Worker.{select, deliver}

unfoldable pub count : ℕ → List Entry → ℕ
count i [] = 0
count i (e ∷ q) = (if nat_eq e.id i then 1 else 0) + count i q

pub count-append : (i : ℕ) (p q : List Entry) → count i (p ++ q) ≡ count i p + count i q
unfolding count
count-append i [] q = omega arith
count-append i (e ∷ p) q = ground (arith, count-append i p q)

pub count-snoc :
    (i : ℕ) (q : List Entry) (x : Entry)
    → count i (q ++ x ∷ []) ≡ count i q + (if nat_eq x.id i then 1 else 0)
unfolding count
count-snoc i q x = omega (arith, count-append i q (x ∷ []))

pub length-without : (i : ℕ) (q : List Entry) → length (without i q) + count i q ≡ length q
unfolding count without
length-without i [] = refl
length-without i (e ∷ q) = ground (arith, length-without i q)

pub count-without : (i j : ℕ) (q : List Entry) → i ≢ j → count j (without i q) ≡ count j q
unfolding count without
count-without i j [] h = refl
count-without i j (e ∷ q) h = ground (arith, count-without i j q h)

pub count-without-le : (i j : ℕ) (q : List Entry) → count j (without i q) ≤ count j q
unfolding count without
count-without-le i j [] = omega arith
count-without-le i j (e ∷ q) = ground (arith, count-without-le i j q)

pub count-deliver : (i : ℕ) (batch q : List Entry) → count i (deliver batch q) ≡ count i q
unfolding count deliver
count-deliver i batch [] = refl
count-deliver i batch (e ∷ q) = ground (arith, count-deliver i batch q)

pub length-deliver : (batch q : List Entry) → length (deliver batch q) ≡ length q
unfolding deliver
length-deliver batch [] = refl
length-deliver batch (e ∷ q) = omega (arith, length-deliver batch q)

pub count-select : (i : ℕ) (p : Entry → Bool) (q : List Entry) → count i (select p q) ≤ count i q
unfolding count select
count-select i p [] = omega arith
count-select i p (e ∷ q) = ground (arith, count-select i p q)

pub count-take : (i n : ℕ) (q : List Entry) → count i (take n q) ≤ count i q
unfolding count take
count-take i zero q = omega arith
count-take i (suc n) [] = omega arith
count-take i (suc n) (e ∷ q) = ground (arith, count-take i n q)
