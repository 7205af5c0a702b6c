-- ===== src/Queue/Ranks.antt =====
-- How much work an entry of the stream can still cause: attempts that are left, and deliveries
-- before the worker gives it up.
use text.Mathlib.TextEquality.{eq_iff}
use native.Mathlib.Nat.{suc-mul}
use loop_agent.Json.{ℤ, pos, negsuc}
use loop_agent.Prelude.{
  ℕ, zero, suc, ◌+◌, ◌-◌, ◌*◌, ◌≤◌, ◌<◌, ◌≡◌, ◌≢◌, ap, ◌∙◌, String, false, Option, none, some, List,
  [], ◌∷◌, ◌++◌, arith, inl, inr, Any,
}
use loop_agent.Queue.{Fields, get, put, cut, or_default, Entry, Library, without}
use loop_agent.Queue.Worker.{attempt_of, at_least, next_attempt}
use loop_agent.Queue.Effects.{again}

pub get-put-same : (k v : String) (fs : Fields) → get k (put k v fs) ≡ some v
unfolding get put
get-put-same k v [] = ground (arith, eq_iff k k)
get-put-same k v ((j, w) ∷ fs) = ground (arith, eq_iff k k, get-put-same k v fs)

pub get-put-other : (k l v : String) (fs : Fields) → k ≢ l → get k (put l v fs) ≡ get k fs
unfolding get put
get-put-other k l v [] h = ground (arith, eq_iff l k)
get-put-other k l v ((j, w) ∷ fs) h =
    ground (arith, eq_iff j l, eq_iff j k, eq_iff l k, get-put-other k l v fs h)

-- The attempts that are left, by the number of the present one.
unfoldable pub left : ℕ → Option ℤ → ℕ
left limit none = 0
left limit (some (pos n)) = limit - n
left limit (some (negsuc n)) = limit + n + 1

left-next :
    (limit : ℕ) (a : ℤ)
    → at_least a limit ≡ false
    → left limit (some (next_attempt a)) + 1 ≡ left limit (some a)
unfolding left
left-next limit (pos n) h = ground arith
left-next limit (negsuc zero) h = ground arith
left-next limit (negsuc (suc n)) h = ground arith

module _ (lib : Library) (limit : ℕ) where
  -- What an entry can still cause apart from further deliveries of itself, and with them.
  unfoldable pub base : Fields → ℕ
  unfolding left
  base fs = 1 + left limit (attempt_of lib fs) * (limit + 2)

  unfoldable pub rank : Entry → ℕ
  unfolding base
  rank e = base e.fields + (limit + 1 - e.deliveries)

  unfoldable pub load : List Entry → ℕ
  unfolding rank
  load [] = 0
  load (e ∷ q) = rank e + load q

  pub load-append : (p q : List Entry) → load (p ++ q) ≡ load p + load q
  unfolding load
  load-append [] q = omega arith
  load-append (e ∷ p) q = omega (arith, load-append p q)

  pub load-without-le : (i : ℕ) (q : List Entry) → load (without i q) ≤ load q
  unfolding load without
  load-without-le i [] = omega arith
  load-without-le i (e ∷ q) = ground (arith, load-without-le i q)

  -- An entry with these fields is in the stream.
  abbrev pub Present : Entry → List Entry → Type 0
  Present e q = Any (λ x. (x.id ≡ e.id) × (x.fields ≡ e.fields)) q

  pub load-without :
      (e : Entry) (q : List Entry) → Present e q → load (without e.id q) + base e.fields ≤ load q
  unfolding load without rank
  load-without e [] h = absurd h
  load-without e (x ∷ q) (inl (i, f)) =
      let le = load-without-le e.id q in let same = ap base f in ground arith
  load-without e (x ∷ q) (inr h) = ground (arith, load-without e q h)

  module _ (prints : (z : ℤ) → lib.int (lib.str z) ≡ some z) where
    pub attempt_of-again :
        (a : ℤ) (fs : Fields) (error : String) (i : ℕ)
        → attempt_of lib (again lib a fs error i).fields ≡ some (next_attempt a)
    unfolding again attempt_of
    attempt_of-again a fs error i =
        let t = lib.str (next_attempt a) in
        let read : get "attempt" (again lib a fs error i).fields ≡ some t =
          get-put-other "attempt" "last_error" (cut 1000 error) (put "attempt" t fs) (λ e. cc)
          ∙ get-put-same "attempt" t fs in
        ap (λ o. lib.int (or_default "1" o)) read ∙ prints (next_attempt a)

    pub rank-again :
        (a : ℤ) (fs : Fields) (error : String) (i : ℕ)
        → attempt_of lib fs ≡ some a
        → at_least a limit ≡ false
        → rank (again lib a fs error i) < base fs
    unfolding rank base again
    rank-again a fs error i h g =
        rw (attempt_of-again a fs error i, h)
          (let less = left-next limit a g in
            let more = suc-mul (left limit (some (next_attempt a))) (limit + 2) in ground arith)
