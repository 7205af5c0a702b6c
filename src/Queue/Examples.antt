-- ===== src/Queue/Examples.antt =====
-- A queue with a job that fails at every attempt, and messages that a dying worker had claimed.
use Prim.Native.String.{◌++◌ as append}
use loop_agent.Json.{ℤ, pos, negsuc, object, end}
use loop_agent.Prelude.{
  ℕ, ◌+◌, ◌≡◌, ◌≤◌, refl, ap, zero, suc, String, true, Option, some, List, [], ◌∷◌, arith,
  if◌then◌else◌, nat_eq,
}
use Prim.Native.Char.{code}
use Prim.Native.String as Text
use loop_agent.Prelude.TextLaws.{text_length}
use loop_agent.Queue.{Library, loaded}
use loop_agent.Queue.Worker.{Handler, died, failed, returned}
use loop_agent.Queue.Shared.{Event, published, takes_over, reads, begins, ends, killed, start, run}
use loop_agent.Queue.Ranks.{load}
use loop_agent.Queue.Drains.{run_drains, rounds}

-- Numbers as tally marks, with a sign for the negative ones.
ones : ℕ → String
ones zero = Text.[]
ones (suc n) = Text.◌∷◌ "1" (ones n)

tally : ℤ → String
unfolding ones
tally (pos n) = ones n
tally (negsuc n) = Text.◌∷◌ "-" (ones n)

marks : String → Option ℤ
marks Text.[] = some (pos 0)
marks (Text.◌∷◌ c s) =
    some (if nat_eq (code c) 45 then negsuc (text_length s) else pos (text_length s + 1))

length-ones : (n : ℕ) → text_length (ones n) ≡ n
unfolding ones
length-ones zero = refl
length-ones (suc n) = omega (arith, length-ones n)

marks-tally : (z : ℤ) → marks (tally z) ≡ some z
unfolding marks tally ones
marks-tally (pos zero) = refl
marks-tally (pos (suc n)) = ap (λ m. some (pos m)) (omega (arith, length-ones n))
marks-tally (negsuc n) = ap (λ m. some (negsuc m)) (length-ones n)

abbrev lib : Library
unfolding marks tally
lib = record {
  loads = λ text. loaded (object end);
  int = marks;
  str = tally;
  repr = λ t. "None";
  shown_id = λ i. "0-0";
  trim = λ letters. letters;
}

prints : (z : ℤ) → lib.int (lib.str z) ≡ some z
unfolding lib
prints = marks-tally

-- The first message kills its worker every time, the others raise.
abbrev fatal_first : Handler
fatal_first i d payload = if nat_eq i 0 then died else failed "boom"

-- Worker 1 reads the second message while worker 0 has the first in hand; worker 0 is killed, and
-- worker 1 takes the first over.
abbrev two_jobs : List Event
two_jobs =
    published "a" "run_task" "{}" "now"
    ∷ published "b" "run_task" "{}" "now"
    ∷ reads 0
    ∷ begins 0
    ∷ reads 1
    ∷ killed 0
    ∷ begins 1
    ∷ ends 1
    ∷ takes_over 1 (λ i. true)
    ∷ []

work_left : load lib 3 (run lib 3 fatal_first two_jobs start).store.queue ≤ 30
unfolding run load lib
work_left = omega arith

run_drains_example :
    let s = rounds lib 3 fatal_first 30 (run lib 3 fatal_first two_jobs start).store in
    (s.queue ≡ []) × (s.counts.enqueued ≤ s.counts.completed + s.counts.dead_lettered)
run_drains_example = run_drains lib 3 fatal_first two_jobs 30 prints work_left

-- The first job is given up after its third delivery, and the second at its third attempt.
two_jobs_die :
    (rounds lib 3 fatal_first 6 (run lib 3 fatal_first two_jobs start).store).counts.dead_lettered
    ≡ 2
unfolding run rounds lib
two_jobs_die = refl

-- Worker 1 takes over what worker 0 has in hand, and both complete it: one job, counted twice.
abbrev overtaken : List Event
overtaken =
    published "a" "run_task" "{}" "now"
    ∷ reads 0
    ∷ begins 0
    ∷ takes_over 1 (λ i. true)
    ∷ begins 1
    ∷ ends 0
    ∷ ends 1
    ∷ []

counted_twice : (run lib 3 (λ i d payload. returned) overtaken start).store.counts.completed ≡ 2
unfolding run lib
counted_twice = refl
