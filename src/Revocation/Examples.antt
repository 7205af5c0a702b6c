-- ===== src/Revocation/Examples.antt =====
-- Witnesses of the theorem on the stores of revocations.
use loop_agent.Prelude.{◌≡◌, true, false, List, [], ◌∷◌, arith}
use loop_agent.Revocation.Memory.{memory}
use loop_agent.Revocation.Sqlite.{sqlite}
use loop_agent.Revocation.Redis.{redis}
use loop_agent.Revocation.Backends.{
  Operation, revoke_at, ask_at, Clocked, done, revoked, asked, answers, promised, answers-promised,
}

abbrev two_questions : List Operation
two_questions =
    revoke_at 1 "run-a" 5 ∷ revoke_at 2 "run-a" 4 ∷ ask_at 3 "run-a" ∷ ask_at 5 "run-a" ∷ []

two_questions-Clocked : Clocked 0 two_questions
two_questions-Clocked = revoked 0 1 "run-a" 5 (omega arith) (
    revoked 1 2 "run-a" 4 (omega arith)
      (asked 2 3 "run-a" (omega arith) (asked 3 5 "run-a" (omega arith) (done 5))))

answers-promised_example :
    (answers memory [] two_questions ≡ true ∷ false ∷ [])
    × (answers sqlite [] two_questions ≡ true ∷ false ∷ [])
    × (answers redis [] two_questions ≡ true ∷ false ∷ [])
unfolding promised
answers-promised_example = answers-promised two_questions two_questions-Clocked
