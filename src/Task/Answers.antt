-- ===== src/Task/Answers.antt =====
-- An answer keeps the ledger whole, resumes the task, and runs an action only if it approves.
use Prim.Native.String.{◌++◌ as append}
use loop_agent.Prelude.{
  ◌++◌, String, ◌≡◌, ◌⊎◌, Bool, true, Option, none, some, List, [], ◌∷◌, is_some,
}
use loop_agent.Json.{Fields}
use loop_agent.Loop.{LoopState, awaiting_input, awaiting_approval, queued}
use loop_agent.Loop.Policy.{IsConsistent}
use loop_agent.Ledger.{Step, verify_chain}
use loop_agent.Task.{
  Task, Response, responded, failed, index_error, type_error, reseal, shown, awaited_draft,
}
use loop_agent.Task.Reading.{Library, is_approval, clarified}

module _ (lib : Library) where
  -- What the last step says once the task is answered: that the action was approved or denied, or
  -- the question with its answer.
  abbrev noted_by : Task → String → String → Option (String × Fields) → Option Bool → String
  noted_by t answer o none consent =
      append "You asked: " (append (shown t.pending_question) (append "\nUser answered: " answer))
  noted_by t answer o (some action) (some true) = append o (append "\nUser approved: " answer)
  noted_by t answer o (some action) _ = append o (append "\nUser denied: " answer)

  pub noted : Task → String → String → String
  noted t answer o = noted_by t answer o t.pending_action (is_approval lib answer)

  -- The steps with the answer: those before the last one stay, and it is noted and sealed.
  abbrev pub Noted : Task → String → List Step → List Step → Type 0
  Noted t answer [] steps = steps ≡ []
  Noted t answer (s ∷ before) steps =
      (init : List Step) × (last : Step) × (s ∷ before ≡ init ++ last ∷ [])
      × (steps ≡ init ++ reseal lib (noted t answer last.observation) last ∷ [])

  -- What an answer does to a task that waits. Taken, it queues the task, leaves no question, and keeps
  -- the chain of the steps. Where a contract's draft was waiting the steps stay as they are; else the
  -- last of them notes the answer, and an action is left pending only if the answer approves. It is
  -- refused where an action waits for an answer without words, or a draft's clarifications are no
  -- sequence, and there alone.
  pub Answered : String → Task → String → List Step → Response → Type 0
  Answered task_id t answer before (responded t' steps) =
      (verify_chain lib.sha256 lib.dumps task_id steps ≡ (true, none))
      × IsConsistent queued t'.target
      × (t'.pending_question ≡ none)
      × (is_some (awaited_draft t) ≡ true → steps ≡ before)
      × (awaited_draft t ≡ none
          → Noted t answer before steps
            × (is_some t'.pending_action ≡ true → is_approval lib answer ≡ some true))
  Answered task_id t answer before (failed x) =
      ((x ≡ index_error)
        × (awaited_draft t ≡ none)
        × (is_some t.pending_action ≡ true)
        × (is_approval lib answer ≡ none))
      ⊎ ((draft : Fields) × (x ≡ type_error)
          × (awaited_draft t ≡ some draft)
          × (clarified lib draft answer ≡ none))

  module _ (task_id : String) (t : Task) (answer : String) (before : List Step) (s : LoopState)
      (waits : (s ≡ awaiting_input) ⊎ (s ≡ awaiting_approval)) where
    -- What the steps and the pending action have become.
    abbrev Kept : Task → List Step → Type 0
    Kept t' steps =
        (is_some (awaited_draft t) ≡ true → steps ≡ before)
        × (awaited_draft t ≡ none
            → Noted t answer before steps
              × (is_some t'.pending_action ≡ true → is_approval lib answer ≡ some true))
