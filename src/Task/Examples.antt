-- ===== src/Task/Examples.antt =====
-- Tests of answers, and the theorems at concrete tasks.
use loop_agent.Prelude.{◌≡◌, refl, true, false, none, some, List, [], ◌∷◌, All, length}
use loop_agent.Json.{str, end, field}
use loop_agent.Loop.{
  Target, awaiting_approval, acting, cancelled, state_value, status_value, status_for,
}
use loop_agent.Loop.Policy.{IsConsistent}
use loop_agent.Ledger.{Step}
use loop_agent.Task.{Task, cancel_task, cancelled_all}
use loop_agent.Task.Reading.{Library, is_approval}
use loop_agent.Task.Cancels.{Closed, cancel_closes}

abbrev toy : Library
toy = record { sha256 = λ s. "h"; dumps = λ v. "{}"; lower = λ s. s; repr = λ v. "?" }

abbrev paused : Step
paused = record {
  number = 1;
  tool = "send_email";
  tool_args = field "to" (str "a@b.c") end;
  observation = "Paused";
  status = "blocked";
  tokens = 20;
  thought = "";
  prev_hash = some "h";
  hash = "h";
}

abbrev waiting_row : Target
waiting_row = record {
  loop_state = "awaiting_approval";
  transition_reason = none;
  transition_sequence = 4;
  status = "awaiting_input";
  stop_reason = none;
}

abbrev waiting : Task
waiting = record {
  target = waiting_row;
  contract_status = none;
  contract_draft = none;
  pending_action = some ("send_email", field "to" (str "a@b.c") end);
  pending_question = some "Approve this action?";
}

-- The first word decides.
approves : is_approval toy " yes, go on" ≡ some false
unfolding is_approval
approves = refl

approves_words : is_approval toy " yes go on" ≡ some true
unfolding is_approval
approves_words = refl

waiting-IsConsistent : IsConsistent awaiting_approval waiting_row
unfolding state_value status_value status_for
waiting-IsConsistent = record { named = refl; statused = refl; stop_fits = refl }

abbrev acting_row : Target
acting_row = record {
  loop_state = "acting";
  transition_reason = none;
  transition_sequence = 7;
  status = "running";
  stop_reason = none;
}

acting-IsConsistent : IsConsistent acting acting_row
unfolding state_value status_value status_for
acting-IsConsistent = record { named = refl; statused = refl; stop_fits = refl }

abbrev children : List Target
children = waiting_row ∷ acting_row ∷ []

cancel_closes_example :
    (t : Target) × (ts : List Target) × (cancel_task acting_row children ≡ cancelled_all t ts)
    × IsConsistent cancelled t
    × All Closed ts
    × (length ts ≡ 2)
cancel_closes_example =
    cancel_closes acting acting_row children refl acting-IsConsistent
      ((awaiting_approval, waiting-IsConsistent), ((acting, acting-IsConsistent), tt))
