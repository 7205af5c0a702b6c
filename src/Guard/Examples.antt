-- ===== src/Guard/Examples.antt =====
-- Tests of the progress guard, and its theorems at concrete actions.
use loop_agent.Prelude.{
  ◌≤◌, String, ◌≡◌, refl, Bool, true, false, none, some, List, [], ◌∷◌, length, arith,
}
use loop_agent.Prelude.Text.{codes}
use loop_agent.Prelude.Decimal.{decimal}
use loop_agent.Json.{str, Fields, end, field, get, str_of}
use loop_agent.Guard.{
  ToolStatus, error, blocked, Limits, Guard, repeats, explores, preflight, observe,
}
use loop_agent.Guard.Signature.{Library, action_signature, normalise, text_of, command_signature}
use loop_agent.Guard.Repeats.{tried, preflight-tried}
use loop_agent.Guard.Exploration.{length-observe, preflight-observe_blocked}

abbrev plain : Library
plain = record {
  lower = λ s. s;
  repr = λ v. "?";
  shlex = λ s. none;
  file_name = λ s. s;
  digest = λ s. s;
}

abbrev two_tries : Limits
two_tries = record { repeated_action_limit = 2; exploration_branch_cap = 1 }

abbrev explored : Guard
explored = record {
  revision = 0;
  action_counts = λ s. 0;
  evidence = [];
  exploration = codes "explore:0:ls:src" ∷ [];
  unchecked_mutated_paths = [];
  no_progress = 0;
}

abbrev list_tests : Fields
list_tests = field "command" (str "ls tests") end

abbrev fetch : Fields
fetch = field "url" (str "x") end

-- The signature of a listing.
listing : action_signature plain "run_command" list_tests 0 ≡ (codes "explore:0:ls:tests", true)
unfolding action_signature text_of get str_of command_signature normalise decimal
listing = refl

length-observe_example :
    length (observe plain two_tries explored "fetch" fetch "404" error false false).1.exploration
    ≤ 1
unfolding preflight action_signature normalise str_of
length-observe_example =
    length-observe plain two_tries explored "fetch" fetch "404" error false false (omega arith) refl

preflight-observe_blocked_example :
    (preflight plain two_tries explored "run_command" list_tests ≡ some (explores 1))
    × (preflight plain two_tries
          (observe plain two_tries explored "run_command" list_tests "cap" blocked false false).1
          "run_command"
          list_tests
        ≡ none)
unfolding action_signature text_of get str_of command_signature normalise decimal
preflight-observe_blocked_example =
    preflight-observe_blocked plain two_tries explored "run_command" list_tests "cap" refl refl refl
      (omega arith) refl (omega arith)

abbrev failures : List (String × ToolStatus × Bool)
failures = ("404", error, false) ∷ ("404", error, true) ∷ []

preflight-tried_example :
    preflight plain two_tries (tried plain two_tries explored "fetch" fetch failures) "fetch" fetch
    ≡ some (repeats (action_signature plain "fetch" fetch 0).0 2)
unfolding action_signature normalise str_of
preflight-tried_example =
    preflight-tried plain two_tries explored "fetch" fetch failures refl refl (omega arith)
