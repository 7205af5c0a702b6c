-- ===== src/Contract/Examples.antt =====
-- A contract that is locked at its second verdict.
use loop_agent.Json.{pos, Value, boolean, object, end, field}
use loop_agent.Policy
use loop_agent.Prelude.{
  ℕ, ◌≡◌, ◌≢◌, ◌≤◌, refl, min, String, Bool, true, false, Option, none, some, List, [], ◌∷◌, ◌==◌,
  ◌+◌, ◌*◌, arith, if◌then◌else◌,
}
use loop_agent.Prelude.Text.{codes, codes_eq}
use loop_agent.Contract.{Check, command, contract, exit, Proposal, low, Library, valid}
use loop_agent.Checks.{criterion}
use loop_agent.Contract.Effective.{has_complete_test_gate, prune_redundant_source_checks}
use loop_agent.Contract.Verdict.{
  replied, Client, Request, Compiled, Outcome, compiled, assertion_failed,
}
use loop_agent.Contract.Compile.{compile_project_contract, bounded_request}
use loop_agent.Contract.Accepted.{IsLocked}
use loop_agent.Contract.Locked.{compile-IsLocked}
use loop_agent.Contract.Bounded.{reply_tokens, spent_tokens, compile_within}
use loop_agent.Contract.Pruned.{prune_keeps_gate}

abbrev shell : Policy.Library
shell = record {
  search = λ pattern text. false;
  second_groups = λ pattern text. [];
  sub = λ pattern by text. text;
  split_first = λ pattern text. "pytest";
  shlex = λ text. some ("pytest" ∷ []);
  words = λ text. "pytest" ∷ [];
  repr = λ text. text;
}

abbrev test_check : Check
test_check = record {
  id = "contract-001";
  kind = command;
  command = some "pytest";
  path = none;
  text = none;
  expect_exit = exit (pos 0);
  expect_stdout = none;
  criterion_ids = "criterion-001" ∷ [];
  source = contract;
}

abbrev proposed : Proposal
proposed = record {
  criteria = "add returns the sum" ∷ [];
  checks = test_check ∷ [];
  artifacts = [];
  risk = low;
  assumptions = [];
  confidence = 90;
  authority_requests = [];
}

-- What the replies are read as.
abbrev verdict : Bool → Value
verdict b = object (field "accepted" (boolean b) end)

abbrev loads : List ℕ → Option Value
loads text =
    if codes_eq text (codes "yes")
    then some (verdict true)
    else if codes_eq text (codes "no")
    then some (verdict false)
    else some (object end)

abbrev lib : Library
lib = record {
  policy = shell;
  search = λ pattern text. text == "pytest";
  fullmatch = λ pattern text. false;
  findall = λ pattern text. [];
  erase = λ pattern text. text;
  lower = λ text. text;
  collapse = λ text. text;
  size = λ text. 10;
  digits = λ text. none;
  sorted = λ texts. texts;
  sorted_set = λ texts. texts;
  parts = λ path. path ∷ [];
  shlex = λ text. ("pytest" ∷ [], none);
  syntax_error = λ text. none;
  loads = loads;
  repr = λ v. "?";
  validate_proposal = λ fs. valid proposed;
  validate_check = λ fs. valid test_check;
  sha256 = λ text. "digest";
  dumps_draft = λ d. "draft";
  dumps_state = λ p issues. "state";
}

abbrev request : Request
request = record {
  goal = "implement add";
  discovery = record {
    manifests = [];
    scripts = [];
    test_files = "tests/test_add.py" ∷ [];
    build_outputs = [];
    quality_checks = [];
    file_previews = ("tests/test_add.py", "def test_add") ∷ [];
    files_scanned = 2;
    truncated = false;
    previews_truncated = false;
  };
  granted = λ c. true;
  required_checks = [];
  required_criteria = [];
  clarifications = [];
  token_budget = some 100;
}

abbrev within : Option ℕ → ℕ
within none = 5
within (some budget) = min budget 5

-- The compiler replies the same always; the critic accepts at once, two tokens over its share.
abbrev compiler : Client
compiler n budget =
    replied (record { content = "draft"; tokens = within budget; provider = "p"; model = "m" })

abbrev critic : Client
critic n budget =
    replied (record { content = "yes"; tokens = within budget + 2; provider = "p"; model = "m" })

-- What is returned, which is no other outcome here.
draft_hash : Outcome → Option String
draft_hash (compiled x) = x.contract_hash
draft_hash _ = none

contract_of : Compiled → Outcome → Compiled
contract_of other (compiled x) = x
contract_of other _ = other

nothing : Compiled
nothing = record {
  draft = record {
    proposal = proposed;
    criteria_recovered = false;
    compiler = record { provider = ""; model = "" };
    discovery = request.discovery;
    clarifications = [];
    critique = record {
      accepted = false;
      issues = [];
      question = none;
      adjudicated = false;
      adjudication_reason = none;
      provider = "";
      model = "";
    };
  };
  contract_hash = none;
  compiler_result = record { content = ""; tokens = 0; provider = ""; model = "" };
  critic_result = none;
  tokens_spent = 0;
}

abbrev result : Compiled
unfolding contract_of nothing compile_project_contract
result = contract_of nothing (compile_project_contract lib request compiler critic)

result_is : compile_project_contract lib request compiler critic ≡ compiled result
unfolding result
result_is = refl

result_hash : result.contract_hash ≡ some "digest"
unfolding result
result_hash = refl

compile-IsLocked_example : IsLocked lib (bounded_request request) result "digest"
compile-IsLocked_example = compile-IsLocked lib request compiler critic result_is result_hash

near : (n budget : ℕ) → reply_tokens (compiler n (some budget)) ≤ budget + 2
unfolding reply_tokens
near n budget = omega arith

nearby : (n budget : ℕ) → reply_tokens (critic n (some budget)) ≤ budget + 2
unfolding reply_tokens
nearby n budget = omega arith

compile_within_example :
    (compile_project_contract lib request compiler critic ≢ assertion_failed)
    × (spent_tokens (compile_project_contract lib request compiler critic) ≤ 100 + 6 * 2)
compile_within_example = compile_within lib request compiler critic 100 2 refl near nearby

gated : has_complete_test_gate lib proposed (test_check ∷ []) ≡ true
unfolding has_complete_test_gate criterion
gated = refl

prune_keeps_gate_example :
    has_complete_test_gate lib proposed
      (prune_redundant_source_checks lib (test_check ∷ []) proposed request.discovery)
    ≡ true
prune_keeps_gate_example =
    prune_keeps_gate lib (test_check ∷ []) proposed request.discovery ((λ h. refl), tt) gated
