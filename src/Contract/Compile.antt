-- ===== src/Contract/Compile.antt =====
-- `compile_project_contract`: a proposal, at most three verdicts on it with repairs between them, and
-- the hash of the contract that was accepted.
use Prim.Native.String.{◌++◌ as append}
use loop_agent.Prelude.{
  ℕ, zero, suc, ◌+◌, ◌-◌, String, Bool, false, none, some, List, [], ◌∷◌, ◌&&◌, ◌||◌, ◌==◌, not,
  contains, length, nat_eq, if◌then◌else◌,
}
use loop_agent.Prelude.Text.{strip}
use loop_agent.Contract.{Proposal, medium, Critique, Draft, Library, Validated, valid, invalid, cut}
use loop_agent.Contract.Reading.{proposal_from_result}
use loop_agent.Contract.Merge.{merge_required_criteria, merge_required_checks}
use loop_agent.Contract.Critic.{Result}
use loop_agent.Contract.Verdict.{
  Reply, replied, llm_error, Client, Request, Outcome, compiled, llm_failed, assertion_failed, Loop,
  remaining, hash_contract, identity_of, unavailable, final_critique, concluded, abandoned,
  read_reply,
}

-- `values[-n:]`
unfoldable pub last_items {ℓ} : {A : Type ℓ} → ℕ → List A → List A
last_items n [] = []
last_items n (x ∷ xs) =
    let rest = last_items n xs in
    if nat_eq (length xs - (n - 1)) 0 && not (nat_eq n 0) then x ∷ xs else rest

-- `_failed_draft`
unfoldable pub failed_draft : Request → String → Result → Draft
unfolding cut identity_of strip
failed_draft q issue r = record {
  proposal = record {
    criteria = append "The repository implements the requested outcome: " (strip q.goal) ∷ [];
    checks = q.discovery.quality_checks;
    artifacts = [];
    risk = medium;
    assumptions = [];
    confidence = 0;
    authority_requests = [];
  };
  criteria_recovered = false;
  compiler = identity_of r;
  discovery = q.discovery;
  clarifications = q.clarifications;
  critique = record {
    accepted = false;
    issues = cut 500 issue ∷ [];
    question =
        some
          "Loop could not compile a verifiable contract. What observable behavior or output must be true when this task is finished?";
    adjudicated = false;
    adjudication_reason = none;
    provider = "unknown";
    model = "unknown";
  };
}

module _ (lib : Library) (q : Request) (next : Loop → Outcome) where
  -- The rest of a turn, once the repair has been merged with what the user requires.
  unfoldable pub on_merged :
      Loop → Critique → Result → Result → String → Validated Proposal → Outcome
  unfolding abandoned
  on_merged l c r s state (invalid error) =
      compiled
        (abandoned lib q l c (append "The bounded contract repair was invalid: " error) r l.spent)
  on_merged l c r s state (valid p) = next (record l {
    attempt = l.attempt + 1;
    proposal = p;
    compiler_result = s;
    states = state ∷ l.states;
  })

  unfoldable pub on_read :
      Loop → Critique → Result → Result → String → Validated (Proposal × Bool) → Outcome
  unfolding abandoned merge_required_checks merge_required_criteria on_merged
  on_read l c r s state (invalid error) =
      compiled
        (abandoned lib q l c (append "The bounded contract repair was invalid: " error) r l.spent)
  on_read l c r s state (valid (p, recovered)) =
      let p' = merge_required_criteria lib p q.required_criteria in
      let l' : Loop = record l { proposal = p'; recovered = l.recovered || recovered } in
      on_merged l' c r s state (merge_required_checks lib p' q.required_checks)

  -- The reply to the request for a repair.
  unfoldable pub on_repair : Loop → Critique → Result → String → Reply → Outcome
  unfolding abandoned on_read proposal_from_result
  on_repair l c r state (llm_error error tokens) = compiled (
      abandoned lib q l c (append "The bounded contract repair could not complete: " error) r
        (l.spent + tokens))
  on_repair l c r state (replied s) =
      on_read (record l { spent = l.spent + s.tokens }) c r s state
        (proposal_from_result lib s.content (q.goal ∷ []))

  -- The reply of the critic, with the number of attempts that are left after this one.
  unfoldable pub on_verdict : Client → ℕ → Loop → Reply → Outcome
  unfolding concluded final_critique on_repair
  on_verdict compiler left l (llm_error error tokens) =
      compiled (concluded lib q l (unavailable error) none (l.spent + tokens))
  on_verdict compiler left l (replied r) =
      let l' : Loop = record l { spent = l.spent + r.tokens } in
      let c = final_critique lib q l r in
      let state = lib.dumps_state l.proposal c.issues in
      let repaired =
        on_repair l' c r state (compiler (l.attempt + 1) (remaining q.token_budget l'.spent)) in
      if c.accepted || nat_eq left 0 || contains l.states state
      then compiled (concluded lib q l' c (some r) l'.spent)
      else repaired

-- The loop, with the attempts that are left.
unfoldable pub attempts : Library → Request → Client → Client → ℕ → Loop → Outcome
unfolding on_verdict
attempts lib q compiler critic zero l = assertion_failed
attempts lib q compiler critic (suc left) l =
    on_verdict lib q (attempts lib q compiler critic left) compiler left l
      (critic l.attempt (remaining q.token_budget l.spent))

abbrev pub started : Result → Proposal → Bool → Loop
started r p recovered = record {
  attempt = 0;
  proposal = p;
  recovered = recovered;
  compiler_result = r;
  spent = r.tokens;
  states = [];
}

unfoldable pub on_draft :
    Library → Request → Client → Client → Result → Validated (Proposal × Bool) → Outcome
unfolding attempts failed_draft
on_draft lib q compiler critic r (invalid error) = compiled (record {
  draft = failed_draft q (append "The contract compiler returned an invalid draft: " error) r;
  contract_hash = none;
  compiler_result = r;
  critic_result = none;
  tokens_spent = r.tokens;
})
on_draft lib q compiler critic r (valid (p, recovered)) =
    attempts lib q compiler critic 3 (started r p recovered)

unfoldable pub on_first : Library → Request → Client → Client → Reply → Outcome
unfolding on_draft read_reply
on_first lib q compiler critic (llm_error error tokens) = llm_failed error tokens
on_first lib q compiler critic (replied r) = on_draft lib q compiler critic r (read_reply lib q r)

-- The last twelve clarifications are kept.
unfoldable pub bounded_request : Request → Request
unfolding last_items
bounded_request q = record q { clarifications = last_items 12 q.clarifications }

-- `compile_project_contract`, of a repository that was discovered
unfoldable pub compile_project_contract : Library → Request → Client → Client → Outcome
unfolding on_first bounded_request
compile_project_contract lib request compiler critic =
    let q = bounded_request request in on_first lib q compiler critic (compiler 0 q.token_budget)

-- `verify_contract_hash`, of a draft that was read
unfoldable pub verify_contract_hash : Library → Draft → String → Bool
unfolding hash_contract
verify_contract_hash lib d expected = not (expected == "") && hash_contract lib d == expected
