-- ===== src/Contract/Locked.antt =====
-- What is known of a contract that `compile_project_contract` returns with a hash.
use loop_agent.Prelude.{
  ℕ, zero, suc, ◌+◌, ◌≡◌, refl, sym, subst, ◌∙◌, String, Bool, none, some, [], ◌∷◌, ◌||◌, inl, inr,
  Bool-cases, contains, nat_eq,
}
use loop_agent.Contract.{Proposal, Critique, Library, Validated, valid, invalid}
use loop_agent.Contract.Critic.{Result}
use loop_agent.Contract.Verdict.{
  Reply, replied, llm_error, Client, Request, Compiled, Outcome, compiled, Loop, remaining,
  final_critique, concluded, abandoned, read_reply,
}
use loop_agent.Contract.Compile.{
  on_merged, on_read, on_repair, on_verdict, attempts, started, on_draft, on_first,
  compile_project_contract,
}
use loop_agent.Contract.Merge.{merge_required_criteria, merge_required_checks}
use loop_agent.Contract.Reading.{proposal_from_result}
use loop_agent.Contract.Accepted.{IsLocked, final-IsLocked, none-ne-some, compiled-injective}
use loop_agent.Contract.Compile.{bounded_request}

module _ (lib : Library) (q : Request) where
  -- What is to hold of an outcome.
  abbrev Locks : Outcome → Type 0
  Locks o =
      (x : Compiled) (h : String) → o ≡ compiled x → x.contract_hash ≡ some h → IsLocked lib q x h

  compiled-Locks :
      (y : Compiled)
      → ((h : String) → y.contract_hash ≡ some h → IsLocked lib q y h)
      → Locks (compiled y)
  compiled-Locks y f x h e =
      subst (λ z. z.contract_hash ≡ some h → IsLocked lib q z h) (compiled-injective e) (f h)

  hashless-Locks : (y : Compiled) → y.contract_hash ≡ none → Locks (compiled y)
  hashless-Locks y n = compiled-Locks y (λ h e. absurd (none-ne-some (sym n ∙ e)))

  module _ (next : Loop → Outcome) (rest : (l : Loop) → Locks (next l)) where
    on_merged-Locks :
        (l : Loop) (c : Critique) (r s : Result) (state : String) (v : Validated Proposal)
        → Locks (on_merged lib q next l c r s state v)
    unfolding on_merged
    on_merged-Locks l c r s state (invalid error) = hashless-Locks _ (unfold abandoned in refl)
    on_merged-Locks l c r s state (valid p) = rest (record l {
      attempt = l.attempt + 1;
      proposal = p;
      compiler_result = s;
      states = state ∷ l.states;
    })

    on_read-Locks :
        (l : Loop) (c : Critique) (r s : Result) (state : String) (v : Validated (Proposal × Bool))
        → Locks (on_read lib q next l c r s state v)
    unfolding on_read
    on_read-Locks l c r s state (invalid error) = hashless-Locks _ (unfold abandoned in refl)
    on_read-Locks l c r s state (valid (p, recovered)) =
        let p' = merge_required_criteria lib p q.required_criteria in
        on_merged-Locks (record l { proposal = p'; recovered = l.recovered || recovered }) c r s
          state (merge_required_checks lib p' q.required_checks)

    on_repair-Locks :
        (l : Loop) (c : Critique) (r : Result) (state : String) (y : Reply)
        → Locks (on_repair lib q next l c r state y)
    unfolding on_repair
    on_repair-Locks l c r state (llm_error error tokens) =
        hashless-Locks _ (unfold abandoned in refl)
    on_repair-Locks l c r state (replied s) =
        on_read-Locks (record l { spent = l.spent + s.tokens }) c r s state
          (proposal_from_result lib s.content (q.goal ∷ []))

    on_verdict-Locks :
        (compiler : Client) (left : ℕ) (l : Loop) (y : Reply)
        → Locks (on_verdict lib q next compiler left l y)
    unfolding on_verdict
    on_verdict-Locks compiler left l (llm_error error tokens) =
        hashless-Locks _ (unfold concluded in refl)
    on_verdict-Locks compiler left l (replied r) =
        let spent = l.spent + r.tokens in
        let l' : Loop = record l { spent = spent } in
        let c = final_critique lib q l r in
        let state = lib.dumps_state l.proposal c.issues in
        elim (Bool-cases (c.accepted || nat_eq left 0 || contains l.states state)) [
          | inl stop ↦ rw stop (
              compiled-Locks (concluded lib q l' c (some r) spent)
                (λ h. final-IsLocked lib q l r spent spent))
          | inr more ↦ rw more (
              on_repair-Locks l' c r state
                (compiler (l.attempt + 1) (remaining q.token_budget spent)))
        ]

  attempts-Locks :
      (compiler critic : Client) (left : ℕ) (l : Loop)
      → Locks (attempts lib q compiler critic left l)
  unfolding attempts
  attempts-Locks compiler critic zero l = λ x h e. cc
  attempts-Locks compiler critic (suc left) l =
      on_verdict-Locks (attempts lib q compiler critic left) (attempts-Locks compiler critic left)
        compiler left l (critic l.attempt (remaining q.token_budget l.spent))

  on_draft-Locks :
      (compiler critic : Client) (r : Result) (v : Validated (Proposal × Bool))
      → Locks (on_draft lib q compiler critic r v)
  unfolding on_draft
  on_draft-Locks compiler critic r (invalid error) = hashless-Locks _ refl
  on_draft-Locks compiler critic r (valid (p, recovered)) =
      attempts-Locks compiler critic 3 (started r p recovered)

  on_first-Locks : (compiler critic : Client) (y : Reply) → Locks (on_first lib q compiler critic y)
  unfolding on_first
  on_first-Locks compiler critic (llm_error error tokens) = λ x h e. cc
  on_first-Locks compiler critic (replied r) = on_draft-Locks compiler critic r (read_reply lib q r)

-- Whatever the compiler and the critic reply: where the compilation of a contract returns one with a
-- hash, the hash, unless it is empty, is that of the draft beside it, and the draft says that it was
-- accepted. The contract is of low risk and confidence 80 or more, has at most eight criteria, at
-- least one check, and every criterion is named by a check of the contract; every command in it
-- parses and is not denied by the policy, for which `exec` is granted, and every capability that it
-- asks for is granted. And either no issue was left, or a test command of the contract names every
-- criterion and the sources of all tests were read.
pub compile-IsLocked :
    (lib : Library) (request : Request) (compiler critic : Client) {x : Compiled} {h : String}
    → compile_project_contract lib request compiler critic ≡ compiled x
    → x.contract_hash ≡ some h
    → IsLocked lib (bounded_request request) x h
unfolding compile_project_contract
compile-IsLocked lib request compiler critic {x} {h} e k =
    let q = bounded_request request in
    on_first-Locks lib q compiler critic (compiler 0 q.token_budget) x h e k
