-- ===== src/Contract/Bounded.antt =====
-- The compilation of a contract ends, and spends no more than it is given.
use loop_agent.Prelude.{
  ℕ, zero, suc, ◌+◌, ◌*◌, ◌-◌, ◌≤◌, ◌≡◌, ◌≢◌, refl, String, Bool, true, false, some, [], ◌∷◌, ◌||◌,
  inl, inr, Bool-cases, arith, contains, nat_eq,
}
use loop_agent.Contract.{Proposal, Critique, Library, Validated, valid, invalid}
use loop_agent.Contract.Critic.{Result}
use loop_agent.Contract.Verdict.{
  Reply, replied, llm_error, Client, Request, Compiled, Outcome, compiled, llm_failed,
  assertion_failed, Loop, remaining, final_critique, concluded, abandoned, read_reply,
}
use loop_agent.Contract.Compile.{
  on_merged, on_read, on_repair, on_verdict, attempts, started, on_draft, on_first,
  compile_project_contract, bounded_request,
}
use loop_agent.Contract.Merge.{merge_required_criteria, merge_required_checks}
use loop_agent.Contract.Reading.{proposal_from_result}

-- The tokens of a reply, and those of an outcome.
unfoldable pub reply_tokens : Reply → ℕ
reply_tokens (replied r) = r.tokens
reply_tokens (llm_error error tokens) = tokens

unfoldable pub spent_tokens : Outcome → ℕ
spent_tokens (compiled x) = x.tokens_spent
spent_tokens (llm_failed error tokens) = tokens
spent_tokens assertion_failed = 0

-- A client none of whose calls spends more than its budget and so many tokens over it: a client
-- reports what its provider counted, which the budget does not cut.
abbrev pub Overspends : ℕ → Client → Type 0
Overspends over client = (n budget : ℕ) → reply_tokens (client n (some budget)) ≤ budget + over

stops : (a b : Bool) → (a || nat_eq 0 0 || b) ≡ true
stops true b = refl
stops false b = refl

-- What the calls from a verdict on may overspend, with so many repairs left.
abbrev slack : ℕ → ℕ → ℕ
slack over zero = over
slack over (suc left) = over + (over + slack over left)

module _ (lib : Library) (q : Request) (limit over cap : ℕ) (given : q.token_budget ≡ some limit)
    (compiler critic : Client) (near : Overspends over compiler)
    (nearby : Overspends over critic) where
  -- The outcome is a verdict, within the cap.
  abbrev Ends : Outcome → Type 0
  Ends o = (o ≢ assertion_failed) × (spent_tokens o ≤ cap)

  -- Within the cap there is room for what is to come, of what was spent and of the whole budget.
  abbrev Fits : ℕ → ℕ → Type 0
  Fits spent room = (spent + room ≤ cap) × (limit + room ≤ cap)

  -- A call with what is left of the budget leaves the room that is behind it.
  call_within :
      (client : Client) (n spent room : ℕ)
      → Overspends over client
      → Fits spent (over + room)
      → Fits (spent + reply_tokens (client n (remaining q.token_budget spent))) room
  call_within client n spent room keeps (h, k) =
      rw given (let cost = keeps n (limit - spent) in (omega arith, omega arith))

  compiled-Ends : (x : Compiled) → x.tokens_spent ≤ cap → Ends (compiled x)
  unfolding spent_tokens
  compiled-Ends x h = (λ e. cc, h)

  module _ (next : Loop → Outcome) (room : ℕ)
      (rest : (l : Loop) → Fits l.spent room → Ends (next l)) where
    on_merged-Ends :
        (l : Loop) (c : Critique) (r s : Result) (state : String) (v : Validated Proposal)
        → Fits l.spent room
        → Ends (on_merged lib q next l c r s state v)
    unfolding on_merged
    on_merged-Ends l c r s state (invalid error) h =
        compiled-Ends _ (unfold abandoned in omega (arith, h.0))
    on_merged-Ends l c r s state (valid p) h =
        rest
          (record l {
            attempt = l.attempt + 1;
            proposal = p;
            compiler_result = s;
            states = state ∷ l.states;
          })
          h

    on_read-Ends :
        (l : Loop) (c : Critique) (r s : Result) (state : String) (v : Validated (Proposal × Bool))
        → Fits l.spent room
        → Ends (on_read lib q next l c r s state v)
    unfolding on_read
    on_read-Ends l c r s state (invalid error) h =
        compiled-Ends _ (unfold abandoned in omega (arith, h.0))
    on_read-Ends l c r s state (valid (p, recovered)) h =
        let p' = merge_required_criteria lib p q.required_criteria in
        on_merged-Ends (record l { proposal = p'; recovered = l.recovered || recovered }) c r s
          state (merge_required_checks lib p' q.required_checks) h

    on_repair-Ends :
        (l : Loop) (c : Critique) (r : Result) (state : String) (y : Reply)
        → Fits (l.spent + reply_tokens y) room
        → Ends (on_repair lib q next l c r state y)
    unfolding on_repair reply_tokens
    on_repair-Ends l c r state (llm_error error tokens) h =
        compiled-Ends _ (unfold abandoned in omega (arith, h.0))
    on_repair-Ends l c r state (replied s) h =
        on_read-Ends (record l { spent = l.spent + s.tokens }) c r s state
          (proposal_from_result lib s.content (q.goal ∷ [])) h

    on_verdict-Ends :
        (left : ℕ) (l : Loop) (y : Reply)
        → Fits (l.spent + reply_tokens y) (over + room)
        → Ends (on_verdict lib q next compiler left l y)
    unfolding on_verdict reply_tokens
    on_verdict-Ends left l (llm_error error tokens) h =
        compiled-Ends _ (unfold concluded in omega (arith, h.0))
    on_verdict-Ends left l (replied r) h =
        let spent = l.spent + r.tokens in
        let l' : Loop = record l { spent = spent } in
        let c = final_critique lib q l r in
        let state = lib.dumps_state l.proposal c.issues in
        elim (Bool-cases (c.accepted || nat_eq left 0 || contains l.states state)) [
          | inl stop ↦ rw stop (
              compiled-Ends (concluded lib q l' c (some r) spent)
                (unfold concluded in omega (arith, h.0)))
          | inr more ↦ rw more (
              on_repair-Ends l' c r state
                (compiler (l.attempt + 1) (remaining q.token_budget spent))
                (call_within compiler (l.attempt + 1) spent room near h))
        ]

  -- The last verdict is final, whatever would come next.
  on_last-Ends :
      (next : Loop → Outcome) (l : Loop) (y : Reply)
      → l.spent + reply_tokens y ≤ cap
      → Ends (on_verdict lib q next compiler 0 l y)
  unfolding on_verdict reply_tokens
  on_last-Ends next l (llm_error error tokens) h = compiled-Ends _ (unfold concluded in h)
  on_last-Ends next l (replied r) h =
      let c = final_critique lib q l r in
      let state = lib.dumps_state l.proposal c.issues in
      rw (stops c.accepted (contains l.states state)) (compiled-Ends _ (unfold concluded in h))

  attempts-Ends :
      (left : ℕ) (l : Loop)
      → Fits l.spent (slack over left)
      → Ends (attempts lib q compiler critic (suc left) l)
  unfolding attempts
  attempts-Ends zero l (h, k) =
      let (m, n) = call_within critic l.attempt l.spent 0 nearby (omega arith, omega arith) in
      on_last-Ends (attempts lib q compiler critic zero) l
        (critic l.attempt (remaining q.token_budget l.spent)) (omega arith)
  attempts-Ends (suc left) l h =
      on_verdict-Ends (attempts lib q compiler critic (suc left)) (slack over left)
        (attempts-Ends left) (suc left) l (critic l.attempt (remaining q.token_budget l.spent))
        (call_within critic l.attempt l.spent (over + slack over left) nearby h)

  on_draft-Ends :
      (r : Result) (v : Validated (Proposal × Bool))
      → Fits r.tokens (slack over 2)
      → Ends (on_draft lib q compiler critic r v)
  unfolding on_draft
  on_draft-Ends r (invalid error) h = compiled-Ends _ (omega (arith, h.0))
  on_draft-Ends r (valid (p, recovered)) h = attempts-Ends 2 (started r p recovered) h

  on_first-Ends :
      (y : Reply) → Fits (reply_tokens y) (slack over 2) → Ends (on_first lib q compiler critic y)
  unfolding on_first reply_tokens spent_tokens
  on_first-Ends (llm_error error tokens) h = (λ e. cc, omega (arith, h.0))
  on_first-Ends (replied r) h = on_draft-Ends r (read_reply lib q r) h

-- With a token budget, and clients none of whose calls spends more than a given number of tokens over
-- the budget that the call is given: whatever they reply, the compilation of a contract ends within
-- its three attempts, never at the assertion behind its loop, and the tokens of all calls together
-- exceed the budget by at most six times that number, once for each call that it can make; by
-- nothing, where the clients keep to the budget of each call.
pub compile_within :
    (lib : Library) (request : Request) (compiler critic : Client) (budget over : ℕ)
    → request.token_budget ≡ some budget
    → Overspends over compiler
    → Overspends over critic
    → (compile_project_contract lib request compiler critic ≢ assertion_failed)
      × (spent_tokens (compile_project_contract lib request compiler critic) ≤ budget + 6 * over)
unfolding compile_project_contract bounded_request
compile_within lib request compiler critic budget over given near nearby =
    on_first-Ends lib (bounded_request request) budget over (budget + 6 * over) given compiler
      critic near nearby (compiler 0 request.token_budget)
      (rw given (let cost = near 0 budget in (omega arith, omega arith)))
