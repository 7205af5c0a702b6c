-- ===== src/Turn/Route.antt =====
-- When the dispatch executes an action, and what it says when it does not.
use loop_agent.Prelude.{
  ℕ, ◌<◌, String, ◌≡◌, ◌↔◌, refl, true, false, Option, none, some, List, arith,
}
use loop_agent.Turn.{execute, is_blocking, is_write, route}

-- An action is executed exactly when one was parsed, the guard lets it pass, it is no write after
-- three of one file without a run, and it needs no approval.
pub route_execute_iff :
    (show_sorted : List String → String) (tool : Option String) (valid : List String)
    (guard_block : Option String) (count : ℕ) (reason last_path : Option String)
    → (route show_sorted tool valid guard_block count reason last_path).kind ≡ execute ↔ (
        (name : String) × (tool ≡ some name)
        × (is_blocking guard_block ≡ false)
        × (is_write name ≡ true → count < 3)
        × (reason ≡ none))
unfolding route
route_execute_iff show_sorted none valid g count reason last_path =
    (λ e. ground arith, λ (name, e, p, w, n). ground arith)
route_execute_iff show_sorted (some tool) valid g count reason last_path = (
  λ e. (tool, refl, ground arith, λ w. ground arith, ground arith),
  λ (name, e, p, w, n). ground arith,
)
