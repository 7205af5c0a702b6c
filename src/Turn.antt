-- ===== src/Turn.antt =====
-- What one turn of the agent may spend and what becomes of its action: `ContextBudget` of
-- apps/api/app/services/loop/context.py and apps/api/app/services/loop/dispatch.py.
pub mod Budget
pub mod Route
mod Examples
use loop_agent.Prelude.{
  ℕ, ◌-◌, ◌/◌, min, max, String, Bool, false, Option, none, some, List, [], ◌∷◌, contains, ◌==◌,
  ◌&&◌, not, leb, if◌then◌else◌,
}
use Prim.Native.String.{◌++◌ as append}
use loop_agent.Prelude.Decimal.{decimal}

-- Tokens are not negative, so neither are the quotients and the cap.
pub record ContextBudget : Type 0 where
  pub total : ℕ
  pub used : ℕ
  pub verification_reserve : ℕ

unfoldable pub allocate : ℕ → ℕ → ℕ → ContextBudget
allocate total used reserve_cap = record {
  total = total;
  used = used;
  verification_reserve = min (min reserve_cap (max 250 (total / 5))) (max 0 (total / 2));
}

unfoldable pub remaining : ContextBudget → ℕ
remaining b = b.total - b.used

unfoldable pub planning : ContextBudget → ℕ
unfolding remaining
planning b = remaining b - b.verification_reserve

unfoldable pub verification_after : ContextBudget → ℕ → ℕ
unfolding remaining
verification_after b planning_tokens = remaining b - planning_tokens

unfoldable pub delegation_after : ContextBudget → ℕ → ℕ
unfolding remaining
delegation_after b planning_tokens = remaining b - planning_tokens

pub data DispatchKind : Type 0 where
  invalid blocked approval execute : DispatchKind

pub record DispatchRoute : Type 0 where
  pub kind : DispatchKind
  pub observation : Option String
  pub approval_reason : Option String

-- `if guard_block:`
abbrev pub is_blocking : Option String → Bool
is_blocking none = false
is_blocking (some s) = not (s == "")

-- A value in an f-string.
abbrev pub shown : Option String → String
shown none = "None"
shown (some s) = s

abbrev pub is_write : String → Bool
is_write tool = contains ("write_file" ∷ "edit_file" ∷ []) tool

repeated_write : Option String → ℕ → String
repeated_write path count = append "Blocked: you have written '" (
    append (shown path) (
      append "' " (
        append (decimal count)
          " times without running it. Writing it again is not allowed — run it with run_command, call finish with checks, or take a different action.")))

-- The last two tests.
approve : Option String → DispatchRoute
approve (some reason) = record {
  kind = approval;
  observation = none;
  approval_reason = some reason;
}
approve none = record { kind = execute; observation = none; approval_reason = none }

-- How Python shows the sorted list of a set's texts is a parameter.
unfoldable pub route :
    (List String → String)
    → Option String
    → List String
    → Option String
    → ℕ
    → Option String
    → Option String
    → DispatchRoute
unfolding approve repeated_write
route show_sorted none valid_tools guard_block count reason last_path = record {
  kind = invalid;
  observation = some (
      append "Could not parse a valid action. Respond with one JSON object using a valid tool: "
        (append (show_sorted valid_tools) "."));
  approval_reason = none;
}
route show_sorted (some tool) valid_tools guard_block count reason last_path =
    if is_blocking guard_block
    then record { kind = blocked; observation = guard_block; approval_reason = none }
    else if is_write tool && leb 3 count
    then record {
      kind = blocked;
      observation = some (repeated_write last_path count);
      approval_reason = none;
    }
    else approve reason
