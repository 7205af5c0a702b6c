-- ===== src/Ledger.antt =====
-- apps/api/app/services/ledger.py: the hash chain over the steps of a task. `sha256` and
-- `json.dumps` with its canonical options are parameters.
pub mod Tamper
pub mod Legacy
mod Examples
use Prim.Native.String.{◌++◌ as append}
use loop_agent.Prelude.{
  ℕ, String, Bool, true, false, Option, none, some, List, [], ◌∷◌, ◌==◌, ◌&&◌, ◌||◌, not,
  if◌then◌else◌,
}
use loop_agent.Json.{pos, Value, int, str, object, Fields, end, field}

-- `_StepLike`
pub record Step : Type 0 where
  pub number : ℕ
  pub tool : String
  pub tool_args : Fields
  pub observation : String
  pub status : String
  pub tokens : ℕ
  pub thought : String
  pub prev_hash : Option String
  pub hash : String

abbrev pub genesis_prefix : String
genesis_prefix = "loop-ledger-genesis:"

-- The dictionary that is hashed, the thought only where it is not empty.
unfoldable pub step_fields : Step → String → Fields
step_fields s thought =
    let tail = if thought == "" then end else field "thought" (str thought) end in
    field "n" (int (pos s.number)) (
      field "tool" (str s.tool) (
        field "args" (object s.tool_args) (
          field "obs" (str s.observation)
            (field "status" (str s.status) (field "tokens" (int (pos s.tokens)) tail)))))

-- `s.prev_hash == prev`
abbrev pub links_to : Option String → String → Bool
links_to none prev = false
links_to (some h) prev = h == prev

unfoldable pub genesis_hash : (String → String) → String → String
genesis_hash sha256 task_id = sha256 (append genesis_prefix task_id)

-- The text of a step, with the thought that is passed for it.
unfoldable pub body : (Value → String) → Step → String → String
body dumps s thought = dumps (object (step_fields s thought))

module _ (sha256 : String → String) (dumps : Value → String) where
  unfoldable pub step_hash : String → Step → String → String
  step_hash prev s thought = sha256 (append prev (body dumps s thought))

  -- Whether a step's hash is that of its content or, failing that, the one that leaves the thought
  -- out.
  unfoldable pub hash_matches : String → Step → Bool
  hash_matches prev s =
      if not (s.hash == step_hash prev s s.thought) then s.hash == step_hash prev s "" else true

  unfoldable pub verify_from : String → List Step → Bool × Option ℕ
  verify_from prev [] = (true, none)
  verify_from prev (s ∷ rest) =
      let next = verify_from s.hash rest in
      if not (links_to s.prev_hash prev)
      then (false, some s.number)
      else if not (hash_matches prev s)
      then (false, some s.number)
      else next

  unfoldable pub verify_chain : String → List Step → Bool × Option ℕ
  verify_chain task_id steps = verify_from (genesis_hash sha256 task_id) steps

-- The hash of the last step; the chain's start where there is none.
abbrev pub head_from : String → List Step → String
head_from prev [] = prev
head_from prev (s ∷ rest) = head_from s.hash rest
