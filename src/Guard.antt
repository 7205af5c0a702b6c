-- ===== src/Guard.antt =====
-- apps/api/app/services/progress.py: which actions of the agent count as the same, and the guard
-- that blocks repeated ones and too much exploration. Texts are lists of character codes.
pub mod Signature
pub mod Repeats
pub mod Exploration
mod Examples
use loop_agent.Prelude.{
  ℕ, ◌+◌, String, Bool, true, false, Option, none, some, List, [], ◌∷◌, ◌++◌, ◌==◌, ◌&&◌, ◌||◌, not,
  any, ltb, leb, contains, if◌then◌else◌, length,
}
use loop_agent.Prelude.Text.{codes, codes_eq}
use loop_agent.Prelude.Codes.{starts_with}
use loop_agent.Prelude.Decimal.{decimal}
use loop_agent.Json.{str, Fields, get}
use loop_agent.Guard.Signature.{
  Text, Library, member, normalise, text_of, action_signature, mutation_tools, inspect_signature,
}

-- `ToolStatus` of tools/base.py
pub data ToolStatus : Type 0 where
  ok error blocked : ToolStatus

-- The settings that the guard reads.
pub record Limits : Type 0 where
  pub repeated_action_limit : ℕ
  pub exploration_branch_cap : ℕ

pub record Guard : Type 0 where
  pub revision : ℕ
  pub action_counts : Text → ℕ
  pub evidence : List Text
  pub exploration : List Text
  pub unchecked_mutated_paths : List Text
  pub no_progress : ℕ

-- `s.add(x)` of a set
abbrev pub add : Text → List Text → List Text
add x s = if member s x then s else x ∷ s

-- `s.discard(x)`
unfoldable pub discard : Text → List Text → List Text
discard x [] = []
discard x (y ∷ s) = let rest = discard x s in if codes_eq y x then rest else y ∷ rest

-- `counts[x] = n`, and `counts.pop(x, None)` with 0.
abbrev pub set_count : (Text → ℕ) → Text → ℕ → Text → ℕ
set_count f x n y = if codes_eq x y then n else f y

-- The answer to `preflight`, with what its message is about.
pub data Refusal : Type 0 where
  repeats : Text → ℕ → Refusal
  explores : ℕ → Refusal

-- What the guard reads of a `HistoryEntry`.
pub record Entry : Type 0 where
  pub tool : String
  pub args : Fields
  pub observation : String
  pub status : ToolStatus

module _ (lib : Library) (limits : Limits) where
  abbrev pub repeat_limit : String → Text → ℕ
  repeat_limit tool signature =
      if starts_with (codes tool) (codes "sibyl_") || starts_with signature (codes "inspect:")
      then 1
      else limits.repeated_action_limit

  -- Once the signature is known.
  preflight_on : Guard → String → Text → Bool → Option Refusal
  preflight_on g tool signature exploratory =
      if not (contains mutation_tools tool)
        && leb (repeat_limit tool signature) (g.action_counts signature)
      then some (repeats signature (g.action_counts signature))
      else if exploratory
          && not (member g.exploration signature)
          && leb limits.exploration_branch_cap (length g.exploration)
      then some (explores limits.exploration_branch_cap)
      else none

  unfoldable pub preflight : Guard → String → Fields → Option Refusal
  unfolding preflight_on
  preflight g tool args =
      let (signature, exploratory) = action_signature lib tool args g.revision in
      preflight_on g tool signature exploratory

  -- The loop of `permit_diagnostic_reinspection`.
  reinspect : List Text → Guard → Guard
  unfolding discard
  reinspect [] g = g
  reinspect (path ∷ paths) g =
      let rest = reinspect paths g in
      if codes_eq path []
      then rest
      else (let signature = inspect_signature g.revision path in
          record rest {
            action_counts = set_count rest.action_counts signature 0;
            exploration = discard signature rest.exploration;
          })

  -- `permit_diagnostic_reinspection`: of a path that is not empty, or of all unchecked ones.
  unfoldable pub permit_diagnostic_reinspection : Option Text → Guard → Guard
  unfolding reinspect
  permit_diagnostic_reinspection none g = reinspect g.unchecked_mutated_paths g
  permit_diagnostic_reinspection (some []) g = reinspect g.unchecked_mutated_paths g
  permit_diagnostic_reinspection (some (c ∷ path)) g =
      reinspect (normalise lib (c ∷ path) 160 ∷ []) g

  -- `self.action_counts[signature] += 1` and `self.exploration.add(signature)`
  counted : Text → Bool → Guard → Guard
  counted signature exploratory g = record g {
    action_counts = set_count g.action_counts signature (g.action_counts signature + 1);
    exploration = if exploratory then add signature g.exploration else g.exploration;
  }

  -- A successful write, or an action that changed the workspace: a new revision.
  advanced : String → Fields → Guard → Guard
  advanced tool args g =
      let path = normalise lib (text_of lib (get "path" args) "") 160 in
      let next : Guard = record g { revision = g.revision + 1; exploration = [] } in
      if contains mutation_tools tool
      then record next {
        unchecked_mutated_paths =
            if codes_eq path []
            then next.unchecked_mutated_paths
            else add path next.unchecked_mutated_paths;
        action_counts = set_count next.action_counts (inspect_signature next.revision path) 1;
      }
      else next

  -- `evidence_key`
  evidence_key : String → Guard → Text
  evidence_key observation g =
      codes (decimal g.revision)
      ++ (codes ":" ++ lib.digest (normalise lib (codes observation) 2000))

  -- Whether there was progress, and the guard, before the diagnostics.
  judged : String → Fields → String → ToolStatus → Bool → Bool → Bool → Guard → Bool × Guard
  unfolding advanced evidence_key
  judged tool args observation ok force changed seen g =
      if contains mutation_tools tool || changed
      then ((not seen || changed) && not force, advanced tool args g)
      else (
        not (member g.evidence (evidence_key observation g)) && not force,
        record g { evidence = add (evidence_key observation g) g.evidence },
      )
  judged tool args observation error force changed seen g =
      if tool == "run_command"
      then (
        not (member g.evidence (evidence_key observation g)) && not force,
        record g { evidence = add (evidence_key observation g) g.evidence },
      )
      else (false, g)
  judged tool args observation blocked force changed seen g = (false, g)

  -- What an error reopens, and what a successful command settles.
  diagnosed : String → Fields → ToolStatus → Guard → Guard
  unfolding permit_diagnostic_reinspection
  diagnosed tool args error g =
      if tool == "run_command"
      then permit_diagnostic_reinspection none g
      else if contains mutation_tools tool
      then permit_diagnostic_reinspection (some (text_of lib (get "path" args) "")) g
      else g
  diagnosed tool args ok g =
      if tool == "run_command" then record g { unchecked_mutated_paths = [] } else g
  diagnosed tool args blocked g = g

  -- `observe`: whether there was progress, and the guard after it.
  unfoldable pub observe :
      Guard → String → Fields → String → ToolStatus → Bool → Bool → Bool × Guard
  unfolding counted judged diagnosed
  observe g tool args observation status force changed =
      let (signature, exploratory) = action_signature lib tool args g.revision in
      let seen = ltb 0 (g.action_counts signature) in
      let (progress, g') =
        judged tool args observation status force changed seen (counted signature exploratory g) in
      let done = diagnosed tool args status g' in
      (progress, record done { no_progress = if progress then 0 else done.no_progress + 1 })

  -- `ProgressGuard(history)`
  replay : Guard → List Entry → Guard
  unfolding observe
  replay g [] = g
  replay g (e ∷ es) = replay (observe g e.tool e.args e.observation e.status false false).1 es

  unfoldable pub guard_of : List Entry → Guard
  unfolding replay
  guard_of history =
      replay
        (record {
          revision = 0;
          action_counts = λ s. 0;
          evidence = [];
          exploration = [];
          unchecked_mutated_paths = [];
          no_progress = 0;
        })
        history
