-- ===== src/Patches.antt =====
-- The change sets of apps/api/app/services/task.py: a finished task's patch is applied to the user's
-- project, undone, or discarded, under the lock of the project.
pub mod Sound
mod Examples
use loop_agent.Prelude.{
  String, Bool, true, false, Option, none, some, List, [], ◌∷◌, ◌==◌, ◌&&◌, ◌||◌, not,
  if◌then◌else◌,
}

-- What the operations work on: the task's columns, the saved patch, and the tree of the project.
pub record World (Tree Patch : Type 0) : Type 0 where
  pub change_state : Option String
  pub applied_patch_sha256 : Option String
  pub patch_file : Option Patch
  pub tree : Tree

-- Git and SHA-256: whether the project is an allowed one with the base commit at its head, whether
-- `git status` prints nothing, `git apply --check` and `git apply`, each in reverse or not.
pub record Git (Tree Patch : Type 0) : Type 0 where
  pub at_base : Tree → Bool
  pub is_clean : Tree → Bool
  pub check : Bool → Tree → Patch → Bool
  pub apply : Bool → Tree → Patch → Option Tree
  pub digest : Patch → String

-- How `commit` and `refresh` end: both succeed, the commit fails and nothing is written, or the row
-- is written and then the refresh raises.
pub data Commit : Type 0 where
  committed commit_fails refresh_fails : Commit

-- The call returns or raises, and leaves this.
pub data Answer (Tree Patch : Type 0) : Type 0 where
  returned : World Tree Patch → Answer Tree Patch
  raised : World Tree Patch → Answer Tree Patch

abbrev pub is_state : Option String → String → Bool
is_state none name = false
is_state (some s) name = s == name

-- `state in {"pending", "reverted"}`
abbrev pub is_open : Option String → Bool
is_open s = is_state s "pending" || is_state s "reverted"

-- `not task.applied_patch_sha256`
abbrev pub digest_matches : Option String → String → Bool
digest_matches none h = false
digest_matches (some s) h = not (s == "") && h == s

-- `task.change_state or "pending"`
abbrev pub or_pending : Option String → String
or_pending none = "pending"
or_pending (some s) = if s == "" then "pending" else s

-- `state in {"pending", "reverted"}`, of the state of a preview
abbrev pub may_discard : Option String → Bool
may_discard s = or_pending s == "pending" || or_pending s == "reverted"

module _ {Tree Patch : Type 0} (git : Git Tree Patch) where
  -- `_verify_source`
  unfoldable pub verify_source : Bool → Tree → Bool
  verify_source require_clean tree = git.at_base tree && (not require_clean || git.is_clean tree)

  -- `apply_patch`, in reverse and on a dirty tree or not; `none` is its `ConflictError`.
  unfoldable pub apply_patch : Bool → Bool → Tree → Patch → Option Tree
  unfolding verify_source
  apply_patch reverse allow_dirty tree patch =
      if not (verify_source (not reverse && not allow_dirty) tree)
      then none
      else if not (git.check reverse tree patch)
      then none
      else git.apply reverse tree patch

  -- The row as the commit left it: the patch is taken out of the tree again, and then deleted.
  unfoldable pub compensate : World Tree Patch → Patch → Tree → Option Tree → Answer Tree Patch
  compensate w patch tree none = raised (record w { patch_file = some patch; tree = tree })
  compensate w patch tree (some back) = raised (record w { patch_file = none; tree = back })

  -- The row that an apply writes.
  abbrev pub applied_row : World Tree Patch → Patch → World Tree Patch
  applied_row w patch = record w {
    change_state = some "applied";
    applied_patch_sha256 = some (git.digest patch);
  }

  unfoldable pub after_apply : World Tree Patch → Patch → Commit → Option Tree → Answer Tree Patch
  unfolding compensate apply_patch
  after_apply w patch commit none = raised (record w { patch_file = none })
  after_apply w patch committed (some tree) =
      returned (record (applied_row w patch) { patch_file = some patch; tree = tree })
  after_apply w patch commit_fails (some tree) =
      compensate w patch tree (apply_patch true false tree patch)
  after_apply w patch refresh_fails (some tree) =
      compensate (applied_row w patch) patch tree (apply_patch true false tree patch)

  -- `_apply_change_set_locked`, with what the preview allows and how the commit ends.
  unfoldable pub apply_change_set : Bool → Patch → Commit → World Tree Patch → Answer Tree Patch
  unfolding after_apply
  apply_change_set can_apply patch commit w =
      if not (is_open w.change_state && can_apply)
      then raised w
      else after_apply w patch commit (apply_patch false false w.tree patch)

  -- The row that a discard writes.
  abbrev discarded_row : World Tree Patch → World Tree Patch
  discarded_row w = record w { change_state = some "discarded"; applied_patch_sha256 = none }

  unfoldable pub after_discard : World Tree Patch → Commit → Answer Tree Patch
  after_discard w committed = returned (record (discarded_row w) { patch_file = none })
  after_discard w commit_fails = raised w
  after_discard w refresh_fails = raised (discarded_row w)

  -- `_discard_change_set_locked`
  unfoldable pub discard_change_set : Bool → Commit → World Tree Patch → Answer Tree Patch
  unfolding after_discard
  discard_change_set terminal commit w =
      if not (may_discard w.change_state && terminal) then raised w else after_discard w commit

  -- The row as the commit left it: the patch is applied again.
  unfoldable pub restore : World Tree Patch → Tree → Option Tree → Answer Tree Patch
  restore w tree none = raised (record w { tree = tree })
  restore w tree (some back) = raised (record w { tree = back })

  unfoldable pub after_undo : World Tree Patch → Patch → Commit → Option Tree → Answer Tree Patch
  unfolding restore apply_patch
  after_undo w patch commit none = raised w
  after_undo w patch committed (some tree) =
      returned (record w { change_state = some "reverted"; tree = tree })
  after_undo w patch commit_fails (some tree) = restore w tree (apply_patch false true tree patch)
  after_undo w patch refresh_fails (some tree) =
      restore (record w { change_state = some "reverted" }) tree (apply_patch false true tree patch)

  -- `load_patch`, and what follows.
  unfoldable pub with_patch : World Tree Patch → Commit → Option Patch → Answer Tree Patch
  unfolding after_undo
  with_patch w commit none = raised w
  with_patch w commit (some patch) =
      if digest_matches w.applied_patch_sha256 (git.digest patch)
      then after_undo w patch commit (apply_patch true false w.tree patch)
      else raised w

  -- `_undo_change_set_locked`
  unfoldable pub undo_change_set : Commit → World Tree Patch → Answer Tree Patch
  unfolding with_patch
  undo_change_set commit w =
      if not (is_state w.change_state "applied") then raised w else with_patch w commit w.patch_file

-- A request of the user: with what the preview allows, or whether the task is over, and how the
-- commit ends.
pub data Operation (Patch : Type 0) : Type 0 where
  apply_it : Bool → Patch → Commit → Operation Patch
  discard_it : Bool → Commit → Operation Patch
  undo_it : Commit → Operation Patch

abbrev pub left : {Tree Patch : Type 0} → Answer Tree Patch → World Tree Patch
left (returned w) = w
left (raised w) = w

-- One request after another, as the lock has it.
unfoldable pub operate :
    {Tree Patch : Type 0}
    → Git Tree Patch
    → List (Operation Patch)
    → World Tree Patch
    → World Tree Patch
operate git [] w = w
operate git (apply_it can_apply patch commit ∷ ops) w =
    operate git ops (left (apply_change_set git can_apply patch commit w))
operate git (discard_it terminal commit ∷ ops) w =
    operate git ops (left (discard_change_set git terminal commit w))
operate git (undo_it commit ∷ ops) w = operate git ops (left (undo_change_set git commit w))
