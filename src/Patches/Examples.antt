-- ===== src/Patches/Examples.antt =====
-- Trees and patches as numbers: a patch is added, or taken out.
use loop_agent.Prelude.{
  ℕ, ◌+◌, ◌-◌, ◌≡◌, refl, Bool, true, false, Option, none, some, List, [], ◌∷◌, arith,
}
use loop_agent.Patches.{
  undo_change_set, apply_change_set, World, Git, Operation, apply_it, undo_it, discard_it, operate,
  committed, commit_fails, refresh_fails, discard_change_set,
}
use loop_agent.Patches.Sound.{IsGit, Sound, untouched, operate-Sound}

abbrev add_or_take : Bool → ℕ → ℕ → Option ℕ
add_or_take false t p = some (t + p)
add_or_take true t p = some (t - p)

abbrev toy : Git ℕ ℕ
toy = record {
  at_base = λ t. true;
  is_clean = λ t. true;
  check = λ reverse t p. true;
  apply = add_or_take;
  digest = λ p. "d";
}

toy-IsGit : IsGit toy
toy-IsGit = record {
  same_head = λ t t' p h. refl;
  reversible = λ t t' p h. refl;
  reverses = λ t t' p h. ground arith;
}

abbrev fresh : World ℕ ℕ
fresh = record {
  change_state = some "pending";
  applied_patch_sha256 = none;
  patch_file = none;
  tree = 7;
}

-- Applied with a commit that fails, then applied, and undone with a commit that fails.
abbrev requests : List (Operation ℕ)
requests = apply_it true 5 commit_fails ∷ apply_it true 5 committed ∷ undo_it commit_fails ∷ []

stays_applied : (operate toy requests fresh).tree ≡ 12
unfolding operate undo_change_set apply_change_set
stays_applied = refl

operate-Sound_example : Sound toy 7 (operate toy requests fresh)
operate-Sound_example =
    operate-Sound toy 7 toy-IsGit requests fresh (tt, (tt, (tt, tt))) (untouched fresh refl refl)

-- The refresh behind a durable commit raises: the row says `applied`, and the patch is out again.
abbrev half_applied : World ℕ ℕ
half_applied = operate toy (apply_it true 5 refresh_fails ∷ []) fresh

half_applied_lem : (half_applied.change_state ≡ some "applied") × (half_applied.tree ≡ 7)
unfolding operate apply_change_set
half_applied_lem = (refl, refl)

-- A set without a state is a pending one, and may be discarded.
discards_unset :
    (operate toy
      (discard_it true committed ∷ [])
      (record fresh { change_state = none })).change_state
    ≡ some "discarded"
unfolding operate discard_change_set
discards_unset = refl
