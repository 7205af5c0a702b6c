-- ===== src/Contract/Pruned.antt =====
-- Leaving out the checks that a complete test gate makes redundant leaves the gate.
use loop_agent.Prelude.{
  Bool, true, false, not, List, [], ◌∷◌, ◌≡◌, refl, ◌&&◌, ◌||◌, or_right, Bool-cases, inl, inr, All,
  arith, contains,
}
use loop_agent.Checks.{is_empty}
use loop_agent.Contract.{
  Kind, command, file_exists, file_contains, Check, Discovery, Proposal, Library, is_test_command,
  is_given, or_empty,
}
use loop_agent.Contract.Checks.{is_command, is_contract, same_kind}
use loop_agent.Contract.Effective.{
  is_complete_gate, has_complete_test_gate, is_redundant, discard, prune_redundant_source_checks,
  test_previews_cover_contract, is_user_check, is_test_path,
}

-- A check that runs a test is a check of a command.
abbrev pub RunsAsCommand : Library → Check → Type 0
RunsAsCommand lib c = is_test_command lib c.command ≡ true → is_command c.kind ≡ true

second_holds : (a b : Bool) → a ≡ false → (a || b) ≡ true → b ≡ true
second_holds a b h k = ground arith

gate_tests : (a b c : Bool) → (a && b && c) ≡ true → b ≡ true
gate_tests a b c h = ground arith

-- A command that runs a test falls under neither rule.
kept_kind :
    (k : Kind) (s t u covers path test_path artifact : Bool)
    → is_command k ≡ true
    → t ≡ true
    → (is_command k && s && not t && not u && covers
        || (same_kind k file_contains || same_kind k file_exists)
          && path
          && not test_path
          && not u
          && (same_kind k file_contains || artifact))
      ≡ false
kept_kind command s t u covers path test_path artifact h g = ground arith
kept_kind file_exists s t u covers path test_path artifact h g = cc
kept_kind file_contains s t u covers path test_path artifact h g = cc

module _ (lib : Library) (p : Proposal) (covers : Bool) where
  gate-kept :
      (c : Check)
      → RunsAsCommand lib c
      → is_complete_gate lib p c ≡ true
      → is_redundant lib p covers c ≡ false
  unfolding is_redundant is_complete_gate
  gate-kept c runs gate =
      let test = gate_tests (is_contract c) (is_test_command lib c.command) _ gate in
      kept_kind c.kind (is_contract c) (is_test_command lib c.command) (is_user_check c) covers
        (is_given c.path) (is_test_path lib (or_empty c.path))
        (contains p.artifacts (or_empty c.path)) (runs test) test

  discard-gate :
      (cs : List Check)
      → All (RunsAsCommand lib) cs
      → has_complete_test_gate lib p cs ≡ true
      → has_complete_test_gate lib p (discard (is_redundant lib p covers) cs) ≡ true
  unfolding has_complete_test_gate discard
  discard-gate [] a h = h
  discard-gate (c ∷ cs) a h = elim (Bool-cases (is_complete_gate lib p c)) [
    | inl gate ↦ rw (gate-kept c a.0 gate, gate) refl
    | inr other ↦
        let before = second_holds (is_complete_gate lib p c) _ other h in
        let rest = discard-gate cs a.1 before in
        elim (Bool-cases (is_redundant lib p covers c)) [
          | inl out ↦ rw out rest
          | inr stays ↦ rw stays (or_right (is_complete_gate lib p c) _ rest)
        ]
  ]

-- Where every check that runs a test is of the kind of commands: pruning the checks of a proposal
-- that have a complete gate of tests, one that names every criterion, leaves such a gate.
pub prune_keeps_gate :
    (lib : Library) (checks : List Check) (p : Proposal) (d : Discovery)
    → All (RunsAsCommand lib) checks
    → has_complete_test_gate lib p checks ≡ true
    → has_complete_test_gate lib p (prune_redundant_source_checks lib checks p d) ≡ true
unfolding prune_redundant_source_checks
prune_keeps_gate lib checks p d a h =
    elim (Bool-cases (not (has_complete_test_gate lib p checks) || is_empty d.test_files)) [
      | inl same ↦ rw same h
      | inr fewer ↦ rw fewer (discard-gate lib p (test_previews_cover_contract lib p d) checks a h)
    ]
