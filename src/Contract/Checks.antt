-- ===== src/Contract/Checks.antt =====
-- The checks of a contract: which are the same, which discovered ones are added, and which ones a
-- complete test gate makes redundant.
use Prim.Native.String.{◌++◌ as append}
use loop_agent.Json.{ℤ, pos, negsuc}
use loop_agent.Prelude.{
  ℕ, ◌+◌, String, Bool, true, false, Option, none, some, List, [], ◌∷◌, ◌++◌, ◌==◌, ◌&&◌, not, any,
  length, nat_eq, if◌then◌else◌,
}
use loop_agent.Prelude.Text.{strip}
use loop_agent.Checks.{three_digits}
use loop_agent.Contract.{
  ExpectExit, exit, nonzero, Kind, command, file_exists, file_contains, contract, system, Check,
  Library, or_empty, is_given, is_test_command,
}

abbrev pub same_kind : Kind → Kind → Bool
same_kind command command = true
same_kind file_exists file_exists = true
same_kind file_contains file_contains = true
same_kind _ _ = false

abbrev pub same_int : ℤ → ℤ → Bool
same_int (pos m) (pos n) = nat_eq m n
same_int (negsuc m) (negsuc n) = nat_eq m n
same_int _ _ = false

abbrev pub same_exit : ExpectExit → ExpectExit → Bool
same_exit (exit m) (exit n) = same_int m n
same_exit nonzero nonzero = true
same_exit _ _ = false

abbrev pub same_option : Option String → Option String → Bool
same_option none none = true
same_option (some s) (some t) = s == t
same_option _ _ = false

abbrev pub is_contract : Check → Bool
is_contract c = elim c.source [ contract ↦ true | system ↦ false ]

abbrev pub is_command : Kind → Bool
is_command k = same_kind k command

-- Whether `_check_identity` of two checks is the same.
unfoldable pub same_identity : Check → Check → Bool
unfolding strip
same_identity c d =
    same_kind c.kind d.kind
    && strip (or_empty c.command) == strip (or_empty d.command)
    && or_empty c.path == or_empty d.path
    && or_empty c.text == or_empty d.text
    && same_exit c.expect_exit d.expect_exit
    && same_option c.expect_stdout d.expect_stdout

-- `check.command or check.path or ""`
abbrev pub target : Check → String
target c = if is_given c.command then or_empty c.command else or_empty c.path

-- Whether `_check_target` of two checks is the same.
unfoldable pub same_target : Check → Check → Bool
unfolding strip
same_target c d =
    same_kind c.kind d.kind
    && strip (target c) == strip (target d)
    && or_empty c.text == or_empty d.text

-- `sorted(set(…) | set(…))`
abbrev pub with_criteria : Library → List String → Check → Check
with_criteria lib ids c = record c { criterion_ids = lib.sorted_set (c.criterion_ids ++ ids) }

-- The first check that is the same as the given one, changed.
unfoldable pub change_first : (Check → Bool) → (Check → Check) → List Check → List Check
change_first same change [] = []
change_first same change (d ∷ ds) =
    let rest = change_first same change ds in if same d then change d ∷ ds else d ∷ rest

-- A pass of the loop of `_deduplicate_contract_checks`.
unfoldable pub add_check : Library → List Check → Check → List Check
unfolding change_first same_identity
add_check lib kept c =
    if any (same_identity c) kept
    then change_first (same_identity c) (with_criteria lib c.criterion_ids) kept
    else kept ++ c ∷ []

unfoldable pub add_checks : Library → List Check → List Check → List Check
unfolding add_check
add_checks lib kept [] = kept
add_checks lib kept (c ∷ cs) = add_checks lib (add_check lib kept c) cs

unfoldable pub deduplicate_contract_checks : Library → List Check → List Check
unfolding add_checks
deduplicate_contract_checks lib checks = add_checks lib [] checks

-- The last check with the same target, which is the one that a dictionary of positions names.
unfoldable pub change_last : (Check → Bool) → (Check → Check) → List Check → List Check
change_last same change [] = []
change_last same change (d ∷ ds) =
    let rest = change_last same change ds in
    if same d && not (any same ds) then change d ∷ ds else d ∷ rest

-- What `_effective_checks` does for a discovered check of which there is one already.
abbrev pub credited : Library → List String → Check → Check
credited lib ids d = if is_test_command lib d.command then with_criteria lib ids d else d

-- A discovered test whose sources cover the contract becomes a check of the contract.
unfoldable pub adopted : Library → Bool → List String → ℕ → Check → Check
unfolding is_test_command three_digits
adopted lib covers ids position c =
    if covers && is_test_command lib c.command
    then record c {
      id = append "contract-discovered-test-" (three_digits (position + 1));
      source = contract;
      criterion_ids = ids;
    }
    else c

unfoldable pub add_discovered : Library → Bool → List String → List Check → Check → List Check
unfolding adopted change_last same_target
add_discovered lib covers ids checks c =
    if any (same_target c) checks
    then change_last (same_target c) (credited lib ids) checks
    else checks ++ adopted lib covers ids (length checks) c ∷ []

unfoldable pub add_all_discovered :
    Library → Bool → List String → List Check → List Check → List Check
unfolding add_discovered
add_all_discovered lib covers ids checks [] = checks
add_all_discovered lib covers ids checks (c ∷ cs) =
    add_all_discovered lib covers ids (add_discovered lib covers ids checks c) cs
