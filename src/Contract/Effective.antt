-- ===== src/Contract/Effective.antt =====
-- `_effective_checks` and `_prune_redundant_source_checks`, with what they ask of the test sources.
use Prim.Native.String.{◌++◌ as append}
use loop_agent.Policy.{join}
use loop_agent.Prelude.{
  String, Bool, Option, none, some, List, [], ◌∷◌, map, ◌==◌, ◌&&◌, ◌||◌, not, any, all, contains,
  length, ltb, if◌then◌else◌,
}
use loop_agent.Prelude.Text.{codes}
use loop_agent.Prelude.Codes.{starts_with}
use loop_agent.Checks.{expected_criteria, subset, is_empty}
use loop_agent.Contract.{
  file_exists, file_contains, Check, Discovery, Proposal, Library, or_empty, is_given,
  is_test_command, unique, holds, last_or_empty,
}
use loop_agent.Contract.Checks.{same_kind, is_contract, is_command, add_all_discovered}

-- `d[path]`, of a dictionary that has the key where the source asks for it
unfoldable pub preview : List (String × String) → String → Option String
preview [] path = none
preview ((p, text) ∷ ps) path = if p == path then some text else preview ps path

abbrev pub is_previewed : Discovery → String → Bool
is_previewed d path = any (λ p. p.0 == path) d.file_previews

-- The sources of the tests, one after the other, in lower case.
unfoldable pub corpus : Library → Discovery → String
unfolding join preview
corpus lib d = lib.lower (
    join "\n" (
      map (λ path. append path (append "\n" (or_empty (preview d.file_previews path))))
        d.test_files))

abbrev pub stopwords : List String
stopwords =
    "after" ∷ "before" ∷ "command" ∷ "containing" ∷ "existing" ∷ "instead" ∷ "output" ∷ "prints"
    ∷ "repository" ∷ "required" ∷ "returns" ∷ "should" ∷ "tests" ∷ "their" ∷ "using" ∷ "when"
    ∷ "without" ∷ []

unfoldable pub filter : (String → Bool) → List String → List String
filter p [] = []
filter p (x ∷ xs) = let rest = filter p xs in if p x then x ∷ rest else rest

-- The words of a criterion that a test source could mention.
unfoldable pub markers : Library → String → List String
unfolding filter unique
markers lib criterion = unique [] (
    filter (λ token. not (contains stopwords (lib.lower token)))
      (lib.findall "[a-zA-Z][a-zA-Z0-9_-]{3,}|\\b\\d{3}\\b" criterion))

-- Whether the tests speak of a criterion, which may be that they pass.
unfoldable pub criterion_covered : Library → String → String → Bool
unfolding filter holds markers
criterion_covered lib sources criterion =
    let lowered = lib.lower criterion in
    holds lowered "test" && any (holds lowered) ("pass" ∷ "green" ∷ "succeed" ∷ [])
    || ltb 1 (length (markers lib criterion))
      && ltb 1 (length (filter (λ m. holds sources (lib.lower m)) (markers lib criterion)))

-- `_test_previews_cover_contract`
unfoldable pub test_previews_cover_contract : Library → Proposal → Discovery → Bool
unfolding corpus criterion_covered is_test_command
test_previews_cover_contract lib p d =
    not (is_empty d.test_files)
    && any (λ c. is_test_command lib c.command) d.quality_checks
    && all (is_previewed d) d.test_files
    && all (criterion_covered lib (corpus lib d)) p.criteria

-- `_is_test_path`
unfoldable pub is_test_path : Library → String → Bool
unfolding holds starts_with
is_test_path lib path =
    let parts = lib.parts path in
    let name = lib.lower (last_or_empty parts) in
    contains parts "tests"
    || contains parts "test"
    || starts_with (codes name) (codes "test_")
    || holds name ".test."
    || holds name ".spec."

-- A test command of the contract that is credited with every criterion.
unfoldable pub is_complete_gate : Library → Proposal → Check → Bool
unfolding is_test_command
is_complete_gate lib p c =
    is_contract c
    && is_test_command lib c.command
    && subset (expected_criteria (length p.criteria)) c.criterion_ids

unfoldable pub has_complete_test_gate : Library → Proposal → List Check → Bool
unfolding is_complete_gate
has_complete_test_gate lib p checks = any (is_complete_gate lib p) checks

unfoldable pub is_user_check : Check → Bool
unfolding starts_with
is_user_check c = starts_with (codes c.id) (codes "contract-user-")

-- A check that `_prune_redundant_source_checks` leaves out.
unfoldable pub is_redundant : Library → Proposal → Bool → Check → Bool
unfolding is_test_command is_test_path is_user_check
is_redundant lib p covers c =
    is_command c.kind
      && is_contract c
      && not (is_test_command lib c.command)
      && not (is_user_check c)
      && covers
    || (same_kind c.kind file_contains || same_kind c.kind file_exists)
      && is_given c.path
      && not (is_test_path lib (or_empty c.path))
      && not (is_user_check c)
      && (same_kind c.kind file_contains || contains p.artifacts (or_empty c.path))

unfoldable pub discard : (Check → Bool) → List Check → List Check
discard redundant [] = []
discard redundant (c ∷ cs) =
    let rest = discard redundant cs in if redundant c then rest else c ∷ rest

-- `_prune_redundant_source_checks`
unfoldable pub prune_redundant_source_checks :
    Library → List Check → Proposal → Discovery → List Check
unfolding discard has_complete_test_gate is_redundant test_previews_cover_contract
prune_redundant_source_checks lib checks p d =
    if not (has_complete_test_gate lib p checks) || is_empty d.test_files
    then checks
    else discard (is_redundant lib p (test_previews_cover_contract lib p d)) checks

-- `_effective_checks`
unfoldable pub effective_checks : Library → Proposal → Discovery → List Check
unfolding add_all_discovered prune_redundant_source_checks test_previews_cover_contract
effective_checks lib p d =
    let ids = expected_criteria (length p.criteria) in
    let covers = test_previews_cover_contract lib p d in
    prune_redundant_source_checks lib (add_all_discovered lib covers ids p.checks d.quality_checks)
      p d
