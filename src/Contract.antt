-- ===== src/Contract.antt =====
-- apps/api/app/services/contract.py and apps/api/app/schemas/contract.py: how a contract is made
-- ready before a repository task starts. What the pattern matcher, the parsers of shell and Python
-- and the models return is a parameter.
pub mod Checks
pub mod Effective
pub mod Normalize
pub mod Reading
pub mod Merge
pub mod Issues
pub mod Critic
pub mod Verdict
pub mod Compile
pub mod Found
pub mod Spoken
pub mod Startable
pub mod Accepted
pub mod Locked
pub mod Bounded
pub mod Pruned
mod Examples
use Prim.Native.String.{◌++◌ as append}
use loop_agent.Json.{ℤ, Value, Fields}
use Prim.Native.String as Text
use loop_agent.Policy
use loop_agent.Capability.{Capability}
use loop_agent.Prelude.{
  ℕ, zero, suc, String, Bool, true, false, Option, none, some, List, [], ◌∷◌, ◌++◌, ◌==◌, ◌&&◌, not,
  contains, map, if◌then◌else◌,
}
use loop_agent.Prelude.Text.{strip, codes}
use loop_agent.Prelude.Codes.{contains_text}
use loop_agent.Checks.{expected_criteria}

-- `expect_exit`: a code, or the text `nonzero`.
pub data ExpectExit : Type 0 where
  exit : ℤ → ExpectExit
  nonzero : ExpectExit

pub data Kind : Type 0 where
  command file_exists file_contains : Kind

pub data Source : Type 0 where
  contract system : Source

-- `ContractCheck`
pub record Check : Type 0 where
  pub id : String
  pub kind : Kind
  pub command : Option String
  pub path : Option String
  pub text : Option String
  pub expect_exit : ExpectExit
  pub expect_stdout : Option String
  pub criterion_ids : List String
  pub source : Source

-- `RepositoryDiscovery`; the dictionaries are lists of their items.
pub record Discovery : Type 0 where
  pub manifests : List String
  pub scripts : List (String × String)
  pub test_files : List String
  pub build_outputs : List String
  pub quality_checks : List Check
  pub file_previews : List (String × String)
  pub files_scanned : ℕ
  pub truncated : Bool
  pub previews_truncated : Bool

-- `ContractCritique`
pub record Critique : Type 0 where
  pub accepted : Bool
  pub issues : List String
  pub question : Option String
  pub adjudicated : Bool
  pub adjudication_reason : Option String
  pub provider : String
  pub model : String

pub data Risk : Type 0 where
  low medium high : Risk

-- `ContractProposal`
pub record Proposal : Type 0 where
  pub criteria : List String
  pub checks : List Check
  pub artifacts : List String
  pub risk : Risk
  pub assumptions : List String
  pub confidence : ℕ
  pub authority_requests : List Capability

-- `ContractModelIdentity`
pub record Identity : Type 0 where
  pub provider : String
  pub model : String

-- `ContractDraft`: a proposal with where it comes from.
pub record Draft : Type 0 where
  pub proposal : Proposal
  pub criteria_recovered : Bool
  pub compiler : Identity
  pub discovery : Discovery
  pub clarifications : List String
  pub critique : Critique

-- What a validation returns, or the text of its exception.
pub data Validated {ℓ} (A : Type ℓ) : Type ℓ where
  valid : A → Validated A
  invalid : String → Validated A

-- `re.search` and `re.fullmatch`, the case ignored; `re.findall` of the one group of a pattern, or of
-- the whole match; `re.sub` of a pattern by nothing; `str.lower`, `" ".join(text.split())` and
-- `len`; `str.isdigit` with `int`; `sorted`, of a list and of a set; `Path(…).parts`; what
-- `shlex.split` returns or its exception says; the line at which `ast.parse` finds an error;
-- `json.loads`; `repr`; pydantic's `model_validate`; and `hashlib.sha256` and `json.dumps`.
pub record Library : Type 0 where
  pub policy : Policy.Library
  pub search : String → String → Bool
  pub fullmatch : String → String → Bool
  pub findall : String → String → List String
  pub erase : String → String → String
  pub lower : String → String
  pub collapse : String → String
  pub size : String → ℕ
  pub digits : String → Option ℕ
  pub sorted : List String → List String
  pub sorted_set : List String → List String
  pub parts : String → List String
  pub shlex : String → List String × Option String
  pub syntax_error : String → Option ℕ
  pub loads : List ℕ → Option Value
  pub repr : Value → String
  pub validate_proposal : Fields → Validated Proposal
  pub validate_check : Fields → Validated Check
  pub sha256 : String → String
  pub dumps_draft : Draft → String
  pub dumps_state : Proposal → List String → String

-- `value or ""`
abbrev pub or_empty : Option String → String
or_empty none = ""
or_empty (some s) = s

-- A value that is neither `None` nor empty.
abbrev pub is_given : Option String → Bool
is_given o = not (or_empty o == "")

-- `list(dict.fromkeys(values))`
unfoldable pub unique : List String → List String → List String
unique seen [] = []
unique seen (x ∷ xs) =
    let kept = unique (x ∷ seen) xs in
    let dropped = unique seen xs in if contains seen x then dropped else x ∷ kept

-- `item.strip() for item in values if item.strip()`
unfoldable pub stripped : List String → List String
unfolding strip
stripped [] = []
stripped (x ∷ xs) = let rest = stripped xs in if strip x == "" then rest else strip x ∷ rest

-- The pattern of `_is_test_command`.
abbrev pub test_pattern : String
test_pattern =
    append
      "(?:^|\\s)(?:pytest|py\\.test)(?:\\s|$)|python(?:3(?:\\.\\d+)?)?\\s+-m\\s+(?:pytest|unittest)(?:\\s|$)"
      "|(?:npm|pnpm|yarn|bun)\\s+(?:run\\s+)?test(?:\\s|$)|(?:^|\\s)(?:go|cargo)\\s+test"

-- `_TAUTOLOGIES`
abbrev pub tautologies : List String
tautologies =
    "^fully( and correctly)? satisfies? the task[.!]?$"
    ∷ "^(the )?(requested )?(change|task|work) is (complete|correct|done)[.!]?$"
    ∷ "^produce(s)? a correct result[.!]?$" ∷ "^works? correctly[.!]?$" ∷ []

-- `_is_test_command`
unfoldable pub is_test_command : Library → Option String → Bool
is_test_command lib none = false
is_test_command lib (some text) = not (text == "") && lib.search test_pattern text

-- `marker in text`
unfoldable pub holds : String → String → Bool
unfolding contains_text
holds text marker = contains_text (codes text) (codes marker)

abbrev pub last_or_empty : List String → String
last_or_empty [] = ""
last_or_empty (x ∷ xs) = elim xs [ [] ↦ x | ◌∷◌ y (ys → rest) ↦ rest ]

-- `value[:n]` of a text
unfoldable pub cut : ℕ → String → String
cut zero s = Text.[]
cut (suc n) Text.[] = Text.[]
cut (suc n) (Text.◌∷◌ c s) = Text.◌∷◌ c (cut n s)
