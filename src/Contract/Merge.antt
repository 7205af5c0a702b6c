-- ===== src/Contract/Merge.antt =====
-- `_merge_required_criteria` and `_merge_required_checks`: what the user requires is put into a
-- proposal, whatever the compiler made of it.
use Prim.Native.String.{◌++◌ as append}
use Prim.Native.String as Text
use loop_agent.Json.{Fields, str, put}
use loop_agent.Prelude.{
  ℕ, zero, suc, ◌+◌, ◌-◌, String, Option, none, some, List, [], ◌∷◌, ◌++◌, ◌==◌, ◌&&◌, not,
  contains, length, if◌then◌else◌, is_some,
}
use loop_agent.Prelude.Text.{codes}
use loop_agent.Prelude.Codes.{take, starts_with}
use loop_agent.Checks.{criterion, three_digits, is_empty}
use loop_agent.Contract.{
  Check, Proposal, Library, Validated, valid, invalid, unique, stripped, is_given, or_empty,
  file_exists,
}
use loop_agent.Contract.Checks.{same_kind}
use loop_agent.Contract.Effective.{filter}

-- `artifacts.append(check.path)`, where it is new
abbrev pub with_artifact : Check → List String → List String
with_artifact c artifacts =
    if same_kind c.kind file_exists && is_given c.path && not (contains artifacts (or_empty c.path))
    then artifacts ++ or_empty c.path ∷ []
    else artifacts

abbrev pub add_required : Check → Proposal → Proposal
add_required c p = record p { checks = p.checks ++ c ∷ []; artifacts = with_artifact c p.artifacts }

unfoldable pub add_valid :
    (Proposal → Validated Proposal) → Proposal → Validated Check → Validated Proposal
add_valid next p (valid c) = next (add_required c p)
add_valid next p (invalid error) = invalid error

unfoldable pub required_check : ℕ → Fields → Fields
unfolding put three_digits
required_check index raw =
    put "source" (str "contract")
      (put "id" (str (append "contract-user-" (three_digits index))) raw)

unfoldable pub merge_from : Library → ℕ → List Fields → Proposal → Validated Proposal
unfolding add_valid required_check
merge_from lib index [] p = valid p
merge_from lib index (raw ∷ rest) p =
    add_valid (merge_from lib (index + 1) rest) p (lib.validate_check (required_check index raw))

-- `_merge_required_checks`
unfoldable pub merge_required_checks : Library → Proposal → List Fields → Validated Proposal
unfolding merge_from take
merge_required_checks lib p required = merge_from lib 1 (take 40 required) p

-- `prior[index - 1]`, of an index from 1 on
unfoldable pub nth : ℕ → List String → Option String
nth n [] = none
nth zero xs = none
nth (suc zero) (x ∷ xs) = some x
nth (suc (suc n)) (x ∷ xs) = nth (suc n) xs

-- The last index of a text, counted from the given one, as a dictionary has it.
unfoldable pub position : ℕ → List String → String → Option ℕ
position index [] text = none
position index (x ∷ xs) text =
    let later = position (index + 1) xs text in
    if not (is_some later) && x == text then some index else later

-- What an id of an earlier criterion becomes.
unfoldable pub remapped_at : List String → Option String → List String
unfolding criterion position
remapped_at criteria none = []
remapped_at criteria (some text) = elim (position 1 criteria text) [
  | some n ↦ criterion n ∷ []
  | none ↦ []
]

unfoldable pub remapped_number : List String → List String → Option ℕ → List String
unfolding nth remapped_at
remapped_number prior criteria none = []
remapped_number prior criteria (some n) = remapped_at criteria (nth n prior)

unfoldable pub drop_text : ℕ → String → String
drop_text zero s = s
drop_text (suc n) Text.[] = Text.[]
drop_text (suc n) (Text.◌∷◌ c s) = drop_text n s

unfoldable pub remapped_ids : Library → List String → List String → List String → List String
unfolding drop_text remapped_number starts_with
remapped_ids lib prior criteria [] = []
remapped_ids lib prior criteria (id ∷ ids) =
    (if starts_with (codes id) (codes "criterion-")
      then remapped_number prior criteria (lib.digits (drop_text 10 id))
      else [])
    ++ remapped_ids lib prior criteria ids

unfoldable pub remap_check : Library → List String → List String → ℕ → Check → Check
unfolding criterion remapped_ids
remap_check lib prior criteria last c = record c {
  criterion_ids = lib.sorted_set (
      remapped_ids lib prior criteria c.criterion_ids
      ++ (if is_empty c.criterion_ids then [] else criterion last ∷ []));
}

unfoldable pub remap_checks : Library → List String → List String → ℕ → List Check → List Check
unfolding remap_check
remap_checks lib prior criteria last [] = []
remap_checks lib prior criteria last (c ∷ cs) =
    remap_check lib prior criteria last c ∷ remap_checks lib prior criteria last cs

unfoldable pub required_of : List String → List String
unfolding stripped take unique
required_of texts = take 12 (unique [] (stripped texts))

-- The criteria that are required, then as many of the others as an automatic start permits.
unfoldable pub criteria_with : List String → List String → List String
unfolding filter take
criteria_with required prior =
    required ++ take (8 - length required) (filter (λ x. not (contains required x)) prior)

-- `_merge_required_criteria`
unfoldable pub merge_required_criteria : Library → Proposal → List String → Proposal
unfolding criteria_with remap_checks required_of
merge_required_criteria lib p texts =
    let required = required_of texts in
    let criteria = criteria_with required p.criteria in
    if is_empty required then p else record p {
      criteria = criteria;
      checks = remap_checks lib p.criteria criteria (length required) p.checks;
    }
