-- ===== src/Contract/Normalize.antt =====
-- The checks, artifacts and capabilities of a reply of the contract compiler, put in order by
-- `_proposal_from_result`.
use Prim.Native.String.{◌++◌ as append}
use loop_agent.Json.{
  Value, null, str, array, object, Items, nil, cons, Fields, end, field, get, put, remove, truthy,
  truthy_get, str_of, elements, texts,
}
use loop_agent.Capability.{all_capabilities, capability_value}
use loop_agent.Prelude.{
  ℕ, ◌+◌, String, Bool, Option, none, some, List, [], ◌∷◌, ◌++◌, map, ◌==◌, ◌&&◌, ◌||◌, not, any,
  contains, length, if◌then◌else◌,
}
use loop_agent.Prelude.Text.{strip}
use loop_agent.Checks.{criterion, three_digits}
use loop_agent.Contract.{Library, holds, last_or_empty}
use loop_agent.Contract.Effective.{filter}

abbrev pub is_text : String → Bool
is_text s = not (s == "")

-- `str(check.get(key) or "").strip()`
unfoldable pub given_text : Library → String → Fields → String
unfolding get str_of strip truthy
given_text lib key fs = elim (get key fs) [
  | none ↦ ""
  | some v ↦ if truthy v then strip (str_of lib.repr v) else ""
]

unfoldable pub with_exit : Library → Fields → Option Value → Fields
unfolding put remove str_of
with_exit lib fs none = remove "expect_exit" fs
with_exit lib fs (some null) = remove "expect_exit" fs
with_exit lib fs (some v) =
    if contains ("!=0" ∷ "non-zero" ∷ "non_zero" ∷ "nonzero" ∷ []) (lib.lower (str_of lib.repr v))
    then put "expect_exit" (str "nonzero") fs
    else fs

-- The kind that the other fields suggest, where none is given.
unfoldable pub with_kind : Library → Fields → Fields
unfolding get given_text put truthy_get
with_kind lib fs =
    let has_command = is_text (given_text lib "command" fs) in
    let has_path = truthy_get (get "path" fs) in
    let has_text = is_text (given_text lib "text" fs) in
    if truthy_get (get "kind" fs)
    then fs
    else if has_command && not has_path && not has_text
    then put "kind" (str "command") fs
    else if has_path && has_text && not has_command
    then put "kind" (str "file_contains") fs
    else if has_path && not has_command && not has_text
    then put "kind" (str "file_exists") fs
    else fs

unfoldable pub id_texts : Library → Option Value → List String
unfolding str_of
id_texts lib (some (array vs)) = map (str_of lib.repr) (elements vs)
id_texts lib _ = []

unfoldable pub normalize_check : Library → List String → ℕ → Fields → Fields
unfolding filter get id_texts put three_digits with_exit with_kind
normalize_check lib valid_ids index raw =
    let check = with_kind lib (with_exit lib raw (get "expect_exit" raw)) in
    let numbered = put "id" (str (append "contract-" (three_digits index))) check in
    let sourced = put "source" (str "contract") numbered in
    put "criterion_ids"
      (array (
        texts (
          lib.sorted_set
            (filter (contains valid_ids) (id_texts lib (get "criterion_ids" sourced))))))
      sourced

unfoldable pub normalize_checks : Library → List String → ℕ → List Value → List Fields
unfolding normalize_check
normalize_checks lib valid_ids index [] = []
normalize_checks lib valid_ids index (object fs ∷ vs) =
    normalize_check lib valid_ids index fs ∷ normalize_checks lib valid_ids (index + 1) vs
normalize_checks lib valid_ids index (v ∷ vs) = normalize_checks lib valid_ids (index + 1) vs

-- `str(check.get("path"))` of the checks that a file exists
unfoldable pub existing_artifacts : Library → List Fields → List String
unfolding get str_of truthy
existing_artifacts lib [] = []
existing_artifacts lib (fs ∷ rest) =
    let others = existing_artifacts lib rest in
    elim (get "kind" fs) [
      | some (str kind) ↦ elim (get "path" fs) [
        | some v ↦ if kind == "file_exists" && truthy v then str_of lib.repr v ∷ others else others
        | none ↦ others
      ]
      | _ ↦ others
    ]

unfoldable pub mentioned_by : Library → String → ℕ → List String → List String
unfolding criterion holds
mentioned_by lib artifact index [] = []
mentioned_by lib artifact index (text ∷ rest) =
    let later = mentioned_by lib artifact (index + 1) rest in
    let lowered = lib.lower text in
    if holds lowered (lib.lower artifact)
      || holds lowered (lib.lower (last_or_empty (lib.parts artifact)))
    then criterion index ∷ later
    else later

-- Every artifact is checked for.
unfoldable pub with_artifacts :
    Library → List String → List String → List String → List Fields → List Fields
unfolding mentioned_by three_digits
with_artifacts lib criteria existing [] checks = checks
with_artifacts lib criteria existing (a ∷ rest) checks =
    let check = field "id" (str (append "contract-artifact-" (three_digits (length checks + 1)))) (
      field "kind" (str "file_exists") (
        field "path" (str a) (
          field "criterion_ids" (array (texts (mentioned_by lib a 1 criteria)))
            (field "source" (str "contract") end)))) in
    if contains existing a
    then with_artifacts lib criteria existing rest checks
    else with_artifacts lib criteria existing rest (checks ++ check ∷ [])

abbrev pub objects : List Fields → Items
objects [] = nil
objects (fs ∷ rest) = cons (object fs) (objects rest)

-- The capabilities that are named.
unfoldable pub known_capabilities : List String → List String
unfolding capability_value filter
known_capabilities values = filter (λ v. any (λ c. capability_value c == v) all_capabilities) values
