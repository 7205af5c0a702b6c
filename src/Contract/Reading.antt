-- ===== src/Contract/Reading.antt =====
-- `_extract_json` and `_proposal_from_result`: a reply of the contract compiler is read and put in
-- order before it is validated.
use loop_agent.Json.{Value, null, str, array, object, Fields, get, put, str_of, elements, texts}
use loop_agent.Parser.{Text, balanced_json_objects}
use loop_agent.Prelude.{
  min, String, Bool, false, Option, none, some, List, [], ◌∷◌, map, ◌==◌, ◌&&◌, not, length, leb,
  if◌then◌else◌,
}
use loop_agent.Prelude.Text.{strip, codes}
use loop_agent.Prelude.Codes.{take}
use loop_agent.Checks.{expected_criteria, is_empty}
use loop_agent.Contract.{Proposal, Library, Validated, valid, invalid, unique, stripped}
use loop_agent.Contract.Checks.{deduplicate_contract_checks}
use loop_agent.Contract.Effective.{filter}
use loop_agent.Contract.Normalize.{
  is_text, normalize_checks, existing_artifacts, with_artifacts, objects, known_capabilities,
}

-- The last of the texts that is an object.
unfoldable pub last_object : Library → List Text → Option Value
last_object lib [] = none
last_object lib (span ∷ spans) =
    let later = last_object lib spans in
    let here : Option Value = elim (lib.loads span) [
      | some (object fs) ↦ some (object fs)
      | _ ↦ none
    ] in
    elim later [ some v ↦ some v | none ↦ here ]

-- `_extract_json`
unfoldable pub extract_json : Library → String → Option Value
unfolding balanced_json_objects last_object strip
extract_json lib text =
    let cleaned = codes (strip (lib.erase "```(?:json)?" text)) in
    elim (lib.loads cleaned) [
      | some v ↦ some v
      | none ↦ last_object lib (balanced_json_objects cleaned)
    ]

-- `_as_list`
abbrev pub as_list : Option Value → List Value
as_list none = []
as_list (some null) = []
as_list (some (array vs)) = elements vs
as_list (some v) = v ∷ []

unfoldable pub without_number : Library → String → String
unfolding strip
without_number lib text = lib.erase "^criterion-\\d{3}\\s*:\\s*" (strip text)

-- The first of the keys that has a text.
unfoldable pub first_text : Library → Fields → List String → String
unfolding get strip without_number
first_text lib fs [] = ""
first_text lib fs (key ∷ keys) =
    let rest = first_text lib fs keys in
    elim (get key fs) [
      | some (str text) ↦ if strip text == "" then rest else without_number lib text
      | _ ↦ rest
    ]

-- `_criterion_text`
unfoldable pub criterion_text : Library → Value → String
unfolding first_text without_number
criterion_text lib (str text) = without_number lib text
criterion_text lib (object fs) =
    first_text lib fs ("description" ∷ "text" ∷ "criterion" ∷ "outcome" ∷ [])
criterion_text lib v = ""

-- `_bounded_fallback_criteria`
unfoldable pub bounded_fallback_criteria : Library → List String → List String
unfolding filter take unique
bounded_fallback_criteria lib values = take 12 (
    unique [] (filter (λ text. is_text text && leb (lib.size text) 4000) (map lib.collapse values)))

unfoldable pub read_criteria : Library → Fields → List String
unfolding criterion_text filter get take unique
read_criteria lib fs =
    take 12 (unique [] (filter is_text (map (criterion_text lib) (as_list (get "criteria" fs)))))

unfoldable pub accepted_proposal : Library → Bool → Validated Proposal → Validated (Proposal × Bool)
unfolding deduplicate_contract_checks
accepted_proposal lib recovered (invalid error) = invalid error
accepted_proposal lib recovered (valid p) =
    valid (record p { checks = deduplicate_contract_checks lib p.checks }, recovered)

-- The object with its fields in order, as it is validated.
unfoldable pub normalized : Library → List String → Fields → Fields
unfolding existing_artifacts get known_capabilities normalize_checks put str_of stripped take unique
    with_artifacts
normalized lib criteria fs =
    let parsed = put "criteria" (array (texts criteria)) fs in
    let valid_ids = expected_criteria (min (length criteria) 12) in
    let checks = normalize_checks lib valid_ids 1 (take 16 (as_list (get "checks" parsed))) in
    let artifacts =
      take 16 (unique [] (stripped (map (str_of lib.repr) (as_list (get "artifacts" parsed))))) in
    let all_checks = with_artifacts lib criteria (existing_artifacts lib checks) artifacts checks in
    let assumptions =
      take 12 (stripped (map (str_of lib.repr) (as_list (get "assumptions" parsed)))) in
    let authority =
      unique []
        (known_capabilities (map (str_of lib.repr) (as_list (get "authority_requests" parsed)))) in
    put "authority_requests" (array (texts authority)) (
      put "checks" (array (objects all_checks)) (
        put "assumptions" (array (texts assumptions))
          (put "artifacts" (array (texts artifacts)) parsed)))

unfoldable pub proposal_of : Library → List String → Fields → Validated (Proposal × Bool)
unfolding accepted_proposal bounded_fallback_criteria normalized read_criteria
proposal_of lib fallback fs =
    let criteria = read_criteria lib fs in
    let others = bounded_fallback_criteria lib fallback in
    if is_empty criteria
    then accepted_proposal lib (not (is_empty others))
        (lib.validate_proposal (normalized lib others fs))
    else accepted_proposal lib false (lib.validate_proposal (normalized lib criteria fs))

unfoldable pub proposal_of_json : Library → List String → Option Value → Validated (Proposal × Bool)
unfolding proposal_of
proposal_of_json lib fallback (some (object fs)) = proposal_of lib fallback fs
proposal_of_json lib fallback _ = invalid "contract compiler returned no JSON object"

-- `_proposal_from_result`
unfoldable pub proposal_from_result : Library → String → List String → Validated (Proposal × Bool)
unfolding extract_json proposal_of_json
proposal_from_result lib content fallback = proposal_of_json lib fallback (extract_json lib content)
