-- ===== src/Parser/Examples.antt =====
-- Witnesses of the theorems on the parser: a response that wraps `{"tool":"go"}` in prose.
use loop_agent.Prelude.{String, ◌≡◌, refl, Option, none, some, [], ◌∷◌, ◌++◌, if◌then◌else◌}
use loop_agent.Prelude.Text.{codes, codes_eq}
use loop_agent.Json.{Value, object, str, Fields, end, field, get}
use loop_agent.Parser.{Text, quote, balanced_json_objects, cleaned, thought_of, parse}
use loop_agent.Parser.Grammar.{Quoted, close, char, Body, empty, plain, string, object_text}
use loop_agent.Parser.Scan.{balanced_json_objects_finds}
use loop_agent.Parser.Decide.{parse_finds}

abbrev tool_word : Text
tool_word = codes "tool" ++ (quote ∷ [])

abbrev go_word : Text
go_word = codes "go" ++ (quote ∷ [])

abbrev payload_text : Text
payload_text = quote ∷ (tool_word ++ (codes ":" ++ (quote ∷ go_word)))

tool_word-Quoted : Quoted tool_word
tool_word-Quoted = char _ refl refl (char _ refl refl (char _ refl refl (char _ refl refl close)))

go_word-Quoted : Quoted go_word
go_word-Quoted = char _ refl refl (char _ refl refl close)

payload_text-Body : Body payload_text
payload_text-Body = string tool_word-Quoted (plain _ refl (string go_word-Quoted empty))

abbrev before : Text
before = codes "Sure:"

abbrev after : Text
after = codes "Done."

abbrev response : Text
response = codes "```json" ++ (before ++ (object_text payload_text ++ (after ++ codes "``` ")))

abbrev payload : Fields
payload = field "tool" (str "go") end

abbrev loads : Text → Option Value
loads s = if codes_eq s (object_text payload_text) then some (object payload) else none

abbrev repr : Value → String
repr v = "{}"

balanced_json_objects_finds_example :
    balanced_json_objects (before ++ (object_text payload_text ++ after))
    ≡ object_text payload_text ∷ []
balanced_json_objects_finds_example =
    balanced_json_objects_finds before after refl refl payload_text-Body

response-cleaned : cleaned response ≡ before ++ (object_text payload_text ++ after)
unfolding cleaned
response-cleaned = refl

payload_tool : get "tool" payload ≡ some (str "go")
unfolding get
payload_tool = refl

parse_finds_example : parse loads repr response ("go" ∷ []) [] ≡ record {
  thought = thought_of loads repr (get "thought" payload);
  tool = some "go";
  args = end;
}
unfolding get
parse_finds_example =
    parse_finds loads repr response before after {fs = payload} ("go" ∷ []) [] "go" response-cleaned
      refl refl refl payload_text-Body refl payload_tool refl

response_tool : (parse loads repr response ("go" ∷ []) []).tool ≡ some "go"
response_tool = λ i. (parse_finds_example i).tool
