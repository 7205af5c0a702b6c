-- ===== src/Parser.antt =====
-- apps/api/app/services/loop/decisions.py: a model's response is parsed into a decision. Texts are
-- lists of character codes.
pub mod Grammar
pub mod Scan
pub mod Decide
mod Examples
use loop_agent.Prelude.{
  ℕ, ◌+◌, ◌-◌, zero, suc, String, Bool, true, false, Option, none, some, List, [], ◌∷◌, ◌++◌, ◌&&◌,
  ltb, nat_eq, if◌then◌else◌, contains,
}
use loop_agent.Prelude.Text.{is_space, codes, strip}
use loop_agent.Prelude.Codes.{starts_with, drop_start, drop_end, take}
use loop_agent.Json.{Value, object, str, Fields, end, get, str_of}

abbrev pub Text : Type 0
Text = List ℕ

abbrev pub quote : ℕ
quote = 34

abbrev pub backslash : ℕ
backslash = 92

abbrev pub open_brace : ℕ
open_brace = 123

abbrev pub close_brace : ℕ
close_brace = 125

-- `text[start:stop]`
unfoldable pub drop : ℕ → Text → Text
drop zero cs = cs
drop (suc n) [] = []
drop (suc n) (c ∷ cs) = drop n cs

abbrev pub slice : Text → ℕ → ℕ → Text
slice text start stop = take (stop - start) (drop start text)

-- The variables of the loop; `start` is `none` where it is -1.
pub record Scanner : Type 0 where
  pub depth : ℕ
  pub start : Option ℕ
  pub in_string : Bool
  pub escaped : Bool

-- A character inside a string.
quoted : Scanner → ℕ → Scanner
quoted st c =
    if st.escaped
    then record st { escaped = false }
    else if nat_eq c backslash
    then record st { escaped = true }
    else if nat_eq c quote
    then record st { in_string = false }
    else st

-- An opening brace, and a closing one at a positive depth.
opened : ℕ → Scanner → Scanner
opened index st = record st {
  start = if nat_eq st.depth 0 then some index else st.start;
  depth = suc st.depth;
}

-- `depth -= 1`, at a positive depth
abbrev less_one : ℕ → ℕ
less_one zero = zero
less_one (suc n) = n

complete : Text → ℕ → Option ℕ → Scanner → List Text × Scanner
unfolding take drop
complete text index none st = ([], st)
complete text index (some start) st =
    (slice text start (index + 1) ∷ [], record st { start = none })

closed : Text → ℕ → Scanner → List Text × Scanner
unfolding complete
closed text index st =
    let st' : Scanner = record st { depth = less_one st.depth } in
    if nat_eq st'.depth 0 then complete text index st.start st' else ([], st')

-- The body of the loop: the spans that it appends, and the variables after it.
unfoldable pub step : Text → ℕ → Scanner → ℕ → List Text × Scanner
unfolding quoted opened closed
step text index st c =
    if st.in_string
    then ([], quoted st c)
    else if nat_eq c quote
    then ([], record st { in_string = true })
    else if nat_eq c open_brace
    then ([], opened index st)
    else if nat_eq c close_brace && ltb 0 st.depth
    then closed text index st
    else ([], st)

unfoldable pub spans_from : Text → ℕ → Scanner → Text → List Text
unfolding step
spans_from text index st [] = []
spans_from text index st (c ∷ cs) =
    let (found, st') = step text index st c in found ++ spans_from text (index + 1) st' cs

abbrev pub outside : Scanner
outside = record { depth = 0; start = none; in_string = false; escaped = false }

unfoldable pub balanced_json_objects : Text → List Text
unfolding spans_from
balanced_json_objects text = spans_from text 0 outside text

-- `re.sub(r"```(?:json)?", "", text)`: a match of so many characters more is left out.
unfence : ℕ → Text → Text
unfolding starts_with
unfence skip [] = []
unfence (suc skip) (c ∷ cs) = unfence skip cs
unfence zero (c ∷ cs) =
    let whole = unfence 6 cs in
    let fence = unfence 2 cs in
    let rest = unfence 0 cs in
    if starts_with (c ∷ cs) (codes "```json")
    then whole
    else if starts_with (c ∷ cs) (codes "```")
    then fence
    else c ∷ rest

unfoldable pub cleaned : Text → Text
unfolding unfence drop_start drop_end
cleaned text = drop_end is_space (drop_start is_space (unfence 0 text))

-- The last span that parses to an object: the spans are tried from the last to the first.
or_earlier : Option Value → Option Value → Option Value
or_earlier (some v) first = some v
or_earlier none first = first

object_only : Option Value → Option Value
object_only (some (object fs)) = some (object fs)
object_only _ = none

pub record Decision : Type 0 where
  pub thought : String
  pub tool : Option String
  pub args : Fields

-- `json.loads`, where `none` is its `JSONDecodeError`, and `str` of a value that is no text.
module _ (loads : Text → Option Value) (repr : Value → String) where
  last_object : List Text → Option Value
  unfolding or_earlier object_only
  last_object [] = none
  last_object (s ∷ ss) = or_earlier (last_object ss) (object_only (loads s))

  -- `none` is Python's `None`, which `json.loads` of `null` gives as well.
  unfoldable pub extract_json : Text → Option Value
  unfolding cleaned last_object balanced_json_objects
  extract_json text = elim (loads (cleaned text)) [
    | some v ↦ some v
    | none ↦ last_object (balanced_json_objects (cleaned text))
  ]

  unfoldable pub thought_of : Option Value → String
  unfolding str_of strip
  thought_of none = strip ""
  thought_of (some v) = strip (str_of repr v)

  abbrev pub args_of : Option Value → Fields
  args_of (some (object fs)) = fs
  args_of _ = end

  -- The tool, if it is a text among the tools.
  abbrev tool_of : List String → Option Value → Option String
  tool_of tools (some (str t)) = if contains tools t then some t else none
  tool_of tools _ = none

  decide : String → Fields → Option String → Decision
  decide thought args none = record { thought = thought; tool = none; args = end }
  decide thought args (some t) = record { thought = thought; tool = some t; args = args }

  unfoldable pub decision_of : List String → Option Value → Decision
  unfolding decide thought_of get
  decision_of tools (some (object payload)) =
      decide (thought_of (get "thought" payload)) (args_of (get "args" payload))
        (tool_of tools (get "tool" payload))
  decision_of tools _ = record { thought = ""; tool = none; args = end }

  unfoldable pub parse : Text → List String → List String → Decision
  unfolding extract_json decision_of
  parse content valid_tools dynamic_tools =
      decision_of (valid_tools ++ dynamic_tools) (extract_json content)
