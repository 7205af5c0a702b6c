-- ===== src/Parser/Decide.antt =====
-- What `DecisionParser.parse` makes of a response.
use loop_agent.Prelude.{
  String, ◌≡◌, refl, sym, true, Option, none, some, List, [], ◌∷◌, ◌++◌, not, all, contains, arith,
  ap, ◌∙◌,
}
use loop_agent.Json.{Value, object, str, Fields, get}
use loop_agent.Parser.{
  Text, cleaned, balanced_json_objects, last_object, or_earlier, object_only, extract_json, decide,
  thought_of, args_of, tool_of, decision_of, parse,
}
use loop_agent.Parser.Grammar.{Body, object_text, is_opening}
use loop_agent.Parser.Scan.{balanced_json_objects_finds}

module _ (loads : Text → Option Value) (repr : Value → String) where
  last_one :
      (s : Text) {fs : Fields}
      → loads s ≡ some (object fs)
      → last_object loads repr (s ∷ []) ≡ some (object fs)
  unfolding last_object or_earlier object_only
  last_one s h = rw h refl

  -- The object that the prose wraps.
  extract_json_finds :
      (content before after : Text) {body : Text} {fs : Fields}
      → cleaned content ≡ before ++ (object_text body ++ after)
      → loads (before ++ (object_text body ++ after)) ≡ none
      → all (λ c. not (is_opening c)) before ≡ true
      → all (λ c. not (is_opening c)) after ≡ true
      → Body body
      → loads (object_text body) ≡ some (object fs)
      → extract_json loads repr content ≡ some (object fs)
  unfolding extract_json
  extract_json_finds content before after c n p q m l =
      rw (c, extract_json, n)
        (ap (last_object loads repr)
            (ap balanced_json_objects c ∙ balanced_json_objects_finds before after p q m)
          ∙ last_one _ l)

  -- A decision on an object whose tool is offered.
  decision_of_offered :
      (tools : List String) (fs : Fields) (t : String)
      → get "tool" fs ≡ some (str t)
      → contains tools t ≡ true
      → decision_of loads repr tools (some (object fs)) ≡ record {
        thought = thought_of loads repr (get "thought" fs);
        tool = some t;
        args = args_of loads repr (get "args" fs);
      }
  unfolding decision_of decide
  decision_of_offered tools fs t g h = rw (g, h, decide) refl

  -- A response whose text, once stripped of fences and white space, is no JSON but prose around one
  -- object, the prose without quotes and opening braces, is parsed to that object's decision: its
  -- thought, its tool, if that is one of those offered, and its arguments.
  pub parse_finds :
      (content before after : Text) {body : Text} {fs : Fields} (valid dynamic : List String)
      (t : String)
      → cleaned content ≡ before ++ (object_text body ++ after)
      → loads (before ++ (object_text body ++ after)) ≡ none
      → all (λ c. not (is_opening c)) before ≡ true
      → all (λ c. not (is_opening c)) after ≡ true
      → Body body
      → loads (object_text body) ≡ some (object fs)
      → get "tool" fs ≡ some (str t)
      → contains (valid ++ dynamic) t ≡ true
      → parse loads repr content valid dynamic ≡ record {
        thought = thought_of loads repr (get "thought" fs);
        tool = some t;
        args = args_of loads repr (get "args" fs);
      }
  unfolding parse
  parse_finds content before after {fs = fs} valid dynamic t c n p q m l g h =
      ap (decision_of loads repr (valid ++ dynamic))
        (extract_json_finds content before after c n p q m l)
      ∙ decision_of_offered (valid ++ dynamic) fs t g h

  decide_tool :
      (thought : String) (args : Fields) (o : Option String)
      → (decide loads repr thought args o).tool ≡ o
  unfolding decide
  decide_tool thought args none = refl
  decide_tool thought args (some t) = refl

  tool_of-some :
      (tools : List String) (v : Option Value) (t : String)
      → tool_of loads repr tools v ≡ some t
      → (contains tools t ≡ true) × (v ≡ some (str t))
  tool_of-some tools (some (str s)) t h = grind arith
  tool_of-some tools v t h = grind arith

  decision_of_tool :
      (tools : List String) (v : Option Value) (t : String)
      → (decision_of loads repr tools v).tool ≡ some t
      → (contains tools t ≡ true)
        × ((fs : Fields) × (v ≡ some (object fs)) × (get "tool" fs ≡ some (str t)))
  unfolding decision_of
  decision_of_tool tools (some (object fs)) t h =
      let (a, b) = tool_of-some tools (get "tool" fs) t (sym (decide_tool _ _ _) ∙ h) in
      (a, (fs, refl, b))
  decision_of_tool tools v t h = ground arith

  -- Whatever a response says, a decision that names a tool names one of those offered, and the
  -- response held an object whose `tool` it is.
  pub parse_tool :
      (content : Text) (valid dynamic : List String) (t : String)
      → (parse loads repr content valid dynamic).tool ≡ some t
      → (contains (valid ++ dynamic) t ≡ true)
        × ((fs : Fields) × (extract_json loads repr content ≡ some (object fs))
            × (get "tool" fs ≡ some (str t)))
  unfolding parse
  parse_tool content valid dynamic t h =
      decision_of_tool (valid ++ dynamic) (extract_json loads repr content) t h
