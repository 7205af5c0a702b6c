-- ===== src/Guard/Signature.antt =====
-- `_normalise`, `_command_signature` and `_action_signature`: the text by which two actions count
-- as the same, and whether the action only explores.
use loop_agent.Prelude.{
  ℕ, String, Bool, true, false, Option, none, some, List, [], ◌∷◌, ◌++◌, ◌==◌, ◌&&◌, any, contains,
  if◌then◌else◌,
}
use loop_agent.Prelude.Text.{is_space, codes, codes_eq}
use loop_agent.Prelude.Codes.{starts_with, contains_text, drop_start, drop_end, take}
use loop_agent.Prelude.Decimal.{decimal}
use loop_agent.Json.{Value, object, Fields, get, truthy, str_of}

abbrev pub Text : Type 0
Text = List ℕ

-- What the module uses of Python's library: `str.lower`, `str` of a value that is no text,
-- `shlex.split` (`none` is its `ValueError`), `Path(p).name`, and the hexadecimal SHA-256 digest of
-- the UTF-8 encoding.
pub record Library : Type 0 where
  pub lower : Text → Text
  pub repr : Value → String
  pub shlex : Text → Option (List Text)
  pub file_name : Text → Text
  pub digest : Text → Text

abbrev pub member : List Text → Text → Bool
member s x = any (λ y. codes_eq y x) s

-- `re.sub(r"\s+", " ", text)`; the flag says that the last character was white space.
collapse : Bool → Text → Text
collapse spaced [] = []
collapse spaced (c ∷ s) =
    let first = 32 ∷ collapse true s in
    let more = collapse true s in
    let word = c ∷ collapse false s in if is_space c then (if spaced then more else first) else word

-- `_normalise(text, limit)`
unfoldable pub normalise : Library → Text → ℕ → Text
unfolding collapse drop_start drop_end take
normalise lib text limit =
    take limit (lib.lower (drop_end is_space (drop_start is_space (collapse false text))))

-- `str(args.get(key, default))`
unfoldable pub text_of : Library → Option Value → String → Text
unfolding str_of
text_of lib none default = codes default
text_of lib (some v) default = codes (str_of lib.repr v)

abbrev pub mutation_tools : List String
mutation_tools = "write_file" ∷ "edit_file" ∷ []

-- `f"{name}:{revision}:"`
abbrev pub headed : String → ℕ → Text → Text
headed name revision rest =
    codes name ++ (codes ":" ++ (codes (decimal revision) ++ (codes ":" ++ rest)))

abbrev pub inspect_signature : ℕ → Text → Text
inspect_signature revision path = headed "inspect" revision path

-- `command.split()`; the word so far is kept reversed at its front.
words : Text → Text → List Text
words [] [] = []
words (c ∷ word) [] = (c ∷ word) ∷ []
words word (c ∷ s) =
    let longer = words (word ++ c ∷ []) s in
    let ended = word ∷ words [] s in
    let between = words [] s in
    if is_space c then (if codes_eq word [] then between else ended) else longer

-- `[part for part in parts if not part.startswith("-")]`
positional : List Text → List Text
unfolding starts_with
positional [] = []
positional (p ∷ ps) =
    let rest = positional ps in if starts_with p (codes "-") then rest else p ∷ rest

abbrev is_one_of : List String → Text → Bool
is_one_of names x = any (λ n. codes_eq (codes n) x) names

first_of : List Text → Text
first_of [] = []
first_of (p ∷ ps) = p

-- `values[-1]`, of a list that is not empty
last_of : List Text → Text
last_of [] = []
last_of (p ∷ []) = p
last_of (p ∷ q ∷ ps) = last_of (q ∷ ps)

abbrev is_some_left : List Text → Bool
is_some_left [] = false
is_some_left (p ∷ ps) = true

abbrev is_two_left : List Text → Bool
is_two_left (p ∷ q ∷ ps) = true
is_two_left _ = false

-- `" ".join(values)`
joined : List Text → Text
joined [] = []
joined (p ∷ []) = p
joined (p ∷ q ∷ ps) = p ++ (codes " " ++ joined (q ∷ ps))

-- Once the command is split.
split_signature : Library → Text → ℕ → List Text → Text × Bool
unfolding positional first_of last_of joined
split_signature lib command revision [] =
    (codes "command:" ++ (codes (decimal revision) ++ codes ":(empty)"), false)
split_signature lib command revision (part ∷ parts) =
    let executable = lib.lower (lib.file_name part) in
    let values = positional parts in
    if is_one_of ("cat" ∷ "head" ∷ "tail" ∷ "wc" ∷ "sed" ∷ []) executable && is_some_left values
    then (inspect_signature revision (normalise lib (last_of values) 160), true)
    else if is_one_of ("grep" ∷ "rg" ∷ []) executable
    then (
      headed "search" revision (
          normalise lib (first_of values) 160
          ++ (codes ":"
              ++ normalise lib (if is_two_left values then last_of values else codes ".") 160)),
      true,
    )
    else if is_one_of ("find" ∷ "ls" ∷ []) executable
    then (
      headed "explore" revision (executable ++ (codes ":" ++ normalise lib (joined values) 160)),
      true,
    )
    else (headed "command" revision (normalise lib command 240), false)

or_words : Option (List Text) → Text → List Text
unfolding words
or_words (some parts) command = parts
or_words none command = words [] command

unfoldable pub command_signature : Library → Text → ℕ → Text × Bool
unfolding split_signature or_words
command_signature lib command revision =
    split_signature lib command revision (or_words (lib.shlex command) command)

-- The first of the arguments that is there and true, or all of them.
first_true : List String → Fields → Value
unfolding get truthy
first_true [] args = object args
first_true (k ∷ ks) args =
    let rest = first_true ks args in
    elim (get k args) [ none ↦ rest | some v ↦ if truthy v then v else rest ]

-- `args.get("content", args.get("new", ""))`
payload : Library → Fields → Text
unfolding get text_of
payload lib args = elim (get "content" args) [
  | some v ↦ text_of lib (some v) ""
  | none ↦ text_of lib (get "new" args) ""
]

unfoldable pub action_signature : Library → String → Fields → ℕ → Text × Bool
unfolding text_of payload first_true command_signature
action_signature lib tool args revision =
    let value_text : Value → Text = λ v. normalise lib (codes (str_of lib.repr v)) 240 in
    if contains mutation_tools tool
    then (
      codes "mutate:"
          ++ (normalise lib (text_of lib (get "path" args) "") 160
              ++ (codes ":" ++ take 12 (lib.digest (payload lib args)))),
      false,
    )
    else if tool == "read_file"
    then (inspect_signature revision (normalise lib (text_of lib (get "path" args) "") 160), true)
    else if tool == "run_command"
    then command_signature lib (text_of lib (get "command" args) "") revision
    else if starts_with (codes tool) (codes "browser_")
    then (
      headed "browser" revision (
          codes tool
          ++ (codes ":"
              ++ value_text
                  (first_true ("url" ∷ "query" ∷ "ref" ∷ "selector" ∷ "text" ∷ []) args))),
      any (λ b. contains_text (codes tool) (codes b)) ("navigate" ∷ "search" ∷ "snapshot" ∷ []),
    )
    else if starts_with (codes tool) (codes "sibyl_")
    then (
      headed "research" revision
          (codes tool ++ (codes ":" ++ value_text (first_true ("query" ∷ "url" ∷ []) args))),
      true,
    )
    else if contains ("read_inbox" ∷ "list_events" ∷ "see_image" ∷ []) tool
    then (inspect_signature revision (codes tool ++ (codes ":" ++ value_text (object args))), true)
    else (headed tool revision (value_text (object args)), false)
