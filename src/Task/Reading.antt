-- ===== src/Task/Reading.antt =====
-- How an answer is read: as an approval, and into the draft of a contract.
use Prim.Native.String.{◌++◌ as append}
use loop_agent.Prelude.{
  ℕ, zero, suc, ◌-◌, String, Bool, Option, none, some, List, [], ◌∷◌, ◌++◌, ◌==◌, contains, length,
  if◌then◌else◌,
}
use loop_agent.Prelude.Text.{strip, is_space}
use Prim.Native.Char.{code}
use loop_agent.Json.{
  Value, str, array, object, Items, nil, cons, Fields, end, field, get, put, elements, str_of,
}

-- What the functions use of Python's library: SHA-256 and `json.dumps` of the ledger, `str.lower`,
-- and `str` of a value that is no text.
pub record Library : Type 0 where
  pub sha256 : String → String
  pub dumps : Value → String
  pub lower : String → String
  pub repr : Value → String

abbrev pub approval_words : List String
approval_words =
    "yes" ∷ "y" ∷ "approve" ∷ "approved" ∷ "ok" ∷ "okay" ∷ "allow" ∷ "sure" ∷ "proceed" ∷ "是" ∷ "好"
    ∷ "可以" ∷ "批准" ∷ "同意" ∷ "允许" ∷ []

-- The characters up to the first white space.
until_space : String → String
until_space Prim.Native.String.[] = ""
until_space (Prim.Native.String.◌∷◌ c s) =
    let rest = Prim.Native.String.◌∷◌ c (until_space s) in if is_space (code c) then "" else rest

-- `text.split()[0]`
first_word : String → Option String
unfolding until_space strip
first_word text = let word = until_space (strip text) in if word == "" then none else some word

-- `_is_approval`; `none` is the `IndexError`.
unfoldable pub is_approval : Library → String → Option Bool
unfolding first_word strip
is_approval lib answer =
    if strip answer == ""
    then some (contains approval_words "")
    else elim (first_word (lib.lower (strip answer))) [
      | none ↦ none
      | some word ↦ some (contains approval_words word)
    ]

-- The values of an iteration.
characters : String → List Value
characters Prim.Native.String.[] = []
characters (Prim.Native.String.◌∷◌ c s) = str (Prim.Native.String.◌∷◌ c "") ∷ characters s

keys : Fields → List Value
keys end = []
keys (field k v fs) = str k ∷ keys fs

iterated : Option Value → Option (List Value)
unfolding characters keys
iterated none = some []
iterated (some (array items)) = some (elements items)
iterated (some (str s)) = some (characters s)
iterated (some (object fs)) = some (keys fs)
iterated (some _) = none

-- `[str(item) for item in … if str(item).strip()]`
spoken : Library → List Value → List String
unfolding str_of strip
spoken lib [] = []
spoken lib (v ∷ vs) =
    let rest = spoken lib vs in
    let text = str_of lib.repr v in if strip text == "" then rest else text ∷ rest

-- `xs[-12:]`
drop : ℕ → List String → List String
drop zero xs = xs
drop (suc n) [] = []
drop (suc n) (x ∷ xs) = drop n xs

items_of : List String → Items
items_of [] = nil
items_of (x ∷ xs) = cons (str x) (items_of xs)

-- The draft of the contract, with the answer among its clarifications.
unfoldable pub clarified : Library → Fields → String → Option Fields
unfolding iterated spoken drop items_of get put strip
clarified lib draft answer = elim (iterated (get "clarifications" draft)) [
  | none ↦ none
  | some vs ↦
      let all = spoken lib vs ++ strip answer ∷ [] in
      some (put "clarifications" (array (items_of (drop (length all - 12) all))) draft)
]
