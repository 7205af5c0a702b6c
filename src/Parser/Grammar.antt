-- ===== src/Parser/Grammar.antt =====
-- The texts between braces that the scan takes for one object: strings, in which a backslash takes
-- the next character with it, further pairs of braces, and any other characters. Every JSON object
-- is one of these.
use loop_agent.Prelude.{ℕ, ◌≡◌, Bool, false, [], ◌∷◌, ◌++◌, ◌||◌, nat_eq}
use loop_agent.Parser.{Text, quote, backslash, open_brace, close_brace}

-- The rest of a string, its closing quote included.
pub data Quoted : Text → Type 0 where
  close : Quoted (quote ∷ [])
  escape : (c : ℕ) {s : Text} → Quoted s → Quoted (backslash ∷ c ∷ s)
  char :
      (c : ℕ) {s : Text}
      → nat_eq c quote ≡ false
      → nat_eq c backslash ≡ false
      → Quoted s
      → Quoted (c ∷ s)

-- A character that begins neither a string nor a pair of braces, nor ends one.
abbrev pub is_mark : ℕ → Bool
is_mark c = nat_eq c quote || nat_eq c open_brace || nat_eq c close_brace

pub data Body : Text → Type 0 where
  empty : Body []
  plain : (c : ℕ) {s : Text} → is_mark c ≡ false → Body s → Body (c ∷ s)
  string : {q s : Text} → Quoted q → Body s → Body (quote ∷ (q ++ s))
  braces : {a s : Text} → Body a → Body s → Body (open_brace ∷ (a ++ (close_brace ∷ s)))

abbrev pub object_text : Text → Text
object_text body = open_brace ∷ (body ++ (close_brace ∷ []))

-- A character of the prose around an object.
abbrev pub is_opening : ℕ → Bool
is_opening c = nat_eq c quote || nat_eq c open_brace
