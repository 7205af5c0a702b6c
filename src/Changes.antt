-- ===== src/Changes.antt =====
-- apps/api/app/services/changeset.py: how git's list of changed files is read. Bytes and texts are
-- lists of codes.
pub mod Roundtrip
mod Examples
use loop_agent.Prelude.{
  ℕ, zero, suc, Bool, true, false, Option, none, some, List, [], ◌∷◌, ◌||◌, ltb, nat_eq,
  if◌then◌else◌,
}

abbrev pub Bytes : Type 0
Bytes = List ℕ

onto : ℕ → List Bytes → List Bytes
onto c [] = (c ∷ []) ∷ []
onto c (w ∷ ws) = (c ∷ w) ∷ ws

-- `raw.split(b"\0")`
unfoldable pub split : Bytes → List Bytes
unfolding onto
split [] = [] ∷ []
split (c ∷ s) = let rest = split s in if nat_eq c 0 then [] ∷ rest else onto c rest

-- `[token for token in … if token]`
unfoldable pub nonempty : List Bytes → List Bytes
nonempty [] = []
nonempty ([] ∷ ws) = nonempty ws
nonempty ((c ∷ w) ∷ ws) = (c ∷ w) ∷ nonempty ws

-- `decode("ascii", errors="replace")`
unfoldable pub ascii : Bytes → Bytes
ascii [] = []
ascii (c ∷ s) = (if ltb c 128 then c else 65533) ∷ ascii s

-- `status[:1] in {"R", "C"}`
abbrev pub is_moved : Bytes → Bool
is_moved [] = false
is_moved (c ∷ s) = nat_eq c 82 || nat_eq c 67

-- The status, the path and the previous path.
pub record Change : Type 0 where
  pub status : Bytes
  pub path : Bytes
  pub previous : Option Bytes

abbrev pub cons_to : Change → Option (List Change) → Option (List Change)
cons_to c none = none
cons_to c (some cs) = some (c ∷ cs)

-- The decoding of UTF-8 with replacements is a parameter.
module _ (decode : Bytes → Bytes) where
  abbrev pub plain : Bytes → Bytes → Change
  plain s f = record { status = ascii s; path = decode f; previous = none }

  abbrev pub moved : Bytes → Bytes → Bytes → Change
  moved s f p = record { status = ascii s; path = decode p; previous = some (decode f) }

  -- The loop over the tokens; `none` is its `IndexError`.
  unfoldable pub changes_of : List Bytes → Option (List Change)
  unfolding ascii
  changes_of [] = some []
  changes_of (s ∷ []) = none
  changes_of (s ∷ f ∷ []) = if is_moved (ascii s) then none else some (plain s f ∷ [])
  changes_of (s ∷ f ∷ p ∷ rest) =
      let after_two = changes_of (p ∷ rest) in
      let after_three = changes_of rest in
      if is_moved (ascii s)
      then cons_to (moved s f p) after_three
      else cons_to (plain s f) after_two

  -- `_parse_name_status`
  unfoldable pub parse_name_status : Bytes → Option (List Change)
  unfolding split nonempty changes_of
  parse_name_status raw = changes_of (nonempty (split raw))
