-- ===== src/Parser/Scan.antt =====
-- `_balanced_json_objects` finds the object in a response that wraps one in prose.
use mathlib.Core.List.{append_assoc, append-nil}
use loop_agent.Prelude.{
  ℕ, zero, suc, ◌+◌, ◌-◌, ◌≡◌, refl, sym, ap, ◌∙◌, Bool, true, false, some, [], ◌∷◌, ◌++◌, not, all,
  nat_eq, ltb, length, length-append, arith,
}
use loop_agent.Prelude.Codes.{take}
use loop_agent.Parser.{
  Text, quote, open_brace, close_brace, drop, slice, Scanner, outside, step, spans_from, quoted,
  opened, closed, complete, balanced_json_objects,
}
use loop_agent.Parser.Grammar.{
  Quoted, close, escape, char, Body, empty, plain, string, braces, object_text, is_opening,
}

take-append : (m t : Text) → take (length m) (m ++ t) ≡ m
unfolding take
take-append [] t = refl
take-append (c ∷ m) t = ap (λ s. c ∷ s) (take-append m t)

drop-append : (p t : Text) → drop (length p) (p ++ t) ≡ t
unfolding drop
drop-append [] t = refl
drop-append (c ∷ p) t = drop-append p t

slice-append : (p m t : Text) → slice (p ++ (m ++ t)) (length p) (length p + length m) ≡ m
slice-append p m t =
    let size : length p + length m - length p ≡ length m = omega arith in
    rw (size, drop-append p (m ++ t)) (take-append m t)

module _ (text : Text) where
  -- In an object that began at a position, so many braces deep, outside and inside a string.
  abbrev inside : ℕ → ℕ → Bool → Scanner
  inside d s b = record { depth = suc d; start = some s; in_string = b; escaped = false }

  moved :
      (st : Scanner) (rest : Text) {i j : ℕ}
      → i ≡ j
      → spans_from text i st rest ≡ spans_from text j st rest
  moved st rest e = ap (λ k. spans_from text k st rest) e

  over-Quoted :
      (d s i : ℕ) {q : Text}
      → Quoted q
      → (rest : Text)
      → spans_from text i (inside d s true) (q ++ rest)
        ≡ spans_from text (i + length q) (inside d s false) rest
  unfolding spans_from step quoted opened closed
  over-Quoted d s i close rest = refl
  over-Quoted d s i (escape c q) rest =
      over-Quoted d s (i + 1 + 1) q rest ∙ moved (inside d s false) rest (omega arith)
  over-Quoted d s i (char c p r q) rest =
      rw (p, r) (over-Quoted d s (i + 1) q rest ∙ moved (inside d s false) rest (omega arith))

  not_zero : (d : ℕ) → nat_eq (suc d) 0 ≡ false
  not_zero d = ground arith

  deep : (d : ℕ) → ltb 0 (suc d) ≡ true
  deep d = ground arith

  close_inner :
      (d s i : ℕ) (rest : Text)
      → spans_from text i (inside (suc d) s false) (close_brace ∷ rest)
        ≡ spans_from text (i + 1) (inside d s false) rest
  unfolding spans_from step closed
  close_inner d s i rest = rw (deep (suc d), not_zero d, closed) refl

  over_body :
      (d s i : ℕ) {b : Text}
      → Body b
      → (rest : Text)
      → spans_from text i (inside d s false) (b ++ rest)
        ≡ spans_from text (i + length b) (inside d s false) rest
  unfolding spans_from step quoted opened closed
  over_body d s i empty rest = moved (inside d s false) rest (omega arith)
  over_body d s i (plain c p b) rest =
      let q : nat_eq c quote ≡ false = ground arith in
      let o : nat_eq c open_brace ≡ false = ground arith in
      let e : nat_eq c close_brace ≡ false = ground arith in
      rw (q, o, e) (over_body d s (i + 1) b rest ∙ moved (inside d s false) rest (omega arith))
  over_body d s i (string {q} {s = t} m b) rest = rw (append_assoc q t rest) (
      over-Quoted d s (i + 1) m (t ++ rest)
      ∙ over_body d s (i + 1 + length q) b rest
      ∙ moved (inside d s false) rest (omega (arith, length-append q t)))
  over_body d s i (braces {a} {s = t} m b) rest =
      rw (append_assoc a (close_brace ∷ t) rest, not_zero d, opened)
        (over_body (suc d) s (i + 1) m (close_brace ∷ (t ++ rest))
          ∙ close_inner d s (i + 1 + length a) (t ++ rest)
          ∙ over_body d s (i + 1 + length a + 1) b rest
          ∙ moved (inside d s false) rest (omega (arith, length-append a (close_brace ∷ t))))

  -- At depth 0 even a closing brace is passed over.
  skipped :
      (i c : ℕ)
      → nat_eq c quote ≡ false
      → nat_eq c open_brace ≡ false
      → step text i outside c ≡ ([], outside)
  unfolding step
  skipped i c a b = ground arith

  over_prose :
      (i : ℕ) (noise rest : Text)
      → all (λ c. not (is_opening c)) noise ≡ true
      → spans_from text i outside (noise ++ rest) ≡ spans_from text (i + length noise) outside rest
  unfolding spans_from step quoted opened closed
  over_prose i [] rest p = moved outside rest (omega arith)
  over_prose i (c ∷ noise) rest p =
      let ih : all (λ k. not (is_opening k)) noise ≡ true = ground arith in
      let a : nat_eq c quote ≡ false = ground arith in
      let b : nat_eq c open_brace ≡ false = ground arith in
      rw (skipped i c a b) (over_prose (i + 1) noise rest ih ∙ moved outside rest (omega arith))

  none_after :
      (i : ℕ) (noise : Text)
      → all (λ c. not (is_opening c)) noise ≡ true
      → spans_from text i outside noise ≡ []
  unfolding spans_from
  none_after i noise p =
      ap (spans_from text i outside) (sym (append-nil noise)) ∙ over_prose i noise [] p

  -- An object that begins at depth 0 is one span, from its position on.
  over_object :
      (i : ℕ) {b : Text}
      → Body b
      → (rest : Text)
      → spans_from text i outside (object_text b ++ rest)
        ≡ slice text i (i + length (object_text b))
          ∷ spans_from text (i + length (object_text b)) outside rest
  unfolding spans_from step quoted opened closed complete
  over_object i {b} m rest = rw (append_assoc b (close_brace ∷ []) rest) (
      over_body zero i (i + 1) m (close_brace ∷ rest)
      ∙ ap (λ k. slice text i k ∷ spans_from text k outside rest)
          (omega (arith, length-append b (close_brace ∷ []))))

-- A response of prose around one text in braces has that text as its only span: the prose has no
-- quotes and no opening brace, and between the braces strings and inner braces are complete.
pub balanced_json_objects_finds :
    (before after : Text) {body : Text}
    → all (λ c. not (is_opening c)) before ≡ true
    → all (λ c. not (is_opening c)) after ≡ true
    → Body body
    → balanced_json_objects (before ++ (object_text body ++ after)) ≡ object_text body ∷ []
unfolding balanced_json_objects spans_from
balanced_json_objects_finds before after {body} p q m =
    let text = before ++ (object_text body ++ after) in
    over_prose text 0 before (object_text body ++ after) p
    ∙ moved text outside (object_text body ++ after) (omega arith)
    ∙ over_object text (length before) m after
    ∙ ap (λ s. s ∷ spans_from text (length before + length (object_text body)) outside after)
        (slice-append before (object_text body) after)
    ∙ ap (λ l. object_text body ∷ l)
        (none_after text (length before + length (object_text body)) after q)
