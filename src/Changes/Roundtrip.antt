-- ===== src/Changes/Roundtrip.antt =====
-- What git prints is read back.
use loop_agent.Prelude.{
  arith, ◌⊎◌, ℕ, ◌<◌, ◌≡◌, ◌≢◌, refl, ap, ◌∙◌, true, false, none, some, List, [], ◌∷◌, ◌++◌, All,
  nat_eq, map, lt→ltb,
}
use loop_agent.Changes.{
  Bytes, split, nonempty, ascii, is_moved, Change, cons_to, plain, moved, changes_of,
  parse_name_status,
}

-- A changed file: its status letter with a score of similarity, and a path, for a file that was moved
-- or copied after the path that it had.
pub data Entry : Type 0 where
  changed : ℕ → Bytes → Bytes → Entry
  renamed : ℕ → Bytes → Bytes → Bytes → Entry

-- `git diff --name-status -z`
unfoldable pub printed : List Entry → Bytes
printed [] = []
printed (changed c score path ∷ es) = (c ∷ score) ++ 0 ∷ (path ++ 0 ∷ printed es)
printed (renamed c score old path ∷ es) = (c ∷ score) ++ 0 ∷ (old ++ 0 ∷ (path ++ 0 ∷ printed es))

abbrev IsByte : ℕ → Type 0
IsByte c = nat_eq c 0 ≡ false

-- Neither empty nor with a null byte.
abbrev pub IsToken : Bytes → Type 0
IsToken w = (w ≢ []) × All (λ c. nat_eq c 0 ≡ false) w

abbrev pub IsAscii : Bytes → Type 0
IsAscii w = All (λ c. c < 128) w

-- A status in ASCII, which begins with `R` or `C` where the entry has two paths, and only there.
abbrev pub IsEntry : Entry → Type 0
IsEntry (changed c score path) =
    IsToken (c ∷ score) × IsAscii (c ∷ score) × (c ≢ 82) × (c ≢ 67) × IsToken path
IsEntry (renamed c score old path) =
    IsToken (c ∷ score) × IsAscii (c ∷ score) × ((c ≡ 82) ⊎ (c ≡ 67)) × IsToken old × IsToken path

stays : (c : ℕ) (score : Bytes) → c ≢ 82 → c ≢ 67 → is_moved (c ∷ score) ≡ false
stays c score m n = ground arith

moves : (c : ℕ) (score : Bytes) → (c ≡ 82) ⊎ (c ≡ 67) → is_moved (c ∷ score) ≡ true
moves c score m = ground arith

split-token : (w s : Bytes) → All IsByte w → split (w ++ 0 ∷ s) ≡ w ∷ split s
unfolding split
split-token [] s h = refl
split-token (c ∷ w) s h = let ih = split-token w s h.1 in rw (h.0, ih) refl

nonempty-token : (w : Bytes) (ws : List Bytes) → w ≢ [] → nonempty (w ∷ ws) ≡ w ∷ nonempty ws
unfolding nonempty
nonempty-token [] ws h = absurd (h refl)
nonempty-token (c ∷ w) ws h = refl

-- One token of the output.
token : (w s : Bytes) → IsToken w → nonempty (split (w ++ 0 ∷ s)) ≡ w ∷ nonempty (split s)
token w s (n, h) = ap nonempty (split-token w s h) ∙ nonempty-token w (split s) n

ascii-same : (w : Bytes) → IsAscii w → ascii w ≡ w
unfolding ascii
ascii-same [] h = refl
ascii-same (c ∷ w) h = rw (lt→ltb c 128 h.0, ascii-same w h.1) refl

module _ (decode : Bytes → Bytes) where
  -- What the program keeps of an entry.
  abbrev pub kept : Entry → Change
  kept (changed c score path) = record { status = c ∷ score; path = decode path; previous = none }
  kept (renamed c score old path) = record {
    status = c ∷ score;
    path = decode path;
    previous = some (decode old);
  }

  plain-step :
      (s f : Bytes) (rest : List Bytes)
      → is_moved (ascii s) ≡ false
      → changes_of decode (s ∷ f ∷ rest) ≡ cons_to (plain decode s f) (changes_of decode rest)
  unfolding changes_of
  plain-step s f [] m = rw m refl
  plain-step s f (p ∷ rest) m = rw m refl

  moved-step :
      (s f p : Bytes) (rest : List Bytes)
      → is_moved (ascii s) ≡ true
      → changes_of decode (s ∷ f ∷ p ∷ rest) ≡ cons_to (moved decode s f p) (changes_of decode rest)
  unfolding changes_of
  moved-step s f p rest m = rw m refl

  entries :
      (es : List Entry)
      → All IsEntry es
      → changes_of decode (nonempty (split (printed es))) ≡ some (map kept es)
  unfolding printed
  entries [] h = unfold split nonempty changes_of in refl
  entries (changed c score path ∷ es) ((t, a, m, n, p), h) =
      let s : Bytes = c ∷ score in
      let same = ascii-same s a in
      ap (changes_of decode)
        (token s (path ++ 0 ∷ printed es) t ∙ ap (λ ws. s ∷ ws) (token path (printed es) p))
      ∙ plain-step s path (nonempty (split (printed es))) (ap is_moved same ∙ stays c score m n)
      ∙ ap (cons_to (plain decode s path)) (entries es h)
      ∙ ap (λ x. some (record { status = x; path = decode path; previous = none } ∷ map kept es))
          same
  entries (renamed c score old path ∷ es) ((t, a, m, o, p), h) =
      let s : Bytes = c ∷ score in
      let same = ascii-same s a in
      ap (changes_of decode) (
        token s (old ++ 0 ∷ (path ++ 0 ∷ printed es)) t
        ∙ ap (λ ws. s ∷ ws)
            (token old (path ++ 0 ∷ printed es) o
              ∙ ap (λ ws. old ∷ ws) (token path (printed es) p)))
      ∙ moved-step s old path (nonempty (split (printed es))) (ap is_moved same ∙ moves c score m)
      ∙ ap (cons_to (moved decode s old path)) (entries es h)
      ∙ ap
          (λ x.
            some (
              record { status = x; path = decode path; previous = some (decode old) }
              ∷ map kept es))
          same

  -- The list that git prints of any files is read back as it stands, with each path decoded, where
  -- every status is one of git's and no status or path is empty or holds a null byte.
  pub parse_name_status-printed :
      (es : List Entry)
      → All IsEntry es
      → parse_name_status decode (printed es) ≡ some (map kept es)
  unfolding parse_name_status
  parse_name_status-printed es h = entries es h
