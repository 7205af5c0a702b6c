-- ===== src/Changes/Examples.antt =====
-- A modified file and a renamed one, as git prints them.
use loop_agent.Prelude.{◌≡◌, refl, List, [], ◌∷◌, ◌++◌, some, none, map, inl, arith}
use loop_agent.Prelude.Text.{codes}
use loop_agent.Changes.{parse_name_status}
use loop_agent.Changes.Roundtrip.{Entry, changed, renamed, printed, kept, parse_name_status-printed}

abbrev two_files : List Entry
two_files = changed 77 [] (codes "a.py") ∷ renamed 82 (codes "100") (codes "b") (codes "c") ∷ []

-- A rename whose second path is missing.
cut_short : parse_name_status (λ s. s) (codes "R100" ++ 0 ∷ codes "b") ≡ none
unfolding parse_name_status
cut_short = refl

parse_name_status-printed_example :
    parse_name_status (λ s. s) (printed two_files) ≡ some (map (kept (λ s. s)) two_files)
parse_name_status-printed_example =
    parse_name_status-printed (λ s. s) two_files
      (
        (
          (λ e. cc, (refl, tt)),
          (omega arith, tt),
          (λ e. omega (arith, e)),
          (λ e. omega (arith, e)),
          (λ e. cc, (refl, (refl, (refl, (refl, tt))))),
        ),
        (
          (
            (λ e. cc, (refl, (refl, (refl, (refl, tt))))),
            (omega arith, (omega arith, (omega arith, (omega arith, tt)))),
            inl refl,
            (λ e. cc, (refl, tt)),
            (λ e. cc, (refl, tt)),
          ),
          tt,
        ),
      )
