-- ===== src/Policy/Verdicts.antt =====
-- What a command is like that the policy does not deny.
use loop_agent.Prelude.{
  String, Bool, true, false, Option, none, some, List, [], ◌∷◌, ◌≡◌, ◌≢◌, refl, subst, ◌==◌,
  Bool-cases, inl, inr, All, if◌then◌else◌,
}
use loop_agent.Prelude.Text.{strip}
use loop_agent.Policy.{
  Library, Verdict, denied, first_match, judge, evaluate_command, deny_scan_text,
}
use loop_agent.Policy.Tables.{deny}

first_match-none :
    (lib : Library) (table : List (String × String)) (text : String)
    → first_match lib table text ≡ none
    → All (λ entry. lib.search entry.0 text ≡ false) table
unfolding first_match
first_match-none lib [] text h = tt
first_match-none lib ((pattern, reason) ∷ rest) text h =
    elim (Bool-cases (lib.search pattern text)) [
      | inl y ↦ absurd (found (subst (λ b. kept b ≡ none) y h))
      | inr n ↦ (n, first_match-none lib rest text (subst (λ b. kept b ≡ none) n h))
    ]
  where
    kept : Bool → Option String
    kept b = if b then some reason else first_match lib rest text

    found : some reason ≢ none
    found e = cc

judge-permitted :
    (lib : Library) (cmd : String) (o : Option String) → (judge lib cmd o).0 ≢ denied → o ≡ none
unfolding judge
judge-permitted lib cmd none h = refl
judge-permitted lib cmd (some reason) h = absurd (h refl)

-- A command that is not denied is not blank, and no pattern of the table is found in it.
pub evaluate_command-permitted :
    (lib : Library) (command : String)
    → (evaluate_command lib command).0 ≢ denied
    → ((strip command == "") ≡ false)
      × All (λ entry. lib.search entry.0 (deny_scan_text lib (strip command)) ≡ false) deny
unfolding evaluate_command
evaluate_command-permitted lib command h =
    let cmd = strip command in
    let o = first_match lib deny (deny_scan_text lib cmd) in
    let (full, open_case) = split (cmd == "") (judge lib cmd o) h in
    (full, first_match-none lib deny (deny_scan_text lib cmd) (judge-permitted lib cmd o open_case))
  where
    split :
        (b : Bool) (v : Verdict × String)
        → (if b then (denied, "empty command") else v).0 ≢ denied
        → (b ≡ false) × (v.0 ≢ denied)
    split true v n = absurd (n refl)
    split false v n = (refl, n)
