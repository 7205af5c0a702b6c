-- ===== src/Contract/Accepted.antt =====
-- What is known of a contract that one verdict accepts.
use loop_agent.Capability.{CapabilitySet}
use loop_agent.Prelude.{
  ℕ, ◌≡◌, ◌≢◌, refl, String, Bool, true, false, not, none, some, List, [], ◌∷◌, ◌&&◌, ◌||◌, ◌==◌,
  ◌⊎◌, inl, inr, arith, all, is_some, if◌then◌else◌,
}
use text.Mathlib.TextEquality.{eq_iff}
use loop_agent.Checks.{is_empty}
use loop_agent.Contract.{Discovery, Proposal, Critique, Draft, Library}
use loop_agent.Contract.Effective.{has_complete_test_gate}
use loop_agent.Contract.Issues.{deterministic_issues}
use loop_agent.Contract.Critic.{
  Result, critique_from_result, adjudication_reason, previews_cover_tests, is_advice,
  question_is_moot, adjudication_text,
}
use loop_agent.Contract.Verdict.{
  Request, Compiled, compiled, Loop, hash_contract, final_critique, judged, joined_issues,
  concluded, effective, draft_from_proposal,
}
use loop_agent.Contract.Compile.{verify_contract_hash}
use loop_agent.Contract.Found.{unique-nil, take-nil, stripped-nil}
use loop_agent.Contract.Spoken.{deterministic_issues-Spoken}
use loop_agent.Contract.Startable.{IsStartable, deterministic_issues-IsStartable}

-- A test command of the contract names every criterion, and the sources of the tests were read.
abbrev pub IsGated : Library → Discovery → Proposal → Type 0
IsGated lib d p = (has_complete_test_gate lib p p.checks ≡ true) × (previews_cover_tests d ≡ true)

-- A contract with this hash: the hash is that of its draft, the draft says that it was accepted,
-- nothing that is computed speaks against it, and either the critic has no objection left or a
-- complete gate of tests stands behind it.
pub record IsLocked (lib : Library) (q : Request) (x : Compiled) (h : String) : Type 0 where
  pub hashed : verify_contract_hash lib x.draft h ≡ not (h == "")
  pub accepted : x.draft.critique.accepted ≡ true
  pub startable : IsStartable lib x.draft.proposal q.granted
  pub supported : (x.draft.critique.issues ≡ []) ⊎ IsGated lib q.discovery x.draft.proposal

is_empty-true : (xs : List String) → is_empty xs ≡ true → xs ≡ []
is_empty-true [] h = refl
is_empty-true (x ∷ xs) h = cc

five_tests :
    (a b c d e : Bool) (text : String)
    → is_some (
        if a
        then none
        else if not b
        then none
        else if not c
        then none
        else if not d || not e
        then none
        else some text)
      ≡ true
    → (a ≡ false) × (d ≡ true) × (e ≡ true)
five_tests a b c d e text h = ground arith

or_not : (a : Bool) (xs : List String) → (a || not (is_empty xs)) ≡ false → xs ≡ []
or_not a [] h = refl
or_not true (x ∷ xs) h = cc
or_not false (x ∷ xs) h = cc

adjudicated :
    (lib : Library) (p : Proposal) (d : Discovery) (c : Critique) (computed : List String)
    → is_some (adjudication_reason lib p d c computed) ≡ true
    → (computed ≡ []) × IsGated lib d p
unfolding adjudication_reason
adjudicated lib p d c computed h =
    let (quiet, gated, read) =
      five_tests (c.accepted || not (is_empty computed)) (all (is_advice lib p d) c.issues)
        (question_is_moot lib c) (has_complete_test_gate lib p p.checks) (previews_cover_tests d)
        adjudication_text h in
    (or_not c.accepted computed quiet, (gated, read))

no_issue :
    (lib : Library) (p : Proposal) (d : Discovery) (granted : CapabilitySet) (critic : List String)
    → joined_issues critic (deterministic_issues lib p d granted) ≡ []
    → deterministic_issues lib p d granted ≡ []
unfolding joined_issues
no_issue lib p d granted critic h =
    let computed = deterministic_issues lib p d granted in
    stripped-nil critic computed (deterministic_issues-Spoken lib p d granted)
      (unique-nil _ (take-nil 11 _ h))

pub none-ne-some : {A : Type 0} {a : A} → none ≢ some a
none-ne-some h = cc

pub compiled-injective : {x y : Compiled} → compiled x ≡ compiled y → x ≡ y
compiled-injective h = cc

if-some :
    {A : Type 0} (b : Bool) (a : A) {x : A}
    → (if b then some a else none) ≡ some x
    → (b ≡ true) × (a ≡ x)
if-some true a h = (refl, cc)
if-some false a h = cc

and_same : (a b : Bool) → b ≡ true → (a && b) ≡ a
and_same true b h = h
and_same false b h = refl

or-cases : (a b : Bool) → (a || b) ≡ true → (a ≡ true) ⊎ (b ≡ true)
or-cases true b h = inl refl
or-cases false b h = inr h

and-right : (a b : Bool) → (a && b) ≡ true → b ≡ true
and-right true b h = h
and-right false b h = cc

verify-hash :
    (lib : Library) (d : Draft) (h : String)
    → hash_contract lib d ≡ h
    → verify_contract_hash lib d h ≡ not (h == "")
unfolding verify_contract_hash
verify-hash lib d h e = rw e (and_same (not (h == "")) (h == h) ((eq_iff h h).1 refl))

module _ (lib : Library) (q : Request) where
  -- A verdict that accepts finds nothing, and says on what it stands.
  accepted-supported :
      (l : Loop) (r : Result)
      → (final_critique lib q l r).accepted ≡ true
      → (deterministic_issues lib (effective lib q l) q.discovery q.granted ≡ [])
        × (((final_critique lib q l r).issues ≡ []) ⊎ IsGated lib q.discovery (effective lib q l))
  unfolding final_critique judged
  accepted-supported l r h =
      let c = critique_from_result lib r in
      let p = effective lib q l in
      let computed = deterministic_issues lib p q.discovery q.granted in
      let reason = adjudication_reason lib p q.discovery c computed in
      let issues = joined_issues c.issues computed in
      elim (or-cases (c.accepted && is_empty issues) (is_some reason) h) [
        | inl quiet ↦
            let none_left = is_empty-true issues (and-right c.accepted (is_empty issues) quiet) in
            (no_issue lib p q.discovery q.granted c.issues none_left, inl none_left)
        | inr settled ↦
            let (found, gated) = adjudicated lib p q.discovery c computed settled in
            (found, inr gated)
      ]

  pub final-IsLocked :
      (l : Loop) (r : Result) (n spent : ℕ) {h : String}
      → let c = final_critique lib q l r in
        let x = concluded lib q (record l { spent = spent }) c (some r) n in
        x.contract_hash ≡ some h → IsLocked lib q x h
  unfolding concluded draft_from_proposal effective
  final-IsLocked l r n spent {h} e =
      let c = final_critique lib q l r in
      let x = concluded lib q (record l { spent = spent }) c (some r) n in
      let (accepted, hash) = if-some c.accepted (hash_contract lib x.draft) e in
      let (found, supported) = accepted-supported l r accepted in
      record {
        hashed = verify-hash lib x.draft h hash;
        accepted = accepted;
        startable =
            deterministic_issues-IsStartable lib x.draft.proposal q.discovery q.granted found;
        supported = supported;
      }
