-- ===== src/Guard/Exploration.antt =====
-- The cap on exploration: what it bounds, and what passes it.
use loop_agent.Prelude.{
  suc, ◌+◌, ◌≤◌, ◌<◌, String, ◌≡◌, refl, Bool, true, false, Option, none, some, List, [], ◌∷◌,
  length, contains, ltb, arith,
}
use loop_agent.Prelude.Text.{codes_eq}
use loop_agent.Json.{Fields, get}
use loop_agent.Guard.{
  ToolStatus, ok, error, blocked, Limits, Guard, explores, repeat_limit, preflight, preflight_on,
  reinspect, permit_diagnostic_reinspection, counted, advanced, judged, diagnosed, observe, add,
  discard,
}
use loop_agent.Guard.Signature.{
  Text, Library, member, mutation_tools, action_signature, inspect_signature, text_of, normalise,
}

length-add : (x : Text) (s : List Text) → length (add x s) ≤ suc (length s)
length-add x s = ground arith

length-discard : (x : Text) (s : List Text) → length (discard x s) ≤ length s
unfolding discard
length-discard x [] = omega arith
length-discard x (y ∷ s) = let ih = length-discard x s in ground arith

pub codes_eq_refl : (s : Text) → codes_eq s s ≡ true
codes_eq_refl [] = refl
codes_eq_refl (c ∷ s) = ground (arith, codes_eq_refl s)

module _ (lib : Library) (limits : Limits) where
  length-reinspect :
      (paths : List Text) (g : Guard)
      → length (reinspect lib limits paths g).exploration ≤ length g.exploration
  unfolding reinspect
  length-reinspect [] g = omega arith
  length-reinspect (p ∷ paths) g =
      let ih = length-reinspect paths g in
      let cut =
        length-discard (inspect_signature g.revision p)
          (reinspect lib limits paths g).exploration in
      ground arith

  length-permit :
      (path : Option Text) (g : Guard)
      → length (permit_diagnostic_reinspection lib limits path g).exploration ≤ length g.exploration
  unfolding permit_diagnostic_reinspection
  length-permit none g = length-reinspect g.unchecked_mutated_paths g
  length-permit (some []) g = length-reinspect g.unchecked_mutated_paths g
  length-permit (some (c ∷ path)) g = length-reinspect (normalise lib (c ∷ path) 160 ∷ []) g

  length-diagnosed :
      (tool : String) (args : Fields) (status : ToolStatus) (g : Guard)
      → length (diagnosed lib limits tool args status g).exploration ≤ length g.exploration
  unfolding diagnosed
  length-diagnosed tool args ok g = ground arith
  length-diagnosed tool args error g =
      let a = length-permit none g in
      let b = length-permit (some (text_of lib (get "path" args) "")) g in ground arith
  length-diagnosed tool args blocked g = omega arith

  length-judged :
      (tool : String) (args : Fields) (o : String) (status : ToolStatus) (force changed seen : Bool)
      (g : Guard)
      → length (judged lib limits tool args o status force changed seen g).1.exploration
        ≤ length g.exploration
  unfolding judged advanced
  length-judged tool args o ok force changed seen g = ground arith
  length-judged tool args o error force changed seen g = ground arith
  length-judged tool args o blocked force changed seen g = omega arith

  -- The signature of an action is explored at most once, and an action that passes is explored only
  -- below the cap.
  length-counted :
      (g : Guard) (tool : String) (signature : Text) (exploratory : Bool)
      → length g.exploration ≤ limits.exploration_branch_cap
      → preflight_on lib limits g tool signature exploratory ≡ none
      → length (counted lib limits signature exploratory g).exploration
        ≤ limits.exploration_branch_cap
  unfolding preflight_on counted
  length-counted g tool s true h p = ground arith
  length-counted g tool s false h p = h

  -- An action that `preflight` lets pass, whatever comes of it, leaves the explored branches within
  -- the cap if they were within it before.
  pub length-observe :
      (g : Guard) (tool : String) (args : Fields) (observation : String) (status : ToolStatus)
      (force changed : Bool)
      → length g.exploration ≤ limits.exploration_branch_cap
      → preflight lib limits g tool args ≡ none
      → length (observe lib limits g tool args observation status force changed).1.exploration
        ≤ limits.exploration_branch_cap
  unfolding preflight observe
  length-observe g tool args o status force changed h p =
      let (s, e) = action_signature lib tool args g.revision in
      let seen = ltb 0 (g.action_counts s) in
      let c = counted lib limits s e g in
      let a = length-counted g tool s e h p in
      let b = length-judged tool args o status force changed seen c in
      let d =
        length-diagnosed tool args status
          (judged lib limits tool args o status force changed seen c).1 in
      omega arith

  retried :
      (g : Guard) (tool : String) (s : Text) (e : Bool)
      → contains mutation_tools tool ≡ false
      → e ≡ true
      → g.action_counts s ≡ 0
      → 1 < repeat_limit lib limits tool s
      → member g.exploration s ≡ false
      → limits.exploration_branch_cap ≤ length g.exploration
      → (preflight_on lib limits g tool s e ≡ some (explores limits.exploration_branch_cap))
        × (preflight_on lib limits
              (record (counted lib limits s e g) { no_progress = g.no_progress + 1 })
              tool
              s
              e
            ≡ none)
  unfolding preflight_on counted
  retried g tool s e w x c r m f = let same = codes_eq_refl s in (ground arith, ground arith)

  -- A branch that the cap refused passes when it is tried again: the refused action is counted
  -- among the explored ones. (Where the repeat limit is above one, a tool that does not write, and
  -- an action not seen before.)
  pub preflight-observe_blocked :
      (g : Guard) (tool : String) (args : Fields) (observation : String)
      → contains mutation_tools tool ≡ false
      → (action_signature lib tool args g.revision).1 ≡ true
      → g.action_counts (action_signature lib tool args g.revision).0 ≡ 0
      → 1 < repeat_limit lib limits tool (action_signature lib tool args g.revision).0
      → member g.exploration (action_signature lib tool args g.revision).0 ≡ false
      → limits.exploration_branch_cap ≤ length g.exploration
      → (preflight lib limits g tool args ≡ some (explores limits.exploration_branch_cap))
        × (preflight lib limits
              (observe lib limits g tool args observation blocked false false).1
              tool
              args
            ≡ none)
  unfolding preflight preflight_on observe counted judged diagnosed
  preflight-observe_blocked g tool args o w e c r m f =
      retried g tool (action_signature lib tool args g.revision).0
        (action_signature lib tool args g.revision).1 w e c r m f
