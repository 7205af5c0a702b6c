-- ===== src/Guard/Repeats.antt =====
-- Repeated actions are refused.
use loop_agent.Prelude.{
  ◌+◌, ◌≤◌, String, ◌≡◌, refl, sym, ap, ◌∙◌, Bool, false, some, List, [], ◌∷◌, length, contains,
  arith, ◌==◌,
}
use loop_agent.Json.{Fields}
use loop_agent.Guard.{
  ToolStatus, ok, error, blocked, Limits, Guard, repeats, repeat_limit, preflight, preflight_on,
  counted, judged, diagnosed, observe,
}
use loop_agent.Guard.Signature.{Text, Library, mutation_tools, action_signature}
use loop_agent.Guard.Exploration.{codes_eq_refl}

module _ (lib : Library) (limits : Limits) where
  -- One action, tried so often, each time with some outcome that left the workspace as it was.
  unfoldable pub tried : Guard → String → Fields → List (String × ToolStatus × Bool) → Guard
  tried g tool args [] = g
  tried g tool args ((observation, status, force) ∷ more) =
      tried (observe lib limits g tool args observation status force false).1 tool args more

  -- An outcome of an action that neither writes nor runs a command leaves the revision, and counts
  -- the action.
  observe-counts :
      (g : Guard) (tool : String) (args : Fields) (o : String) (status : ToolStatus) (force : Bool)
      → contains mutation_tools tool ≡ false
      → (tool == "run_command") ≡ false
      → ((observe lib limits g tool args o status force false).1.revision ≡ g.revision)
        × ((observe lib limits g tool args o status force false).1.action_counts
              (action_signature lib tool args g.revision).0
            ≡ g.action_counts (action_signature lib tool args g.revision).0 + 1)
  unfolding observe counted judged diagnosed
  observe-counts g tool args o ok force w r =
      let same = codes_eq_refl (action_signature lib tool args g.revision).0 in
      (ground arith, ground arith)
  observe-counts g tool args o error force w r =
      let same = codes_eq_refl (action_signature lib tool args g.revision).0 in
      (ground arith, ground arith)
  observe-counts g tool args o blocked force w r =
      let same = codes_eq_refl (action_signature lib tool args g.revision).0 in
      (ground arith, ground arith)

  tried-counts :
      (g : Guard) (tool : String) (args : Fields) (more : List (String × ToolStatus × Bool))
      → contains mutation_tools tool ≡ false
      → (tool == "run_command") ≡ false
      → ((tried g tool args more).revision ≡ g.revision)
        × ((tried g tool args more).action_counts (action_signature lib tool args g.revision).0
            ≡ g.action_counts (action_signature lib tool args g.revision).0 + length more)
  unfolding tried
  tried-counts g tool args [] w r = (refl, omega arith)
  tried-counts g tool args ((o, status, force) ∷ more) w r =
      let g' = (observe lib limits g tool args o status force false).1 in
      let (a, b) = observe-counts g tool args o status force w r in
      let (c, d) = tried-counts g' tool args more w r in
      let same_key : (action_signature lib tool args g'.revision).0
          ≡ (action_signature lib tool args g.revision).0 =
        ap (λ n. (action_signature lib tool args n).0) a in
      let d' : (tried g' tool args more).action_counts (action_signature lib tool args g.revision).0
          ≡ g'.action_counts (action_signature lib tool args g.revision).0 + length more =
        ap (tried g' tool args more).action_counts (sym same_key)
        ∙ d
        ∙ ap (λ k. g'.action_counts k + length more) same_key in
      (c ∙ a, omega arith)

  on_counted :
      (g : Guard) (tool : String) (s : Text) (e : Bool)
      → contains mutation_tools tool ≡ false
      → repeat_limit lib limits tool s ≤ g.action_counts s
      → preflight_on lib limits g tool s e ≡ some (repeats s (g.action_counts s))
  unfolding preflight_on
  on_counted g tool s e w l = ground arith

  -- Once an action that neither writes nor runs a command was tried as often as its limit, with
  -- whatever outcomes that left the workspace as it was, the guard refuses it as repeated, and says
  -- how often it was counted.
  pub preflight-tried :
      (g : Guard) (tool : String) (args : Fields) (more : List (String × ToolStatus × Bool))
      → contains mutation_tools tool ≡ false
      → (tool == "run_command") ≡ false
      → repeat_limit lib limits tool (action_signature lib tool args g.revision).0 ≤ length more
      → preflight lib limits (tried g tool args more) tool args
        ≡ some (
            repeats
              (action_signature lib tool args g.revision).0
              (g.action_counts (action_signature lib tool args g.revision).0 + length more))
  unfolding preflight preflight_on
  preflight-tried g tool args more w r l =
      let (a, b) = tried-counts g tool args more w r in
      let at =
        ap
          (λ n.
            preflight_on lib limits (tried g tool args more) tool
              (action_signature lib tool args n).0 (action_signature lib tool args n).1)
          a in
      at
      ∙ on_counted (tried g tool args more) tool _ _ w (omega arith)
      ∙ ap (λ n. some (repeats (action_signature lib tool args g.revision).0 n)) b
