-- ===== src/Spawn/Lineage.antt =====
-- The descendants of a task, over any number of spawns of
-- apps/api/app/services/agent_react.py: `_handle_spawn` of a child that runs and spawns itself.
use loop_agent.Prelude.{ℕ, ◌+◌, ◌≤◌, String, ◌≡◌, refl, sym, Bool, true, false, arith, ◌&&◌}
use loop_agent.Json.{ℤ, Fields, Conversion}
use loop_agent.Hosts.{Host, permits}
use loop_agent.Capability.{Capability}
use loop_agent.Spawn.{DelegationPolicy, Parent, Child, Request, spawned, spawn}
use loop_agent.Spawn.Attenuation.{spawn_bounds, spawn_capabilities, spawn_hosts}

-- A child's own task, when it has used so many tokens.
unfoldable pub as_parent : Child → ℕ → Parent
as_parent c used = record {
  depth = c.depth;
  token_budget = c.token_budget;
  tokens_used = used;
  capabilities = c.capabilities;
  egress_hosts = c.egress_hosts;
}

-- A Boolean that implies another is its meet with it.
meet_of : (a b : Bool) → (a ≡ true → b ≡ true) → a ≡ (a && b)
meet_of true b h = sym (h refl)
meet_of false b h = refl

module _ (int_of_text : String → Conversion ℤ) (p : DelegationPolicy) (limit : ℕ) (t : Parent) where
  -- The tasks that descend from one: its children, and those of its descendants, however many
  -- tokens these have used.
  pub data Lineage : Child → Type 0 where
    born :
        (c : Child) (args : Fields) (r : Request) (plan_tokens : ℕ)
        → spawn int_of_text p limit t args r plan_tokens ≡ spawned c
        → Lineage c
    grown :
        (c d : Child) (used : ℕ) (args : Fields) (r : Request) (plan_tokens : ℕ)
        → Lineage c
        → spawn int_of_text p limit (as_parent c used) args r plan_tokens ≡ spawned d
        → Lineage d

  Lineage-bounds :
      {c : Child}
      → 1 ≤ p.minimum_budget
      → 1 ≤ p.max_steps
      → Lineage c
      → (t.depth + 1 ≤ c.depth)
        × (c.depth ≤ limit)
        × (1 ≤ c.token_budget)
        × (t.tokens_used + c.token_budget ≤ t.token_budget)
  unfolding as_parent
  Lineage-bounds lo hi (born c args r plan_tokens made) =
      let b = spawn_bounds int_of_text p limit t args r plan_tokens made lo hi in omega arith
  Lineage-bounds lo hi (grown c d used args r plan_tokens l made) =
      let b = spawn_bounds int_of_text p limit (as_parent c used) args r plan_tokens made lo hi in
      let ih = Lineage-bounds lo hi l in omega arith

  Lineage-capable :
      (k : Capability) {c : Child} → Lineage c → c.capabilities k ≡ true → t.capabilities k ≡ true
  unfolding as_parent
  Lineage-capable k (born c args r plan_tokens made) h =
      let e = spawn_capabilities int_of_text p limit t args r plan_tokens made k in ground arith
  Lineage-capable k (grown c d used args r plan_tokens l made) h =
      let e = spawn_capabilities int_of_text p limit (as_parent c used) args r plan_tokens made k in
      Lineage-capable k l (ground arith)

  Lineage-permits :
      (x : Host) {c : Child}
      → Lineage c
      → permits c.egress_hosts x ≡ true
      → permits t.egress_hosts x ≡ true
  unfolding as_parent
  Lineage-permits x (born c args r plan_tokens made) h =
      spawn_hosts int_of_text p limit t args r plan_tokens made x h
  Lineage-permits x (grown c d used args r plan_tokens l made) h =
      Lineage-permits x l
        (spawn_hosts int_of_text p limit (as_parent c used) args r plan_tokens made x h)

  -- However many spawns lie between a task and its descendant, whatever each of them asked for and
  -- however many tokens each had used: the descendant is deeper and within the limit on depth, its
  -- budget is at least one token and within what the ancestor had left, it has no capability that the
  -- ancestor lacks, and its host policy permits no host that the ancestor's does not.
  pub spawns_attenuate :
      {c : Child}
      → 1 ≤ p.minimum_budget
      → 1 ≤ p.max_steps
      → (k : Capability) (x : Host) → Lineage c
      → (t.depth + 1 ≤ c.depth)
        × (c.depth ≤ limit)
        × (1 ≤ c.token_budget)
        × (t.tokens_used + c.token_budget ≤ t.token_budget)
        × (c.capabilities k ≡ (c.capabilities k && t.capabilities k))
        × (permits c.egress_hosts x ≡ (permits c.egress_hosts x && permits t.egress_hosts x))
  spawns_attenuate lo hi k x l =
      let (deep, limited, some_left, budget) = Lineage-bounds lo hi l in
      (
        deep,
        limited,
        some_left,
        budget,
        meet_of _ _ (Lineage-capable k l),
        meet_of _ _ (Lineage-permits x l),
      )
