-- ===== src/Spawn.antt =====
-- apps/api/app/services/loop/delegation.py and the part of `_handle_spawn`
-- (apps/api/app/services/agent_react.py) that decides what a child task may spend and do.
pub mod Bounds
pub mod Attenuation
pub mod Lineage
mod Examples
use loop_agent.Prelude.{
  ℕ, ◌+◌, ◌-◌, String, Bool, true, false, Option, none, some, List, [], ◌∷◌, ◌&&◌, ◌||◌, not, any,
  min, max, ltb, leb, if◌then◌else◌,
}
use loop_agent.Json.{
  ℤ, pos, negsuc, Float, Value, boolean, int, float, str, Fields, get, Conversion, converted,
  rejected, overflow, int_of_float,
}
use loop_agent.Hosts.{Host, permits}
use loop_agent.Capability.{Capability, CapabilitySet, all_capabilities, net_shell, net_browser}

-- `_as_int` of a present or absent argument; `none` is an `OverflowError`, which it does not catch.
-- `int(text)` is a parameter.
caught : Conversion ℤ → ℤ → Option ℤ
caught (converted n) default = some n
caught rejected default = some default
caught overflow default = none

unfoldable pub as_int : (String → Conversion ℤ) → Option Value → ℤ → Option ℤ
unfolding caught int_of_float
as_int int_of_text (some (boolean true)) default = some (pos 1)
as_int int_of_text (some (boolean false)) default = some (pos 0)
as_int int_of_text (some (int n)) default = some n
as_int int_of_text (some (float f)) default = caught (int_of_float f) default
as_int int_of_text (some (str s)) default = caught (int_of_text s) default
as_int int_of_text v default = some default

pub record DelegationAllocation : Type 0 where
  pub token_budget : ℕ
  pub max_steps : ℕ

pub record DelegationPolicy : Type 0 where
  pub minimum_budget : ℕ
  pub default_steps : ℕ
  pub max_steps : ℕ

pub data Allocation : Type 0 where
  allocated : DelegationAllocation → Allocation
  refused raised : Allocation

-- `max(1, min(n, cap))`
unfoldable pub at_most : ℤ → ℕ → ℕ
at_most (pos n) cap = max 1 (min n cap)
at_most (negsuc n) cap = 1

both : Option ℤ → Option ℤ → DelegationPolicy → ℕ → Allocation
unfolding at_most
both (some budget) (some steps) p remaining =
    allocated
      (record { token_budget = at_most budget remaining; max_steps = at_most steps p.max_steps })
both _ _ p remaining = raised

unfoldable pub allocate : (String → Conversion ℤ) → DelegationPolicy → Fields → ℕ → Allocation
unfolding both as_int get
allocate int_of_text p args remaining =
    if ltb remaining p.minimum_budget
    then refused
    else both (as_int int_of_text (get "token_budget" args) (pos remaining))
        (as_int int_of_text (get "max_steps" args) (pos p.default_steps)) p remaining

-- The parent task, as far as the spawn reads it.
pub record Parent : Type 0 where
  pub depth : ℕ
  pub token_budget : ℕ
  pub tokens_used : ℕ
  pub capabilities : CapabilitySet
  pub egress_hosts : List Host

-- What the child is created with.
pub record Child : Type 0 where
  pub depth : ℕ
  pub token_budget : ℕ
  pub max_steps : ℕ
  pub capabilities : CapabilitySet
  pub egress_hosts : List Host

pub data SpawnResult : Type 0 where
  spawned : Child → SpawnResult
  blocked_depth goal_missing blocked_budget blocked_egress spawn_raised : SpawnResult

-- `[host for host in requested if any(host == allowed or … for allowed in parent_hosts)]`
inherit : List Host → List Host → List Host
inherit parent [] = []
inherit parent (h ∷ hs) =
    let rest = inherit parent hs in if permits parent h then h ∷ rest else rest

abbrev pub no_hosts : List Host → Bool
no_hosts [] = true
no_hosts (h ∷ hs) = false

-- The request, once read: the length of the goal, and the capabilities and normalized hosts that
-- the arguments ask for (none of them where reading raised a `ValueError`).
pub record Request : Type 0 where
  pub goal_length : ℕ
  pub capabilities : CapabilitySet
  pub egress_hosts : List Host

-- The child that an allocation allows: its capabilities are those asked for that the parent has.
unfoldable pub child_of : DelegationAllocation → Parent → Request → Child
unfolding inherit
child_of a t r = record {
  depth = t.depth + 1;
  token_budget = a.token_budget;
  max_steps = a.max_steps;
  capabilities = λ c. r.capabilities c && t.capabilities c;
  egress_hosts = inherit t.egress_hosts r.egress_hosts;
}

-- `child_capabilities & {NET_SHELL, NET_BROWSER} and not child_hosts`
abbrev pub is_stranded : Child → Bool
is_stranded c = (c.capabilities net_shell || c.capabilities net_browser) && no_hosts c.egress_hosts

-- From the allocation on.
grant : Allocation → Parent → Request → SpawnResult
unfolding child_of
grant refused t r = blocked_budget
grant raised t r = spawn_raised
grant (allocated a) t r =
    let c = child_of a t r in if is_stranded c then blocked_egress else spawned c

-- `_handle_spawn` up to the creation of the child. `limit` is the maximal depth, `plan_tokens`
-- what planning the step cost.
unfoldable pub spawn :
    (String → Conversion ℤ) → DelegationPolicy → ℕ → Parent → Fields → Request → ℕ → SpawnResult
unfolding grant
spawn int_of_text p limit t args r plan_tokens =
    if leb limit t.depth
    then blocked_depth
    else if ltb r.goal_length 4
    then goal_missing
    else grant (allocate int_of_text p args (t.token_budget - t.tokens_used - plan_tokens)) t r
