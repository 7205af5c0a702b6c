-- ===== src/Spawn/Examples.antt =====
-- Tests of spawning, and its theorems at a concrete parent.
use loop_agent.Prelude.{◌+◌, ◌≤◌, String, ◌≡◌, refl, true, [], ◌∷◌, ◌&&◌, arith}
use loop_agent.Prelude.Text.{codes}
use loop_agent.Json.{ℤ, pos, int, str, Fields, end, field, Conversion, rejected}
use loop_agent.Hosts.{permits, matches, ends_with}
use loop_agent.Capability.{net_shell, fs_read, exec, set_of}
use loop_agent.Spawn.{
  DelegationPolicy, allocate, Parent, Child, Request, spawned, blocked_budget, spawn,
}
use loop_agent.Spawn.Attenuation.{spawn_bounds, spawn_hosts}
use loop_agent.Spawn.Lineage.{as_parent, born, grown, spawns_attenuate}

abbrev int_of_text : String → Conversion ℤ
int_of_text s = rejected

abbrev policy : DelegationPolicy
policy = record { minimum_budget = 1000; default_steps = 20; max_steps = 60 }

abbrev parent : Parent
parent = record {
  depth = 0;
  token_budget = 20000;
  tokens_used = 5000;
  capabilities = set_of (fs_read ∷ net_shell ∷ []);
  egress_hosts = codes "example.com" ∷ [];
}

abbrev request : Request
request = record {
  goal_length = 12;
  capabilities = set_of (exec ∷ net_shell ∷ []);
  egress_hosts = codes "api.example.com" ∷ codes "evil.org" ∷ [];
}

abbrev greedy : Fields
greedy = field "token_budget" (int (pos 999999)) (field "max_steps" (str "many") end)

abbrev child : Child
child = record {
  depth = 1;
  token_budget = 14000;
  max_steps = 20;
  capabilities = λ c. set_of (exec ∷ net_shell ∷ []) c && set_of (fs_read ∷ net_shell ∷ []) c;
  egress_hosts = codes "api.example.com" ∷ [];
}

child_spawns : spawn int_of_text policy 2 parent greedy request 1000 ≡ spawned child
unfolding spawn allocate permits matches ends_with
child_spawns = refl

poor :
    spawn int_of_text policy 2 (record parent { tokens_used = 19500 }) greedy request 0
    ≡ blocked_budget
unfolding spawn allocate
poor = refl

spawn_bounds_example :
    (child.depth ≡ parent.depth + 1)
    × (child.depth ≤ 2)
    × (4 ≤ 12)
    × (1 ≤ child.token_budget)
    × (parent.tokens_used + 1000 + child.token_budget ≤ parent.token_budget)
    × (1 ≤ child.max_steps)
    × (child.max_steps ≤ 60)
spawn_bounds_example =
    spawn_bounds int_of_text policy 2 parent greedy request 1000 child_spawns (omega arith)
      (omega arith)

spawn_hosts_example : permits parent.egress_hosts (codes "v1.api.example.com") ≡ true
unfolding permits matches ends_with
spawn_hosts_example =
    spawn_hosts int_of_text policy 2 parent greedy request 1000 child_spawns
      (codes "v1.api.example.com") refl

-- The child spawns in its turn, a grandchild that asks for what its parent lacks.
abbrev grandchild : Child
grandchild = record {
  depth = 2;
  token_budget = 11000;
  max_steps = 20;
  capabilities = λ c. set_of (fs_read ∷ net_shell ∷ []) c && child.capabilities c;
  egress_hosts = codes "v1.api.example.com" ∷ [];
}

abbrev further : Request
further = record {
  goal_length = 5;
  capabilities = set_of (fs_read ∷ net_shell ∷ []);
  egress_hosts = codes "example.com" ∷ codes "v1.api.example.com" ∷ [];
}

grandchild_spawns :
    spawn int_of_text policy 2 (as_parent child 3000) greedy further 0 ≡ spawned grandchild
unfolding spawn allocate permits matches ends_with as_parent
grandchild_spawns = refl

spawns_attenuate_example :
    (parent.depth + 1 ≤ grandchild.depth)
    × (grandchild.depth ≤ 2)
    × (1 ≤ grandchild.token_budget)
    × (parent.tokens_used + grandchild.token_budget ≤ parent.token_budget)
    × (grandchild.capabilities exec ≡ (grandchild.capabilities exec && parent.capabilities exec))
    × (permits grandchild.egress_hosts (codes "evil.org") ≡ (
        permits grandchild.egress_hosts (codes "evil.org")
        && permits parent.egress_hosts (codes "evil.org")))
spawns_attenuate_example =
    spawns_attenuate int_of_text policy 2 parent (omega arith) (omega arith) exec (codes "evil.org")
      (grown child grandchild 3000 greedy further 0 (born child greedy request 1000 child_spawns)
        grandchild_spawns)
