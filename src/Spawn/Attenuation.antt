-- ===== src/Spawn/Attenuation.antt =====
-- What a child may do: never more than its parent.
use loop_agent.Prelude.{
  ℕ, ◌+◌, ◌-◌, ◌≤◌, String, ◌≡◌, ◌⊎◌, inl, inr, refl, sym, ap, subst, true, false, List, [], ◌∷◌,
  arith, ◌&&◌, Bool-cases, Any,
}
use loop_agent.Json.{ℤ, Fields, Conversion}
use loop_agent.Hosts.{Host, permits}
use loop_agent.Hosts.Suffix.{Under, Under-trans}
use loop_agent.Hosts.Policy.{permits_iff}
use loop_agent.Capability.{Capability}
use loop_agent.Spawn.{
  DelegationPolicy, DelegationAllocation, Allocation, allocated, refused, raised, allocate, Parent,
  Child, Request, spawned, grant, spawn, inherit, child_of, is_stranded, blocked_egress,
}
use loop_agent.Spawn.Bounds.{allocate_bounds}

Any-Under : (hs : List Host) (h x : Host) → Under x h → Any (Under h) hs → Any (Under x) hs
Any-Under [] h x u a = a
Any-Under (k ∷ hs) h x u (inl a) = inl (Under-trans x h k u a)
Any-Under (k ∷ hs) h x u (inr b) = inr (Any-Under hs h x u b)

inherit_within :
    (parent requested : List Host) (x : Host)
    → Any (Under x) (inherit parent requested)
    → Any (Under x) parent
unfolding inherit
inherit_within parent [] x a = absurd a
inherit_within parent (h ∷ hs) x a = elim (Bool-cases (permits parent h)) [
  | inl p ↦ elim (taken p) [
    | inl u ↦ Any-Under parent h x u ((permits_iff parent h).0 p)
    | inr b ↦ inherit_within parent hs x b
  ]
  | inr n ↦ inherit_within parent hs x (rw n at a)
]
  where
    taken : permits parent h ≡ true → Under x h ⊎ Any (Under x) (inherit parent hs)
    taken p = rw p at a

-- Where a spawn succeeds, the guards before it passed.
spawn_parts :
    (int_of_text : String → Conversion ℤ) (p : DelegationPolicy) (limit : ℕ) (t : Parent)
    (args : Fields) (r : Request) (plan_tokens : ℕ) {c : Child}
    → spawn int_of_text p limit t args r plan_tokens ≡ spawned c
    → (t.depth + 1 ≤ limit)
      × (4 ≤ r.goal_length)
      × (grant (allocate int_of_text p args (t.token_budget - t.tokens_used - plan_tokens)) t r
          ≡ spawned c)
unfolding spawn
spawn_parts int_of_text p limit t args r plan_tokens h = ground arith

grant_parts :
    (o : Allocation) (t : Parent) (r : Request) {c : Child}
    → grant o t r ≡ spawned c
    → (a : DelegationAllocation) × (o ≡ allocated a)
      × (child_of a t r ≡ c)
      × (is_stranded (child_of a t r) ≡ false)
unfolding grant
grant_parts refused t r h = absurd (cc)
grant_parts raised t r h = absurd (cc)
grant_parts (allocated a) t r {c} h = elim (Bool-cases (is_stranded (child_of a t r))) [
  | inl e ↦ absurd (stranded (rw e at h))
  | inr e ↦ (a, refl, same (rw e at h), e)
]
  where
    stranded : blocked_egress ≡ spawned c → ⊥
    stranded e = cc

    same : spawned (child_of a t r) ≡ spawned c → child_of a t r ≡ c
    same e = cc

module _ (int_of_text : String → Conversion ℤ) (p : DelegationPolicy) (limit : ℕ) (t : Parent)
    (args : Fields) (r : Request) (plan_tokens : ℕ) {c : Child}
    (made : spawn int_of_text p limit t args r plan_tokens ≡ spawned c) where
  -- The allocation behind the child, and the guards that it passed.
  behind :
      (a : DelegationAllocation) × (allocate int_of_text p args
          (t.token_budget - t.tokens_used - plan_tokens)
        ≡ allocated a)
      × (child_of a t r ≡ c)
      × (is_stranded c ≡ false)
      × (t.depth + 1 ≤ limit)
      × (4 ≤ r.goal_length)
  behind =
      let left = t.token_budget - t.tokens_used - plan_tokens in
      let (deep, goal, g) = spawn_parts int_of_text p limit t args r plan_tokens made in
      let (a, o, e, s) = grant_parts (allocate int_of_text p args left) t r g in
      (a, o, e, subst (λ y. is_stranded y ≡ false) e s, deep, goal)

  -- A spawned child is one level deeper and within the limit on depth; it was given a goal of at
  -- least four characters; it may spend at least one token and no more than its parent has left
  -- after planning, in at least one step and at most the maximum of steps.
  pub spawn_bounds :
      1 ≤ p.minimum_budget
      → 1 ≤ p.max_steps
      → (c.depth ≡ t.depth + 1)
        × (c.depth ≤ limit)
        × (4 ≤ r.goal_length)
        × (1 ≤ c.token_budget)
        × (t.tokens_used + plan_tokens + c.token_budget ≤ t.token_budget)
        × (1 ≤ c.max_steps)
        × (c.max_steps ≤ p.max_steps)
  unfolding child_of
  spawn_bounds lo hi =
      let (a, o, e, s, deep, goal) = behind in
      let (m, b, u, n, v) =
        allocate_bounds int_of_text p args (t.token_budget - t.tokens_used - plan_tokens) lo hi o in
      omega (
        arith,
        ap (λ (x : Child). x.depth) e,
        ap (λ (x : Child). x.token_budget) e,
        ap (λ (x : Child). x.max_steps) e,
      )

  -- A spawned child has a capability exactly when its parent has it and the request asks for it.
  pub spawn_capabilities :
      (k : Capability) → c.capabilities k ≡ (r.capabilities k && t.capabilities k)
  unfolding child_of
  spawn_capabilities k =
      let (a, o, e, s, deep, goal) = behind in sym (ap (λ (x : Child). x.capabilities k) e)

  -- A host that the child's host policy permits is one that the parent's permits.
  pub spawn_hosts : (x : Host) → permits c.egress_hosts x ≡ true → permits t.egress_hosts x ≡ true
  unfolding child_of
  spawn_hosts x h =
      let (a, o, e, s, deep, goal) = behind in
      let hosts : c.egress_hosts ≡ inherit t.egress_hosts r.egress_hosts =
        sym (ap (λ (y : Child). y.egress_hosts) e) in
      (permits_iff t.egress_hosts x).1 (
        inherit_within t.egress_hosts r.egress_hosts x
          (subst (Any (Under x)) hosts ((permits_iff c.egress_hosts x).0 h)))
