-- ===== src/Capability/Permits.antt =====
-- What an envelope permits.
use loop_agent.Prelude.{
  or_left, or_right, sym, subst, ap, ◌∙◌, String, ◌≡◌, ◌⊎◌, ◌↔◌, inl, inr, refl, Bool, true, false,
  Option, none, some, List, [], ◌∷◌, ◌==◌, arith, contains, eq_iff, Bool-cases, Option-cases, all,
}
use loop_agent.Capability.{
  fs_read, fs_write, exec, needed, Capability, CapabilitySet, CapabilityEnvelope, permits,
  is_control, is_executor, tool_capabilities, from_tools, executors_of, legacy_tools, legacy_blocks,
  covers, required_for, subset, set_of,
}

-- Every capability of the first envelope is one of the second, and the second lets every executor
-- tool through that the first does.
pub record IsWithin (d e : CapabilityEnvelope) : Type 0 where
  pub fewer : (c : Capability) → d.capabilities c ≡ true → e.capabilities c ≡ true
  pub tools :
      (t : String)
      → legacy_blocks e.legacy_allowed_tools t ≡ true
      → legacy_blocks d.legacy_allowed_tools t ≡ true

all_mono :
    {A : Type 0} (p q : A → Bool) (xs : List A)
    → ((x : A) → p x ≡ true → q x ≡ true)
    → all p xs ≡ true
    → all q xs ≡ true
all_mono p q [] f h = refl
all_mono p q (x ∷ xs) f h = ground (arith, f x, all_mono p q xs f)

covers_mono :
    (o : Option (List Capability)) (a b : CapabilitySet)
    → ((c : Capability) → a c ≡ true → b c ≡ true)
    → covers o a ≡ true
    → covers o b ≡ true
unfolding covers
covers_mono none a b f h = h
covers_mono (some cs) a b f h = all_mono a b cs f h

-- A narrower envelope permits no more.
pub permits_mono :
    (d e : CapabilityEnvelope) (tool : String) (provider : Option Capability)
    → IsWithin d e
    → permits d tool provider ≡ true
    → permits e tool provider ≡ true
unfolding permits
permits_mono d e tool provider w h = ground (
  arith,
  w.tools tool,
  covers_mono (required_for (tool_capabilities tool) provider) d.capabilities e.capabilities
      w.fewer,
)

-- Which tools an envelope permits, written as a table.
executors-contains :
    (ts : List String) (t : String) → contains (executors_of ts) t ≡ true → contains ts t ≡ true
unfolding executors_of
executors-contains [] t h = h
executors-contains (x ∷ ts) t h = ground (arith, executors-contains ts t)

contains-executors :
    (ts : List String) (t : String)
    → is_executor t ≡ true
    → contains ts t ≡ true
    → contains (executors_of ts) t ≡ true
unfolding executors_of
contains-executors [] t x h = h
contains-executors (u ∷ ts) t x h = elim (Bool-cases (u == t)) [
  | inl e ↦
      let known : is_executor u ≡ true =
        subst (λ y. is_executor y ≡ true) (sym ((eq_iff u t).0 e)) x in
      rw known (ground arith)
  | inr n ↦
      let rest = contains-executors ts t x (rw n at h) in
      elim (Bool-cases (is_executor u)) [ inl k ↦ rw k (ground arith) | inr k ↦ rw k rest ]
]

-- The capabilities of a listed tool are among those that the list needs.
needed-of_listed :
    (ts : List String) (t : String) (cs : List Capability) (c : Capability)
    → contains ts t ≡ true
    → tool_capabilities t ≡ some cs
    → set_of cs c ≡ true
    → needed ts c ≡ true
unfolding needed
needed-of_listed [] t cs c h k m = cc
needed-of_listed (u ∷ ts) t cs c h k m = elim (Bool-cases (u == t)) [
  | inl e ↦
      let known : tool_capabilities u ≡ some cs = ap tool_capabilities ((eq_iff u t).0 e) ∙ k in
      rw (known, needed) (or_left (set_of cs c) (needed ts c) m)
  | inr n ↦
      let rest = needed-of_listed ts t cs c (rw n at h) k m in
      elim (Option-cases (tool_capabilities u)) [
        | inl none' ↦ rw (none', needed) rest
        | inr (ds, some') ↦ rw (some', needed) (or_right (set_of ds c) (needed ts c) rest)
      ]
]

executor-cases :
    (t : String)
    → is_executor t ≡ true
    → (t ≡ "read_file") ⊎ (t ≡ "write_file") ⊎ (t ≡ "edit_file") ⊎ (t ≡ "run_command")
executor-cases t x = ground (
  arith,
  eq_iff "read_file" t,
  eq_iff "write_file" t,
  eq_iff "edit_file" t,
  eq_iff "run_command" t,
)

listed_permits :
    (tools hosts : List String) (egress : Bool) (provider : Option Capability) (t : String)
    (cs : List Capability)
    → is_control t ≡ false
    → tool_capabilities t ≡ some cs
    → subset cs (set_of cs) ≡ true
    → contains tools t ≡ true
    → legacy_blocks (legacy_tools (some tools)) t ≡ false
    → permits (from_tools (some tools) egress hosts) t provider ≡ true
unfolding permits from_tools
listed_permits tools hosts egress provider t cs k m s h l =
    rw (k, l, m)
      (all_mono (set_of cs) _ cs
        (λ c z. let n = needed-of_listed tools t cs c h m z in ground arith) s)

permitted_listed :
    (tools hosts : List String) (egress : Bool) (provider : Option Capability) (t : String)
    → is_executor t ≡ true
    → is_control t ≡ false
    → permits (from_tools (some tools) egress hosts) t provider ≡ true
    → contains tools t ≡ true
unfolding permits from_tools
permitted_listed tools hosts egress provider t x k h =
    elim (Bool-cases (contains (executors_of tools) t)) [
      | inl c ↦ executors-contains tools t c
      | inr c ↦ ground arith
    ]

unblocked :
    (tools : List String) (t : String)
    → is_executor t ≡ true
    → contains tools t ≡ true
    → legacy_blocks (legacy_tools (some tools)) t ≡ false
unfolding legacy_blocks legacy_tools
unblocked tools t x h = rw (contains-executors tools t x h) (ground arith)

-- An envelope made from a list of tools permits an executor tool exactly when the tool is on the
-- list, whatever else is listed: the capabilities that another tool brings do not let it in, and a
-- listed tool has all the capabilities that it needs.
pub from_tools_exact :
    (tools hosts : List String) (egress : Bool) (tool : String) (provider : Option Capability)
    → is_executor tool ≡ true
    → (permits (from_tools (some tools) egress hosts) tool provider ≡ true)
      ↔ (contains tools tool ≡ true)
unfolding tool_capabilities
from_tools_exact tools hosts egress tool provider x = elim (executor-cases tool x) [
  | inl e ↦ at "read_file" (fs_read ∷ []) e (refl, refl, refl, refl)
  | inr (inl e) ↦ at "write_file" (fs_write ∷ []) e (refl, refl, refl, refl)
  | inr (inr (inl e)) ↦ at "edit_file" (fs_read ∷ fs_write ∷ []) e (refl, refl, refl, refl)
  | inr (inr (inr e)) ↦ at "run_command" (exec ∷ []) e (refl, refl, refl, refl)
]
  where
    at :
        (t : String) (cs : List Capability)
        → tool ≡ t
        → (is_executor t ≡ true)
          × (is_control t ≡ false)
          × (tool_capabilities t ≡ some cs)
          × (subset cs (set_of cs) ≡ true)
        → (permits (from_tools (some tools) egress hosts) tool provider ≡ true)
          ↔ (contains tools tool ≡ true)
    at t cs e (y, k, m, s) =
        subst
          (λ u.
            (permits (from_tools (some tools) egress hosts) u provider ≡ true)
            ↔ (contains tools u ≡ true))
          (sym e)
          (
            permitted_listed tools hosts egress provider t y k,
            λ h. listed_permits tools hosts egress provider t cs k m s h (unblocked tools t y h),
          )
