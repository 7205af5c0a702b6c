-- ===== src/Hosts/Examples.antt =====
-- Tests of host policies, and their theorems at concrete hosts.
use loop_agent.Prelude.{
  ◌≡◌, ◌↔◌, ◌⊎◌, refl, true, false, none, some, [], ◌∷◌, ◌-◌, map, ltb, if◌then◌else◌,
}
use loop_agent.Prelude.Text.{codes}
use loop_agent.Hosts.{
  Host, ParseAddress, ToIdna, normalize_host, permits, matches, ends_with, intersect,
}
use loop_agent.Hosts.Policy.{permits-intersect}
use loop_agent.Hosts.Names.{IsDnsName, normalize_host_shape}

abbrev no_address : ParseAddress
no_address h = none

abbrev ascii_idna : ToIdna
ascii_idna h = some h

trimmed :
    normalize_host no_address ascii_idna (codes " API.Example.com. ")
    ≡ some (codes "api.example.com")
unfolding normalize_host
trimmed = refl

refused :
    (normalize_host no_address ascii_idna (codes "http://example.com") ≡ none)
    × (normalize_host no_address ascii_idna (codes "localhost") ≡ none)
    × (normalize_host no_address ascii_idna (codes "-a.example.com") ≡ none)
unfolding normalize_host
refused = (refl, refl, refl)

lookalike : permits (codes "example.com" ∷ []) (codes "evilexample.com") ≡ false
unfolding permits matches ends_with
lookalike = refl

narrowed :
    intersect (codes "example.com" ∷ []) (codes "api.example.com" ∷ codes "other.org" ∷ [])
    ≡ codes "api.example.com" ∷ []
unfolding intersect
narrowed = refl

permits-intersect_example :
    (permits
        (intersect (codes "example.com" ∷ []) (codes "api.example.com" ∷ []))
        (codes "v1.api.example.com")
      ≡ true)
    ↔ ((permits (codes "example.com" ∷ []) (codes "v1.api.example.com") ≡ true)
        × (permits (codes "api.example.com" ∷ []) (codes "v1.api.example.com") ≡ true))
permits-intersect_example =
    permits-intersect (codes "example.com" ∷ []) (codes "api.example.com" ∷ [])
      (codes "v1.api.example.com")

normalize_host_shape_example :
    ((raw : Host) × (no_address raw ≡ none)
      × (ascii_idna raw ≡ some (codes "api.example.com"))
      × IsDnsName (codes "api.example.com"))
    ⊎ ((raw : Host) × (no_address raw ≡ some (true, codes "api.example.com")))
normalize_host_shape_example =
    normalize_host_shape no_address ascii_idna (codes " API.Example.com. ") trimmed

-- The codec turns full-width digits and letters into those of ASCII.
abbrev folding_idna : ToIdna
folding_idna h = some (map (λ c. if ltb 65280 c then c - 65248 else c) h)

-- 127.0.0.1 in full-width digits is no address, and is returned as the address of the loopback.
loopback :
    normalize_host no_address folding_idna
      (65297 ∷ 65298 ∷ 65303 ∷ 46 ∷ 65296 ∷ 46 ∷ 65296 ∷ 46 ∷ 65297 ∷ [])
    ≡ some (codes "127.0.0.1")
unfolding normalize_host
loopback = refl
