-- ===== src/Hosts/Names.antt =====
-- What a normalized name is.
use loop_agent.Prelude.{
  subst, ap, ◌≤◌, ◌≡◌, ◌≢◌, ◌⊎◌, inl, inr, refl, Bool, true, false, Option, none, some, [], arith,
  not, all, All, all→All, Bool-cases, length, ltb, any, ◌||◌,
}
use loop_agent.Prelude.Text.{codes, codes_eq}
use loop_agent.Hosts.{
  Host, ParseAddress, ToIdna, is_label, split_dots, dns_name, resolve, normalize_host, unbracket,
  trim, contains_text, is_forbidden,
}
use loop_agent.Hosts.Suffix.{codes_eq_iff}

-- A name as the DNS branch lets it through.
pub record IsDnsName (name : Host) : Type 0 where
  pub short : length name ≤ 253
  pub labelled : All (λ l. is_label l ≡ true) (split_dots [] name)
  pub dotted : 2 ≤ length (split_dots [] name)
  pub not_local : name ≢ codes "localhost"

-- The tests of the DNS branch on a name, passed.
dns_tests :
    (raw : Host) {name : Host}
    → dns_name (some raw) ≡ some name
    → (raw ≡ name)
      × ((ltb 253 (length raw) || not (all is_label (split_dots [] raw))) ≡ false)
      × ((ltb (length (split_dots [] raw)) 2 || codes_eq raw (codes "localhost")) ≡ false)
unfolding dns_name
dns_tests raw h =
    elim (Bool-cases (ltb 253 (length raw) || not (all is_label (split_dots [] raw)))) [
      | inl a ↦ absurd (refuted (rw a at h))
      | inr a ↦
          elim (Bool-cases
            (ltb (length (split_dots [] raw)) 2 || codes_eq raw (codes "localhost"))) [
              | inl b ↦ absurd (refuted (rw (a, b) at h))
              | inr b ↦ (got (rw (a, b) at h), a, b)
            ]
    ]
  where
    refuted : {x : Host} → none ≡ some x → ⊥
    refuted e = cc

    got : {x : Host} → some raw ≡ some x → raw ≡ x
    got e = cc

dns_name-IsDnsName : (o : Option Host) {name : Host} → dns_name o ≡ some name → IsDnsName name
dns_name-IsDnsName none h = absurd (unfold dns_name in cc)
dns_name-IsDnsName (some raw) h =
    let (e, a, b) = dns_tests raw h in
    subst IsDnsName e (record {
      short = ground arith;
      labelled = all→All is_label (split_dots [] raw) (ground arith);
      dotted = ground arith;
      not_local = λ q. ground (arith, (codes_eq_iff raw (codes "localhost")).1 q);
    })

dns_name-eq : (o : Option Host) {name : Host} → dns_name o ≡ some name → o ≡ some name
dns_name-eq none h = absurd (unfold dns_name in cc)
dns_name-eq (some raw) h = ap some (dns_tests raw h).0

-- What `normalize_host` returns is the compressed form of an address that is globally routable, or
-- what the IDNA codec makes of a text that is no address: a name of at most 253 characters and at
-- least two labels, each of them well formed, which is not `localhost`. The name is not tested for
-- being an address again.
pub normalize_host_shape :
    (ip_address : ParseAddress) (idna : ToIdna) (host : Host) {name : Host}
    → normalize_host ip_address idna host ≡ some name
    → ((raw : Host) × (ip_address raw ≡ none) × (idna raw ≡ some name) × IsDnsName name)
      ⊎ ((raw : Host) × (ip_address raw ≡ some (true, name)))
unfolding normalize_host
normalize_host_shape ip_address idna host {name} h =
    let raw = trim host in
    elim (Bool-cases (codes_eq raw [] || contains_text raw (codes "://") || any is_forbidden raw)) [
      | inl a ↦ absurd (refuted (rw a at h))
      | inr a ↦ resolved (unbracket raw) (ip_address (unbracket raw)) refl (rw a at h)
    ]
  where
    refuted : none ≡ some name → ⊥
    refuted e = cc

    resolved :
        (raw : Host) (o : Option (Bool × Host))
        → ip_address raw ≡ o
        → resolve ip_address idna raw o ≡ some name
        → ((raw' : Host) × (ip_address raw' ≡ none) × (idna raw' ≡ some name) × IsDnsName name)
          ⊎ ((raw' : Host) × (ip_address raw' ≡ some (true, name)))
    resolved raw none e k = inl (raw, e, dns_name-eq (idna raw) k, dns_name-IsDnsName (idna raw) k)
    resolved raw (some (true, compressed)) e k = inr (raw, cc)
    resolved raw (some (false, compressed)) e k = cc
