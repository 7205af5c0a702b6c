-- ===== src/Hosts.antt =====
-- The host policy of apps/api/app/domain/authority_token.py: `normalize_host`, `permits_host` and
-- `intersect_host_policies`. A host is a list of code points. `ipaddress.ip_address` and the IDNA
-- codec are parameters; `lower` is that of ASCII.
pub mod Suffix
pub mod Policy
pub mod Names
mod Examples
use loop_agent.Prelude.{
  ℕ, zero, suc, ◌+◌, String, Bool, true, false, Option, none, some, List, [], ◌∷◌, ◌++◌, map, ◌&&◌,
  ◌||◌, not, any, all, leb, ltb, nat_eq, if◌then◌else◌, length, is_some,
}
use loop_agent.Prelude.Codes.{contains_text, drop_start, drop_end}
use loop_agent.Prelude.Text.{is_space, codes, lower_code, codes_eq}

abbrev pub Host : Type 0
Host = List ℕ

-- `s.endswith(t)`
unfoldable pub ends_with : Host → Host → Bool
ends_with [] t = codes_eq [] t
ends_with (c ∷ s) t = codes_eq (c ∷ s) t || ends_with s t

-- `host == allowed or host.endswith("." + allowed)`
unfoldable pub matches : Host → Host → Bool
matches host allowed = codes_eq host allowed || ends_with host (b'.' ∷ allowed)

-- `any(… for allowed in hosts)`, of a normalized host
unfoldable pub permits : List Host → Host → Bool
permits hosts host = any (matches host) hosts

-- `s.split(".")`
pub split_dots : Host → Host → List Host
split_dots label [] = label ∷ []
split_dots label (c ∷ s) =
    let ended = label ∷ split_dots [] s in
    let longer = split_dots (label ++ c ∷ []) s in if nat_eq c b'.' then ended else longer

abbrev pub is_alnum : ℕ → Bool
is_alnum c = (leb b'a' c && leb c b'z') || (leb b'0' c && leb c b'9')

abbrev ends_alnum : Host → Bool
ends_alnum [] = false
ends_alnum (c ∷ []) = is_alnum c
ends_alnum (c ∷ d ∷ s) = ends_alnum (d ∷ s)

abbrev starts_alnum : Host → Bool
starts_alnum [] = false
starts_alnum (c ∷ s) = is_alnum c

-- `_HOST_LABEL.fullmatch(label)`: letters, digits and inner hyphens, at most 63 of them.
unfoldable pub is_label : Host → Bool
is_label label =
    starts_alnum label
    && ends_alnum label
    && all (λ c. is_alnum c || nat_eq c b'-') label
    && leb (length label) 63

-- `ipaddress.ip_address(raw)`: `none` is the `ValueError`; else whether the address is global, and
-- its compressed form.
abbrev pub ParseAddress : Type 0
ParseAddress = Host → Option (Bool × Host)

-- `raw.encode("idna").decode("ascii")`; `none` is the `UnicodeError`.
abbrev pub ToIdna : Type 0
ToIdna = Host → Option Host

-- The tests on a name that is no address.
dns_name : Option Host → Option Host
unfolding is_label split_dots
dns_name none = none
dns_name (some name) =
    let labels = split_dots [] name in
    if ltb 253 (length name) || not (all is_label labels)
    then none
    else if ltb (length labels) 2 || codes_eq name (codes "localhost")
    then none
    else some name

drop_last : Host → Host
drop_last [] = []
drop_last (d ∷ []) = []
drop_last (d ∷ e ∷ r) = d ∷ drop_last (e ∷ r)

-- `raw.startswith("[") and raw.endswith("]")`, then `raw[1:-1]`
unbracket : Host → Host
unfolding drop_last ends_with
unbracket [] = []
unbracket (c ∷ s) = if nat_eq c b'[' && ends_with (c ∷ s) (b']' ∷ []) then drop_last s else c ∷ s

abbrev is_forbidden : ℕ → Bool
is_forbidden c = nat_eq c b'/' || nat_eq c b'?' || nat_eq c b'#' || nat_eq c b'@' || nat_eq c b'*'

-- `host.strip().lower().rstrip(".")`
trim : Host → Host
unfolding drop_start drop_end
trim host =
    drop_end (λ c. nat_eq c b'.') (map lower_code (drop_end is_space (drop_start is_space host)))

module _ (ip_address : ParseAddress) (idna : ToIdna) where
  resolve : Host → Option (Bool × Host) → Option Host
  unfolding dns_name
  resolve raw none = dns_name (idna raw)
  resolve raw (some (is_global, compressed)) = if not is_global then none else some compressed

  -- `none` is an `AuthorityTokenError`.
  unfoldable pub normalize_host : Host → Option Host
  unfolding resolve trim unbracket contains_text
  normalize_host host =
      let raw = trim host in
      let name = unbracket raw in
      if codes_eq raw [] || contains_text raw (codes "://") || any is_forbidden raw
      then none
      else resolve name (ip_address name)

  -- `normalize_hosts`: the set, in the order of the hosts; `none` if one of them is refused.
  unfoldable pub normalize_hosts : List Host → Option (List Host)
  unfolding normalize_host
  normalize_hosts [] = some []
  normalize_hosts (h ∷ hs) = elim (normalize_host h) [
    | none ↦ none
    | some n ↦ elim (normalize_hosts hs) [ none ↦ none | some ns ↦ some (n ∷ ns) ]
  ]

-- The inner loop of `intersect_host_policies`, and the outer one.
meet_one : Host → List Host → List Host
unfolding ends_with
meet_one r [] = []
meet_one r (c ∷ cs) =
    let rest = meet_one r cs in
    if codes_eq r c || ends_with r (b'.' ∷ c)
    then r ∷ rest
    else if ends_with c (b'.' ∷ r)
    then c ∷ rest
    else rest

unfoldable pub intersect : List Host → List Host → List Host
unfolding meet_one
intersect [] ceiling = []
intersect (r ∷ rs) ceiling = meet_one r ceiling ++ intersect rs ceiling

module _ (ip_address : ParseAddress) (idna : ToIdna) where
  unfoldable pub intersect_host_policies : List Host → List Host → Option (List Host)
  intersect_host_policies requested ceiling = elim (normalize_hosts ip_address idna requested) [
    | none ↦ none
    | some rs ↦ elim (normalize_hosts ip_address idna ceiling) [
      | none ↦ none
      | some cs ↦ some (intersect rs cs)
    ]
  ]

  -- `AuthorityGrant.permits_host`, for the hosts of a grant; `none` is the `AuthorityTokenError`.
  unfoldable pub permits_host : List Host → Host → Option Bool
  permits_host egress_hosts host = elim (normalize_host ip_address idna host) [
    | none ↦ none
    | some normalized ↦ some (permits egress_hosts normalized)
  ]
