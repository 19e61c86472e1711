-- ===== src/RateLimit/ClientIp.antt =====
-- apps/api/src/rate_limit.rs: the client's address, and the identities that it is limited by.
pub mod Proofs
use wfchat.Base.{
  ℕ, ◌/◌, ◌%◌, ◌^◌, Bool, true, false, not, ◌&&◌, ◌||◌, List, [], ◌∷◌, ◌++◌, Option, none, some,
  reverse, Text, codes, nat_beq, is_empty, find, any, trim, split, if◌then◌else◌, map_found,
}
use wfchat.RateLimit.Policy.{RateLimitIdentity, session, ip, global}

-- The 32 or the 128 bits of the address.
pub data IpAddr : Type 0 where
  v4 : ℕ → IpAddr
  v6 : ℕ → IpAddr

-- `to_ipv4_mapped` reads ::ffff:a.b.c.d.
unfoldable pub normalize_ip : IpAddr → IpAddr
normalize_ip (v6 address) =
    if nat_beq (address / 2 ^ 32) 0xffff then v4 (address % 2 ^ 32) else v6 address
normalize_ip (v4 address) = v4 address

-- `or_else` with a value at hand.
abbrev pub unwrap_or {ℓ} : {A : Type ℓ} → Option A → A → A
unwrap_or none d = d
unwrap_or (some a) d = a

-- What the crate does not implement: the networks of the crate `ipnet`, and the standard library's
-- reading and printing of addresses.
module _ {IpNet : Type 0} (network_contains : IpNet → IpAddr → Bool) where
  unfoldable pub is_trusted_ip : IpAddr → List IpNet → Bool
  is_trusted_ip address trusted_proxy_cidrs =
      any (λ network. network_contains network address) trusted_proxy_cidrs

  -- The entry nearest to this server that is no proxy of its own.
  unfoldable pub pick : IpAddr → List IpNet → Option (List IpAddr) → IpAddr
  pick peer_ip cidrs none = peer_ip
  pick peer_ip cidrs (some forwarded) =
      unwrap_or (find (λ address. not (is_trusted_ip address cidrs)) (reverse forwarded)) peer_ip

-- The loop over the entries, which gives up at one that is no address.
unfoldable pub parse_entries : (Text → Option IpAddr) → List Text → Option (List IpAddr)
parse_entries parse [] = some []
parse_entries parse (entry ∷ entries) =
    let rest = parse_entries parse entries in
    elim (parse (trim entry)) [
      | none ↦ none
      | some address ↦ map_found (λ forwarded. normalize_ip address ∷ forwarded) rest
    ]

abbrev global_if : Bool → List RateLimitIdentity
global_if include_global = if include_global then global ∷ [] else []

module _ {IpNet : Type 0} (network_contains : IpNet → IpAddr → Bool)
    (parse : Text → Option IpAddr) where
  -- `values` are those of the header `x-forwarded-for`; one that is no text is `none`.
  unfoldable pub from_header : IpAddr → List IpNet → List (Option Text) → IpAddr
  from_header peer_ip cidrs [] = peer_ip
  from_header peer_ip cidrs (none ∷ []) = peer_ip
  from_header peer_ip cidrs (some value ∷ []) =
      if is_empty (trim value)
      then peer_ip
      else pick network_contains peer_ip cidrs (parse_entries parse (split b',' value))
  from_header peer_ip cidrs (value ∷ second ∷ more) = peer_ip

  unfoldable pub client_ip_from_request : List (Option Text) → IpAddr → Bool → List IpNet → IpAddr
  unfolding from_header pick
  client_ip_from_request values peer_ip trust_proxy_headers cidrs =
      let peer_ip' = normalize_ip peer_ip in
      if not trust_proxy_headers || not (is_trusted_ip network_contains peer_ip' cidrs)
      then peer_ip'
      else from_header peer_ip' cidrs values

  module _ (print : IpAddr → Text) where
    unfoldable pub for_resolved_ip :
        List (Option Text) → IpAddr → Bool → List IpNet → Bool → List RateLimitIdentity
    for_resolved_ip values peer_ip trust_proxy_headers cidrs include_global =
        ip (print (client_ip_from_request values peer_ip trust_proxy_headers cidrs))
        ∷ global_if include_global

    unfoldable pub for_validated_session :
        ℕ → List (Option Text) → IpAddr → Bool → List IpNet → Bool → List RateLimitIdentity
    unfolding for_resolved_ip
    for_validated_session session_id values peer_ip trust_proxy_headers cidrs include_global =
        session session_id ∷ for_resolved_ip values peer_ip trust_proxy_headers cidrs include_global
