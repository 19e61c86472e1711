-- ===== src/RateLimit/ClientIp/Proofs.antt =====
-- Where the client's address comes from, and what a forged header can do.
use mathlib.Core.List.{reverse-cons, reverse-append, reverse-reverse, append_assoc}
use wfchat.Base.{
  ◌≡◌, refl, sym, ap, ◌∙◌, ◌⊎◌, inl, inr, Bool, true, false, not, ◌&&◌, ◌||◌, List, [], ◌∷◌, ◌++◌,
  Option, none, some, reverse, Text, is_empty, find, any, all, trim, split, arith, Bool-cases,
  Option-cases, is_empty-trim, split-append, is_whitespace, all-append, all-reverse,
}
use wfchat.RateLimit.Policy.{key_eq}
use wfchat.RateLimit.ClientIp.{
  IpAddr, normalize_ip, is_trusted_ip, parse_entries, pick, from_header, client_ip_from_request,
}

module _ {ℓ} {A : Type ℓ} (p : A → Bool) where
  find_split :
      (xs : List A) {a : A}
      → find p xs ≡ some a
      → (before after : List A) × (xs ≡ before ++ a ∷ after)
        × (p a ≡ true)
        × (all (λ x. not (p x)) before ≡ true)
  find_split [] h = cc
  find_split (x ∷ xs) {a} h = elim (Bool-cases (p x)) [
    | inl e ↦ ([], xs, ground arith, ground arith, refl)
    | inr e ↦
        let (before, after, eq, hit, miss) = find_split xs (ground arith) in
        (x ∷ before, after, ap (◌∷◌ x) eq, hit, ground arith)
  ]

  find-append : (xs ys : List A) → any p xs ≡ true → find p (xs ++ ys) ≡ find p xs
  find-append [] ys h = cc
  find-append (x ∷ xs) ys h = ground (arith, find-append xs ys)

  any-append : (xs ys : List A) → any p (xs ++ ys) ≡ (any p xs || any p ys)
  any-append [] ys = refl
  any-append (x ∷ xs) ys = ground (arith, any-append xs ys)

  any-reverse : (xs : List A) → any p (reverse xs) ≡ any p xs
  any-reverse [] = refl
  any-reverse (x ∷ xs) =
      rw (reverse-cons x xs) (ground (arith, any-append (reverse xs) (x ∷ []), any-reverse xs))

  -- The last element that passes, and what stands on both sides of it.
  find-reverse :
      (xs : List A) {a : A}
      → find p (reverse xs) ≡ some a
      → (before after : List A) × (xs ≡ before ++ a ∷ after)
        × (p a ≡ true)
        × (all (λ x. not (p x)) after ≡ true)
  find-reverse xs {a} h =
      let (before, after, eq, hit, miss) = find_split (reverse xs) h in
      (
        reverse after,
        reverse before,
        sym (reverse-reverse xs)
            ∙ ap reverse eq
            ∙ reverse-append before (a ∷ after)
            ∙ rw (reverse-cons a after) (append_assoc (reverse after) (a ∷ []) (reverse before)),
        hit,
        all-reverse (λ x. not (p x)) before ∙ miss,
      )

parse_entries-append :
    (parse : Text → Option IpAddr) (ss ts : List Text) (xs ys : List IpAddr)
    → parse_entries parse ss ≡ some xs
    → parse_entries parse ts ≡ some ys
    → parse_entries parse (ss ++ ts) ≡ some (xs ++ ys)
unfolding parse_entries
parse_entries-append parse [] ts xs ys h k = ground arith
parse_entries-append parse (s ∷ ss) ts [] ys h k = ground arith
parse_entries-append parse (s ∷ ss) ts (x ∷ xs) ys h k =
    ground (arith, parse_entries-append parse ss ts xs ys)

module _ {IpNet : Type 0} (network_contains : IpNet → IpAddr → Bool) (parse : Text → Option IpAddr)
    (cidrs : List IpNet) where
  abbrev pub trusted : IpAddr → Bool
  trusted address = is_trusted_ip network_contains address cidrs

  -- The address was read from the only header, by a proxy of ours: `r` stands there, is no proxy of
  -- ours, and all that stand behind it are.
  abbrev pub IsForwarded : List (Option Text) → IpAddr → Type 0
  IsForwarded values r =
      (value : Text) × (before after : List IpAddr) × (values ≡ some value ∷ [])
      × (parse_entries parse (split b',' value) ≡ some (before ++ r ∷ after))
      × (trusted r ≡ false)
      × (all trusted after ≡ true)

  all-trusted :
      (xs : List IpAddr) → all (λ x. not (not (trusted x))) xs ≡ true → all trusted xs ≡ true
  all-trusted [] h = refl
  all-trusted (x ∷ xs) h = ground (arith, all-trusted xs)

  pick-IsForwarded :
      (peer_ip : IpAddr) (value : Text) (o : Option (List IpAddr))
      → parse_entries parse (split b',' value) ≡ o
      → (pick network_contains peer_ip cidrs o ≡ peer_ip)
        ⊎ IsForwarded (some value ∷ []) (pick network_contains peer_ip cidrs o)
  unfolding pick
  pick-IsForwarded peer_ip value none e = inl refl
  pick-IsForwarded peer_ip value (some forwarded) e =
      elim (Option-cases (find (λ address. not (trusted address)) (reverse forwarded))) [
        | inl miss ↦ inl (rw miss)
        | inr (a, found) ↦
            let (before, after, eq, hit, rest) =
              find-reverse (λ x. not (trusted x)) forwarded found in
            inr (
              rw found
                (value, before, after, refl, e ∙ ap some eq, ground arith, all-trusted after rest))
      ]

  from_header-IsForwarded :
      (peer_ip : IpAddr) (values : List (Option Text))
      → let r = from_header network_contains parse peer_ip cidrs values in
        (r ≡ peer_ip) ⊎ IsForwarded values r
  unfolding from_header
  from_header-IsForwarded peer_ip [] = inl refl
  from_header-IsForwarded peer_ip (none ∷ []) = inl refl
  from_header-IsForwarded peer_ip (none ∷ v ∷ vs) = inl refl
  from_header-IsForwarded peer_ip (some value ∷ v ∷ vs) = inl refl
  from_header-IsForwarded peer_ip (some value ∷ []) = elim (Bool-cases (is_empty (trim value))) [
    | inl blank ↦ inl (rw blank)
    | inr more ↦
        rw more (pick-IsForwarded peer_ip value (parse_entries parse (split b',' value)) refl)
  ]

  -- The client's address is the peer's, unless the peer is one of our proxies and we trust its
  -- header: then it may be the last address of the only header that is none of our proxies.
  pub client_ip_from_request-IsForwarded :
      (values : List (Option Text)) (peer_ip : IpAddr) (trust_proxy_headers : Bool)
      → let r =
          client_ip_from_request network_contains parse values peer_ip trust_proxy_headers cidrs in
        (r ≡ normalize_ip peer_ip)
        ⊎ ((trust_proxy_headers ≡ true)
            × (trusted (normalize_ip peer_ip) ≡ true)
            × IsForwarded values r)
  unfolding client_ip_from_request
  client_ip_from_request-IsForwarded values peer_ip false = inl refl
  client_ip_from_request-IsForwarded values peer_ip true =
      elim (Bool-cases (trusted (normalize_ip peer_ip))) [
        | inr stranger ↦ inl (rw stranger)
        | inl proxy ↦ rw proxy (lift (from_header-IsForwarded (normalize_ip peer_ip) values))
      ]
    where
      lift :
          {P Q : Type 0} → P ⊎ Q → P ⊎ ((◌≡◌ {A = Bool} true true) × (◌≡◌ {A = Bool} true true) × Q)
      lift (inl p) = inl p
      lift (inr q) = inr (refl, refl, q)

  pick_forged :
      (peer_ip : IpAddr) (forged honest : List IpAddr)
      → any (λ x. not (trusted x)) honest ≡ true
      → pick network_contains peer_ip cidrs (some (forged ++ honest))
        ≡ pick network_contains peer_ip cidrs (some honest)
  unfolding pick
  pick_forged peer_ip forged honest h = rw (
    reverse-append forged honest,
    find-append (λ x. not (trusted x)) (reverse honest) (reverse forged)
        (any-reverse (λ x. not (trusted x)) honest ∙ h),
  )

  -- What a client writes in front of a header does not change the address, if it reads as addresses.
  -- (What the proxies wrote reads as addresses too, one of which is none of our proxies. Text that does
  -- not read as addresses makes the address the peer's.)
  pub client_ip_from_request_forged :
      (forged honest : Text) (fs hs : List IpAddr) (peer_ip : IpAddr) (trust_proxy_headers : Bool)
      → parse_entries parse (split b',' forged) ≡ some fs
      → parse_entries parse (split b',' honest) ≡ some hs
      → any (λ x. not (trusted x)) hs ≡ true
      → all is_whitespace honest ≡ false
      → client_ip_from_request network_contains parse
          (some (forged ++ b',' ∷ honest) ∷ [])
          peer_ip
          trust_proxy_headers
          cidrs
        ≡ client_ip_from_request network_contains parse
            (some honest ∷ [])
            peer_ip
            trust_proxy_headers
            cidrs
  unfolding client_ip_from_request from_header is_whitespace
  client_ip_from_request_forged forged honest fs hs peer_ip trust_proxy_headers hf hh u w = rw (
    is_empty-trim honest,
    w,
    is_empty-trim (forged ++ b',' ∷ honest),
    all-append is_whitespace forged (b',' ∷ honest),
    and_false (all is_whitespace forged),
    split-append b',' forged honest,
    parse_entries-append parse (split b',' forged) (split b',' honest) fs hs hf hh,
    hh,
    pick_forged (normalize_ip peer_ip) fs hs u,
  )
    where
      and_false : (b : Bool) → (b && false) ≡ false
      and_false true = refl
      and_false false = refl
