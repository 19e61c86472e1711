-- ===== src/Config/PublicOrigins.antt =====
-- The origins that a production server accepts.
use wfchat.Base.{
  ◌≡◌, refl, Bool, true, false, not, ◌||◌, [], Option, none, some, Text, codes, any, is_empty,
  nat_beq, is_some, list_beq, list_beq_iff, nat_eq, arith,
}
use wfchat.Base.Results.{ok, refuse_if, ok_or, ok->>=}
use wfchat.Config.Origin.{
  Url, validate_production_origin, check_url, check_host, host_name, is_reserved, is_public_name,
  has_more_than_host,
}

pub refuse_if-false : (b : Bool) (e : Text) → refuse_if {E = Text} b e ≡ ok tt → b ≡ false
refuse_if-false true e h = cc
refuse_if-false false e h = refl

ok_or-some :
    {A : Type 0} (o : Option A) (e : Text) {a : A} → ok_or {E = Text} o e ≡ ok a → o ≡ some a
ok_or-some none e h = cc
ok_or-some (some b) e h = cc

module _ {Ip : Type 0} (parse_url : Text → Option Url) (parse_ip : Text → Option Ip) where
  -- An `https` origin that names a public host and nothing more.
  pub record IsPublicOrigin (origin : Text) : Type 0 where
    pub url : Url
    pub parsed : parse_url origin ≡ some url
    pub https : url.scheme ≡ codes "https"
    pub only_host :
        (url.username ≡ [])
        × (url.password ≡ none)
        × (url.path ≡ codes "/")
        × (url.query ≡ none)
        × (url.fragment ≡ none)
    pub host : Text
    pub host_of_url : url.host_str ≡ some host
    pub no_address : parse_ip (host_name host) ≡ none
    pub has_dot : any (λ c. nat_beq c b'.') (host_name host) ≡ true
    pub unreserved : is_reserved (host_name host) ≡ false

  public_facts :
      (e : Bool) (o : Option Ip) (dot : Bool)
      → not (not (e || is_some o || not dot)) ≡ false
      → (o ≡ none) × (dot ≡ true)
  public_facts e none dot h = ground arith
  public_facts e (some a) dot h = ground arith

  not-false : (b : Bool) → not b ≡ false → b ≡ true
  not-false true h = refl
  not-false false h = cc

  bare_facts :
      (username : Text) (password : Option Text) (path : Text) (query fragment : Option Text)
      → (not (is_empty username)
          || is_some password
          || not (list_beq path (codes "/"))
          || is_some query
          || is_some fragment)
        ≡ false
      → (username ≡ [])
        × (password ≡ none)
        × (path ≡ codes "/")
        × (query ≡ none)
        × (fragment ≡ none)
  bare_facts username password path query fragment h = ground (arith, list_beq_iff path (codes "/"))

  check_host_facts :
      (host : Text)
      → check_host parse_ip host ≡ ok tt
      → (parse_ip (host_name host) ≡ none)
        × (any (λ c. nat_beq c b'.') (host_name host) ≡ true)
        × (is_reserved (host_name host) ≡ false)
  unfolding check_host
  check_host_facts host h =
      let (u, public, unreserved) =
        ok->>= (refuse_if (not (is_public_name parse_ip (host_name host))) _) _ h in
      let name =
        public_facts (is_empty (host_name host)) (parse_ip (host_name host))
          (any (λ c. nat_beq c b'.') (host_name host))
          (refuse_if-false (not (is_public_name parse_ip (host_name host))) _ public) in
      (name.0, name.1, refuse_if-false (is_reserved (host_name host)) _ unreserved)

  check_url_facts :
      (url : Url)
      → check_url parse_ip url ≡ ok tt
      → (url.scheme ≡ codes "https")
        × ((url.username ≡ [])
            × (url.password ≡ none)
            × (url.path ≡ codes "/")
            × (url.query ≡ none)
            × (url.fragment ≡ none))
        × ((host : Text) × (url.host_str ≡ some host) × (check_host parse_ip host ≡ ok tt))
  unfolding check_url
  check_url_facts url h =
      let (u, https, after_scheme) =
        ok->>= (refuse_if (not (list_beq url.scheme (codes "https"))) _) _ h in
      let (u', bare, after_parts) = ok->>= (refuse_if (has_more_than_host url) _) _ after_scheme in
      let (host, found, known) = ok->>= (ok_or url.host_str _) (check_host parse_ip) after_parts in
      (
        (list_beq_iff url.scheme (codes "https")).0
            (not-false _ (refuse_if-false (not (list_beq url.scheme (codes "https"))) _ https)),
        bare_facts url.username url.password url.path url.query url.fragment
            (refuse_if-false (has_more_than_host url) _ bare),
        (host, ok_or-some url.host_str _ found, known),
      )

  pub validate_production_origin-IsPublicOrigin :
      (origin : Text)
      → validate_production_origin parse_ip parse_url origin ≡ ok tt
      → IsPublicOrigin origin
  unfolding validate_production_origin
  validate_production_origin-IsPublicOrigin origin h =
      let (url, parsed, checked) = ok->>= (ok_or (parse_url origin) _) (check_url parse_ip) h in
      let facts = check_url_facts url checked in
      let (host, host_of_url, known) = facts.2 in
      let name = check_host_facts host known in
      record {
        url = url;
        parsed = ok_or-some (parse_url origin) _ parsed;
        https = facts.0;
        only_host = facts.1;
        host = host;
        host_of_url = host_of_url;
        no_address = name.0;
        has_dot = name.1;
        unreserved = name.2;
      }
