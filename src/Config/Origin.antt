-- ===== src/Config/Origin.antt =====
-- apps/api/src/config.rs: which origins a production server accepts. The crate `url` parses.
use wfchat.Base.{
  Bool, true, false, not, ◌&&◌, ◌||◌, List, [], ◌∷◌, reverse, Option, Text, codes, is_empty,
  is_some, any, list_beq, nat_eq, nat_beq, if◌then◌else◌,
}
use wfchat.Base.Results.{◌>>=◌, ◌>>◌, ok_or, refuse_if}
use wfchat.Config.Values.{Outcome, to_ascii_lowercase}

pub record Url : Type 0 where
  pub scheme : Text
  pub username : Text
  pub password : Option Text
  pub path : Text
  pub query : Option Text
  pub fragment : Option Text
  pub host_str : Option Text

abbrev pub reserved_production_hosts : List Text
reserved_production_hosts =
    codes "localhost"
    ∷ codes "local"
    ∷ codes "internal"
    ∷ codes "lan"
    ∷ codes "home"
    ∷ codes "home.arpa"
    ∷ codes "test"
    ∷ codes "invalid"
    ∷ codes "example"
    ∷ codes "onion"
    ∷ []

trim_start_dots : Text → Text
trim_start_dots [] = []
trim_start_dots (c ∷ s) = if nat_beq c b'.' then trim_start_dots s else c ∷ s

-- `trim_end_matches('.')`.
unfoldable pub trim_end_dots : Text → Text
unfolding trim_start_dots
trim_end_dots s = reverse (trim_start_dots (reverse s))

abbrev pub starts_with : Text → Text → Bool
starts_with [] s = true
starts_with (c ∷ p) [] = false
starts_with (c ∷ p) (d ∷ s) = nat_beq c d && starts_with p s

abbrev pub ends_with : Text → Text → Bool
ends_with suffix s = starts_with (reverse suffix) (reverse s)

-- The host is a reserved name, or lies under one.
unfoldable pub is_reserved : Text → Bool
is_reserved host =
    any (λ reserved. list_beq host reserved || ends_with (b'.' ∷ reserved) host)
      reserved_production_hosts

abbrev public_host_words : Text
public_host_words = codes "production frontend origins must use a public DNS hostname"

abbrev pub has_more_than_host : Url → Bool
has_more_than_host url =
    not (is_empty url.username)
    || is_some url.password
    || not (list_beq url.path (codes "/"))
    || is_some url.query
    || is_some url.fragment

-- The host as it is compared.
unfoldable pub host_name : Text → Text
unfolding trim_end_dots
host_name host = to_ascii_lowercase (trim_end_dots host)

module _ {Ip : Type 0} (parse_ip : Text → Option Ip) where
  abbrev pub is_public_name : Text → Bool
  is_public_name host =
      not (is_empty host || is_some (parse_ip host) || not (any (λ c. nat_beq c b'.') host))

  unfoldable pub check_host : Text → Outcome (Unit {0})
  unfolding host_name is_reserved
  check_host host = do
    refuse_if (not (is_public_name (host_name host))) public_host_words
    refuse_if (is_reserved (host_name host)) public_host_words

  unfoldable pub check_url : Url → Outcome (Unit {0})
  unfolding check_host
  check_url url = do
    refuse_if (not (list_beq url.scheme (codes "https")))
        (codes "production frontend origins must use https")
    refuse_if (has_more_than_host url)
        (codes "production frontend origins must contain only scheme, host, and port")
    host ← ok_or url.host_str (codes "production frontend origins must include a host")
    check_host host

  unfoldable pub validate_production_origin : (Text → Option Url) → Text → Outcome (Unit {0})
  unfolding check_url
  validate_production_origin parse_url origin = do
    url ← ok_or (parse_url origin) (codes "production frontend origins must be valid URLs")
    check_url url
