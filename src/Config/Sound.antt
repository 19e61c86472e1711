-- ===== src/Config/Sound.antt =====
-- What a configuration meets that the server starts with.
use wfchat.Base.{
  ℕ, ◌≤◌, ◌<◌, ◌≡◌, Bool, true, false, not, List, [], ◌∷◌, Option, Text, codes, if◌then◌else◌, All,
  any, split, trim, is_empty, nat_eq, arith,
}
use wfchat.Base.Results.{Result, ok, refuse_if, ok->>=}
use wfchat.Cafe.F32.{F32}
use wfchat.Config.{SecurityConfig, Config}
use wfchat.Config.Origin.{Url, validate_production_origin}
use wfchat.Config.PublicOrigins.{
  IsPublicOrigin, validate_production_origin-IsPublicOrigin, refuse_if-false,
}
use wfchat.Config.Validate.{is_zero, validate_production_min, validate_maxima, is_production}
use wfchat.Config.Limits.{production_cafe_room_creation_window_seconds_min}
use wfchat.Config.Security.{
  cafe_positive, chat_positive, security_maxima, lifetime_maxima, validate_origins,
  validate_production_security, validate_limits, validate_security_config,
}

any-is_zero : (ns : List ℕ) → any is_zero ns ≡ false → All (λ n. 0 < n) ns
any-is_zero [] h = tt
any-is_zero (n ∷ ns) h = ground (arith, any-is_zero ns)

abbrev pub WithinMaximum : Text × ℕ × ℕ → Type 0
WithinMaximum (key, value, maximum) = value ≤ maximum

pub validate_maxima-All :
    (ms : List (Text × ℕ × ℕ)) → validate_maxima ms ≡ ok tt → All WithinMaximum ms
unfolding validate_maxima
validate_maxima-All [] h = tt
validate_maxima-All ((key, value, maximum) ∷ ms) h = ground (arith, validate_maxima-All ms)

validate_production_min-le :
    (key : Text) (value minimum : ℕ)
    → validate_production_min key value minimum ≡ ok tt
    → minimum ≤ value
unfolding validate_production_min
validate_production_min-le key value minimum h = ground arith

where_not :
    (b : Bool) (k : Result Text (Unit {0}))
    → b ≡ true
    → (if not b then ok tt else k) ≡ ok tt
    → k ≡ ok tt
where_not true k h h' = h'
where_not false k h h' = cc

module _ {IpNet : Type 0} where
  -- The limits fit each other.
  pub record IsSecure (max_permits : ℕ) (security : SecurityConfig IpNet) : Type 0 where
    pub cafe_nonzero : All (λ n. 0 < n) (cafe_positive security.cafe)
    pub sockets :
        (security.cafe.max_sockets_per_session ≤ security.cafe.max_sockets_per_ip)
        × (security.cafe.max_sockets_per_ip ≤ security.cafe.max_sockets_global)
    pub creations :
        (security.cafe.room_creations_per_session ≤ security.cafe.room_creations_per_ip)
        × (security.cafe.room_creations_per_ip ≤ security.cafe.room_creations_global)
    pub chat_nonzero : All (λ n. 0 < n) (chat_positive security)
    pub concurrency :
        (security.chat.max_concurrent_per_session ≤ security.chat.max_concurrent_generations)
        × (security.chat.max_concurrent_generations ≤ max_permits)
    pub timeouts :
        (security.chat.ai_connect_timeout_seconds ≤ security.chat.ai_total_timeout_seconds)
        × (security.chat.ai_idle_timeout_seconds ≤ security.chat.ai_total_timeout_seconds)
    pub proxies :
        security.trust_proxy_headers ≡ true → is_empty security.trusted_proxy_cidrs ≡ false

module _ {Ip : Type 0} (parse_url : Text → Option Url) (parse_ip : Text → Option Ip) where
  abbrev pub AllPublic : List Text → Type 0
  AllPublic origins = All (λ origin. IsPublicOrigin parse_url parse_ip (trim origin)) origins

  validate_origins-AllPublic :
      (origins : List Text)
      → validate_origins parse_url parse_ip origins ≡ ok tt
      → AllPublic origins
  unfolding validate_origins
  validate_origins-AllPublic [] h = tt
  validate_origins-AllPublic (origin ∷ origins) h =
      let (u, first, rest) =
        ok->>= (validate_production_origin parse_ip parse_url (trim origin)) _ h in
      (
        validate_production_origin-IsPublicOrigin parse_url parse_ip (trim origin) first,
        validate_origins-AllPublic origins rest,
      )

module _ {IpNet : Type 0} (max_permits : ℕ) where
  validate_limits-IsSecure :
      (security : SecurityConfig IpNet)
      → validate_limits max_permits security ≡ ok tt
      → IsSecure max_permits security
  unfolding validate_limits
  validate_limits-IsSecure security h =
      ground
        (arith, any-is_zero (cafe_positive security.cafe), any-is_zero (chat_positive security))

module _ {f : F32} {IpNet Ip : Type 0} (parse_url : Text → Option Url)
    (parse_ip : Text → Option Ip) where
  -- What production asks for beyond `IsSecure`.
  pub record IsHardened (config : Config f IpNet) : Type 0 where
    pub no_session_header : config.security.allow_session_header ≡ false
    pub limits : All WithinMaximum (security_maxima config.security)
    pub window :
        production_cafe_room_creation_window_seconds_min
        ≤ config.security.cafe.room_creation_window_seconds
    pub lifetimes : All WithinMaximum (lifetime_maxima config.security)
    pub origins : AllPublic parse_url parse_ip (split b',' config.frontend_origin)

  pub validate_production_security-IsHardened :
      (config : Config f IpNet)
      → validate_production_security parse_url parse_ip config ≡ ok tt
      → IsHardened config
  unfolding validate_production_security
  validate_production_security-IsHardened config h =
      let (u, header, after_header) =
        ok->>= (refuse_if config.security.allow_session_header _) _ h in
      let (u1, limits, after_limits) =
        ok->>= (validate_maxima (security_maxima config.security)) _ after_header in
      let (u2, window, after_window) =
        ok->>=
          (validate_production_min (codes "CAFE_ROOM_CREATION_WINDOW_SECONDS")
            config.security.cafe.room_creation_window_seconds
            production_cafe_room_creation_window_seconds_min)
          _ after_limits in
      let (u3, lifetimes, origins) =
        ok->>= (validate_maxima (lifetime_maxima config.security)) _ after_window in
      record {
        no_session_header = refuse_if-false _ _ header;
        limits = validate_maxima-All (security_maxima config.security) limits;
        window = validate_production_min-le (codes "CAFE_ROOM_CREATION_WINDOW_SECONDS") _ _ window;
        lifetimes = validate_maxima-All (lifetime_maxima config.security) lifetimes;
        origins =
            validate_origins-AllPublic parse_url parse_ip (split b',' config.frontend_origin)
              origins;
      }

  module _ (max_permits : ℕ) where
    pub validate_security_config_lem :
        (config : Config f IpNet)
        → validate_security_config parse_url parse_ip max_permits config ≡ ok tt
        → IsSecure max_permits config.security × (is_production config ≡ true → IsHardened config)
    unfolding validate_security_config
    validate_security_config_lem config h =
        let (u, limits, rest) = ok->>= (validate_limits max_permits config.security) _ h in
        (
          validate_limits-IsSecure max_permits config.security limits,
          λ prod.
              validate_production_security-IsHardened config
                (where_not (is_production config) _ prod rest),
        )
