-- ===== src/Config/Values.antt =====
-- apps/api/src/config.rs: how one variable of the environment is read. `env` gives the value of a
-- variable that is set.
use wfchat.Base.{
  ℕ, ◌+◌, Bool, true, false, ◌&&◌, List, [], ◌∷◌, ◌++◌, Option, none, some, Text, codes, map, trim,
  split, is_empty, leb, list_beq, nat_eq, any, if◌then◌else◌, parse_unsigned,
}
use wfchat.Base.Results.{Result, ok, err, ◌>>=◌, ok_or}
use wfchat.Cafe.F32.{F32}
use wfchat.Config.{AppEnvironment, development, production}

-- `Result<_, String>`.
abbrev pub Outcome {ℓ} : Type ℓ → Type ℓ
Outcome A = Result Text A

abbrev pub to_ascii_lowercase : Text → Text
to_ascii_lowercase s = map (λ c. if leb b'A' c && leb c b'Z' then c + 32 else c) s

abbrev pub get_or : Option Text → Text → Text
get_or none fallback = fallback
get_or (some value) fallback = value

abbrev pub is_one_of : Text → List Text → Bool
is_one_of value words = any (λ word. list_beq value word) words

unfoldable pub parse_app_environment : Text → Outcome AppEnvironment
parse_app_environment value =
    let name = to_ascii_lowercase (trim value) in
    if is_one_of name (codes "development" ∷ codes "dev" ∷ [])
    then ok development
    else if is_one_of name (codes "production" ∷ codes "prod" ∷ [])
    then ok production
    else err (codes "APP_ENV must be development or production")

module _ (env : Text → Option Text) where
  unfoldable pub env_value : Text → Text → Text
  env_value key fallback = get_or (env key) fallback

  abbrev pub non_blank : Option Text → Option Text
  non_blank none = none
  non_blank (some value) = if is_empty (trim value) then none else some value

  -- A value that is blank counts as unset.
  unfoldable pub optional_env_value : Text → Option Text
  optional_env_value key = non_blank (env key)

  abbrev pub parse_set : Text → ℕ → ℕ → Option Text → Outcome ℕ
  parse_set key limit fallback none = ok fallback
  parse_set key limit fallback (some value) =
      ok_or (parse_unsigned limit (trim value)) (key ++ codes " has an invalid value")

  -- At an unsigned type whose greatest number is `limit`.
  unfoldable pub parsed_env_value : ℕ → Text → ℕ → Outcome ℕ
  unfolding optional_env_value
  parsed_env_value limit key fallback = parse_set key limit fallback (optional_env_value key)

  abbrev parse_flag : Text → Bool → Option Text → Outcome Bool
  parse_flag key fallback none = ok fallback
  parse_flag key fallback (some value) =
      let word = to_ascii_lowercase (trim value) in
      if is_one_of word (codes "true" ∷ codes "1" ∷ codes "yes" ∷ codes "on" ∷ [])
      then ok true
      else if is_one_of word (codes "false" ∷ codes "0" ∷ codes "no" ∷ codes "off" ∷ [])
      then ok false
      else err (key ++ codes " must be true or false")

  unfoldable pub bool_env_value : Text → Bool → Outcome Bool
  unfolding optional_env_value
  bool_env_value key fallback = parse_flag key fallback (optional_env_value key)

  module _ (f : F32) (parse_f32 : Text → Option f.Carrier) where
    abbrev finite_only : Text → Option f.Carrier → Outcome (Option f.Carrier)
    finite_only key none = err (key ++ codes " must be a number")
    finite_only key (some parsed) =
        if f.is_finite parsed
        then ok (some parsed)
        else err (key ++ codes " must be a finite number")

    abbrev parse_number : Text → Option Text → Outcome (Option f.Carrier)
    parse_number key none = ok none
    parse_number key (some value) = finite_only key (parse_f32 (trim value))

    unfoldable pub optional_f32_env_value : Text → Outcome (Option f.Carrier)
    unfolding optional_env_value
    optional_f32_env_value key = parse_number key (optional_env_value key)

module _ {IpNet : Type 0} (parse_cidr : Text → Option IpNet) where
  abbrev cidr_at : Text → Outcome IpNet
  cidr_at cidr =
      if is_empty cidr
      then err (codes "TRUSTED_PROXY_CIDRS contains an invalid CIDR")
      else ok_or (parse_cidr cidr) (codes "TRUSTED_PROXY_CIDRS contains an invalid CIDR: " ++ cidr)

  -- The first entry that is wrong is reported.
  collect_cidrs : List Text → Outcome (List IpNet)
  collect_cidrs [] = ok []
  collect_cidrs (entry ∷ entries) = do
    cidr ← cidr_at (trim entry)
    cidrs ← collect_cidrs entries
    ok (cidr ∷ cidrs)

  unfoldable pub parse_trusted_proxy_cidrs : Text → Outcome (List IpNet)
  unfolding collect_cidrs
  parse_trusted_proxy_cidrs value =
      if is_empty (trim value) then ok [] else collect_cidrs (split b',' value)
