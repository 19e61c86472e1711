-- ===== src/Config/Printed.antt =====
-- apps/api/src/config.rs: what becomes of one variable that holds a number.
use wfchat.Base.{ℕ, ◌≤◌, ◌≡◌, Option, some, Text, arith, show}
use wfchat.Base.Digits.{trim-show, is_empty-show, parse_unsigned-show}
use wfchat.Base.Results.{ok}
use wfchat.Config.Values.{parsed_env_value, optional_env_value}

module _ (env : Text → Option Text) (limit : ℕ) (key : Text) (fallback : ℕ) where
  -- A number that is printed into a variable, with no sign and no leading zeros, is the number that is
  -- read from it. (It fits the type.)
  pub parsed_env_value-show :
      (n : ℕ) → n ≤ limit → env key ≡ some (show n) → parsed_env_value env limit key fallback ≡ ok n
  unfolding parsed_env_value optional_env_value
  parsed_env_value-show n le set =
      rw set (ground (arith, trim-show n, is_empty-show n, parse_unsigned-show limit n le))
