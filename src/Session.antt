-- ===== src/Session.antt =====
-- apps/api/src/session.rs: the session's cookie, and the session that a request names. `print_uuid` and
-- `parse_uuid` are the crate `uuid`'s; a header that is not text counts as absent.
pub mod Cookies
use wfchat.Base.{
  ℕ, Bool, true, false, not, ◌&&◌, ◌||◌, List, [], ◌∷◌, ◌++◌, Option, none, some, Text, codes, map,
  any, split, trim, is_empty, list_beq, nat_beq, nat_eq, if◌then◌else◌,
}
use wfchat.Cafe.F32.{F32}
use wfchat.Config.{Config}
use wfchat.Config.Validate.{is_production}
use wfchat.Config.Origin.{starts_with}

abbrev pub session_cookie_name : Text
session_cookie_name = codes "wfchat_session"

abbrev prepend : ℕ → Option (Text × Text) → Option (Text × Text)
prepend c none = none
prepend c (some (s, t)) = some (c ∷ s, t)

-- `split_once`.
unfoldable pub split_once : ℕ → Text → Option (Text × Text)
split_once sep [] = none
split_once sep (c ∷ s) = if nat_beq c sep then some ([], s) else prepend c (split_once sep s)

module _ {f : F32} {IpNet : Type 0} where
  unfoldable pub should_use_secure_cookie : Config f IpNet → Bool
  unfolding is_production
  should_use_secure_cookie config =
      is_production config
      || any
          (λ origin. not (is_empty (trim origin)) && starts_with (codes "https://") (trim origin))
          (split b',' config.frontend_origin)

  module _ (print_uuid : ℕ → Text) where
    unfoldable pub session_cookie : Config f IpNet → ℕ → Text
    unfolding should_use_secure_cookie
    session_cookie config session_id =
        session_cookie_name
        ++ (b'=' ∷ print_uuid session_id
            ++ (codes "; Path=/; HttpOnly; SameSite=Lax; Max-Age=2592000"
                ++ (if should_use_secure_cookie config then codes "; Secure" else [])))

abbrev pub or_else : Option ℕ → Option ℕ → Option ℕ
or_else none other = other
or_else (some id) other = some id

module _ (parse_uuid : Text → Option ℕ) where
  abbrev pub named_session : Option (Text × Text) → Option ℕ
  named_session none = none
  named_session (some (name, value)) =
      if list_beq name session_cookie_name then parse_uuid value else none

  -- `find_map` over the cookies.
  unfoldable pub find_session : List Text → Option ℕ
  unfolding split_once
  find_session [] = none
  find_session (cookie ∷ cookies) =
      or_else (named_session (split_once b'=' (trim cookie))) (find_session cookies)

  abbrev pub found_in : Option Text → Option ℕ
  found_in none = none
  found_in (some cookies) = find_session (split b';' cookies)

  -- `cookie` is the header `cookie`.
  unfoldable pub session_id_from_cookie : Option Text → Option ℕ
  unfolding find_session
  session_id_from_cookie cookie = found_in cookie

  abbrev parsed_header : Option Text → Option ℕ
  parsed_header none = none
  parsed_header (some value) = parse_uuid value

  unfoldable pub session_id_from_header : Option Text → Option ℕ
  session_id_from_header header = parsed_header header

  module _ {f : F32} {IpNet : Type 0} where
    -- The headers `cookie` and `x-wfchat-session`.
    unfoldable pub session_id_from_headers : Config f IpNet → Option Text → Option Text → Option ℕ
    unfolding session_id_from_cookie session_id_from_header
    session_id_from_headers config cookie header =
        or_else (session_id_from_cookie cookie)
          (if config.security.allow_session_header then session_id_from_header header else none)
