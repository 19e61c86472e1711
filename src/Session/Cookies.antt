-- ===== src/Session/Cookies.antt =====
-- A cookie of a session that the server sets is the session that it reads.
use wfchat.Base.{
  ℕ, ◌≡◌, refl, ap, ◌∙◌, true, List, [], ◌∷◌, ◌++◌, Option, none, some, Text, all, split, trim,
  arith, is_solid, is_other, trim-solid, split-other, split-append, push_head, nat_eq,
  is_whitespace, trim_start,
}
use mathlib.Core.List.{append-nil}
use wfchat.Cafe.F32.{F32}
use wfchat.Config.{Config}
use wfchat.Session.{
  session_cookie_name, split_once, session_cookie, find_session, session_id_from_cookie,
  named_session,
}

-- What is relied on of the crate `uuid`: an id that is printed is read back, and is hexadecimal digits and
-- dashes.
pub record IsUuidText (print_uuid : ℕ → Text) (parse_uuid : Text → Option ℕ) : Type 0 where
  pub read_back : (id : ℕ) → parse_uuid (print_uuid id) ≡ some id
  pub solid : (id : ℕ) → all is_solid (print_uuid id) ≡ true
  pub no_semicolon : (id : ℕ) → all (is_other b';') (print_uuid id) ≡ true

abbrev pub session_pair : (ℕ → Text) → ℕ → Text
session_pair print_uuid id = session_cookie_name ++ b'=' ∷ print_uuid id

-- The cookies after it, if any.
abbrev pub followed_by : Option Text → Text
followed_by none = []
followed_by (some rest) = b';' ∷ rest

abbrev later : Option Text → List Text
later none = []
later (some rest) = split b';' rest

module _ (print_uuid : ℕ → Text) (parse_uuid : Text → Option ℕ)
    (uuid : IsUuidText print_uuid parse_uuid) (id : ℕ) where
  pair-solid : all is_solid (session_pair print_uuid id) ≡ true
  unfolding is_whitespace
  pair-solid = uuid.solid id

  pair-no_semicolon : all (is_other b';') (session_pair print_uuid id) ≡ true
  pair-no_semicolon = uuid.no_semicolon id

  split_once-pair :
      split_once b'=' (session_pair print_uuid id) ≡ some (session_cookie_name, print_uuid id)
  unfolding split_once
  split_once-pair = refl

  split-pair-append :
      (rest : Text)
      → split b';' (session_pair print_uuid id ++ b';' ∷ rest)
        ≡ session_pair print_uuid id ∷ split b';' rest
  split-pair-append rest =
      split-append b';' (session_pair print_uuid id) rest
      ∙ ap (λ ss. ss ++ split b';' rest)
          (split-other b';' (session_pair print_uuid id) pair-no_semicolon)

  named : named_session parse_uuid (split_once b'=' (trim (session_pair print_uuid id))) ≡ some id
  named =
      rw (trim-solid (session_pair print_uuid id) pair-solid, split_once-pair) (uuid.read_back id)

  find_session-pair :
      (rest : List Text) → find_session parse_uuid (session_pair print_uuid id ∷ rest) ≡ some id
  unfolding find_session
  find_session-pair rest = rw named refl

  -- A client that returns the cookie is known again, with the attributes that it was set with.
  -- (An id that is printed is read back, and has neither white space nor semicolons.)
  pub session_id_from_cookie-session_cookie :
      {f : F32} {IpNet : Type 0} (config : Config f IpNet)
      → session_id_from_cookie parse_uuid (some (session_cookie print_uuid config id)) ≡ some id
  unfolding session_id_from_cookie session_cookie
  session_id_from_cookie-session_cookie config = rw (split-pair-append _) (find_session-pair _)

  split-pair-followed_by :
      (rest : Option Text)
      → split b';' (session_pair print_uuid id ++ followed_by rest)
        ≡ session_pair print_uuid id ∷ later rest
  split-pair-followed_by none =
      ap (split b';') (append-nil (session_pair print_uuid id))
      ∙ split-other b';' (session_pair print_uuid id) pair-no_semicolon
  split-pair-followed_by (some rest) = split-pair-append rest

  spaced :
      named_session parse_uuid (split_once b'=' (trim (b' ' ∷ session_pair print_uuid id)))
      ≡ some id
  unfolding trim trim_start is_whitespace
  spaced = named

  split-spaced :
      (rest : Option Text)
      → split b';' (b' ' ∷ (session_pair print_uuid id ++ followed_by rest))
        ≡ (b' ' ∷ session_pair print_uuid id) ∷ later rest
  unfolding split
  split-spaced rest = ap (push_head b' ') (split-pair-followed_by rest)

  find_session-after :
      (before after : List Text)
      → find_session parse_uuid before ≡ none
      → find_session parse_uuid (before ++ (b' ' ∷ session_pair print_uuid id) ∷ after) ≡ some id
  unfolding find_session
  find_session-after [] after h = rw spaced refl
  find_session-after (cookie ∷ before) after h = ground (arith, find_session-after before after)

  -- Among other cookies, of which none before it names a session, the cookie of a session is found.
  pub session_id_from_cookie-others :
      (before : Text) (rest : Option Text)
      → session_id_from_cookie parse_uuid (some before) ≡ none
      → session_id_from_cookie parse_uuid
          (some (before ++ b';' ∷ (b' ' ∷ (session_pair print_uuid id ++ followed_by rest))))
        ≡ some id
  unfolding session_id_from_cookie
  session_id_from_cookie-others before rest h =
      ap (find_session parse_uuid) (
        split-append b';' before (b' ' ∷ (session_pair print_uuid id ++ followed_by rest))
        ∙ ap (λ cookies. split b';' before ++ cookies) (split-spaced rest))
      ∙ find_session-after (split b';' before) (later rest) h
