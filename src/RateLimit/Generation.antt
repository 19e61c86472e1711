-- ===== src/RateLimit/Generation.antt =====
-- apps/api/src/rate_limit.rs: `GenerationLimiter`, which bounds the generations that run at once.
-- The semaphore of the crate `tokio` is the number of its free permits.
pub mod Invariant
pub mod Runs
use wfchat.Base.{
  ℕ, suc, ◌+◌, ◌-◌, Bool, true, false, List, [], ◌∷◌, Option, none, some, Map, lookup, insert,
  modify, nat_eq, remove, leb, nat_beq, if◌then◌else◌, filter, not, any, codes,
}
use wfchat.Errors.{
  AppError, AppResult, ok, err, conflict, reasoned, ErrorReason, generation_process_capacity,
  generation_session_capacity, chat_generation_active, limit_retry_after_seconds,
}

-- `chats` is the `HashSet` of the chats that generate, `sessions` counts the permits of each session.
pub record Limiter : Type 0 where
  pub chats : List ℕ
  pub sessions : Map ℕ ℕ
  pub global : ℕ
  pub max_per_session : ℕ

pub record GenerationPermit : Type 0 where
  pub session_id : Option ℕ
  pub chat_id : ℕ
  pub holds_global : Bool

unfoldable pub new : ℕ → ℕ → Limiter
new max_global max_per_session = record {
  chats = [];
  sessions = [];
  global = max_global;
  max_per_session = max_per_session;
}

abbrev pub generation_limit_error : ErrorReason → AppError
generation_limit_error reason =
    reasoned 429 (codes "too many requests") reason (some limit_retry_after_seconds)

abbrev pub or_zero : Option ℕ → ℕ
or_zero none = 0
or_zero (some n) = n

abbrev pub contains : ℕ → List ℕ → Bool
contains id ids = any (λ other. nat_beq other id) ids

-- The removal from the `HashSet`.
abbrev pub without : ℕ → List ℕ → List ℕ
without id ids = filter (λ other. not (nat_beq other id)) ids

unfoldable pub try_acquire : ℕ → ℕ → Limiter → Limiter × AppResult GenerationPermit
try_acquire session_id chat_id limiter =
    if contains chat_id limiter.chats
    then (limiter, err (generation_limit_error chat_generation_active))
    else if leb limiter.max_per_session (or_zero (lookup session_id limiter.sessions))
    then (limiter, err (generation_limit_error generation_session_capacity))
    else if nat_beq limiter.global 0
    then (limiter, err (generation_limit_error generation_process_capacity))
    else (
      record limiter {
        chats = chat_id ∷ limiter.chats;
        sessions =
            insert session_id (or_zero (lookup session_id limiter.sessions) + 1) limiter.sessions;
        global = limiter.global - 1;
      },
      ok (record { session_id = some session_id; chat_id = chat_id; holds_global = true }),
    )

unfoldable pub try_acquire_clear : ℕ → Limiter → Limiter × AppResult GenerationPermit
try_acquire_clear chat_id limiter =
    if contains chat_id limiter.chats
    then (limiter, err (conflict (codes "chat generation in progress")))
    else (
      record limiter { chats = chat_id ∷ limiter.chats },
      ok (record { session_id = none; chat_id = chat_id; holds_global = false }),
    )

-- `saturating_sub(1)`, and the entry goes at 0.
abbrev lower : ℕ → Option ℕ → Map ℕ ℕ → Map ℕ ℕ
lower session_id none sessions = sessions
lower session_id (some count) sessions =
    if nat_beq (count - 1) 0
    then remove session_id sessions
    else insert session_id (count - 1) sessions

abbrev release_session : Option ℕ → Map ℕ ℕ → Map ℕ ℕ
release_session none sessions = sessions
release_session (some session_id) sessions = lower session_id (lookup session_id sessions) sessions

-- `Drop`: the body, and then the semaphore's permit that the fields hold.
unfoldable pub drop_permit : GenerationPermit → Limiter → Limiter
drop_permit permit limiter = record limiter {
  chats = without permit.chat_id limiter.chats;
  sessions = release_session permit.session_id limiter.sessions;
  global = if permit.holds_global then limiter.global + 1 else limiter.global;
}
