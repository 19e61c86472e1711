-- ===== src/Errors.antt =====
-- apps/api/src/error.rs: the errors that the handlers return, and their HTTP statuses.
use wfchat.Base.{Bool, true, false, ℕ, ◌≡◌, ◌⊎◌, ◌++◌, Option, none, some, Text, codes, arith}

pub data ErrorReason : Type 0 where
  chat_request_rate generation_process_capacity generation_session_capacity : ErrorReason
  chat_generation_active daily_quota_limit global_daily_generation_limit : ErrorReason
  owner_chat_limit chat_storage_limit message_size_limit request_size_limit : ErrorReason
  assistant_output_size_limit image_size_limit image_count_limit : ErrorReason
  image_upload_rate image_processing_capacity image_storage_limit : ErrorReason
  cafe_socket_capacity cafe_room_creation_rate : ErrorReason

abbrev pub limit_retry_after_seconds : ℕ
limit_retry_after_seconds = 60

-- A status is its number.
pub data AppError : Type 0 where
  not_found forbidden : AppError
  bad_request : Text → AppError
  payload_too_large : AppError
  conflict : Text → AppError
  ai : Text → AppError
  database rate_limited client_disconnected : AppError
  reasoned : ℕ → Text → ErrorReason → Option ℕ → AppError

pub data AppResult {ℓ} (A : Type ℓ) : Type ℓ where
  ok : A → AppResult A
  err : AppError → AppResult A

abbrev pub is_ok {ℓ} : {A : Type ℓ} → AppResult A → Bool
is_ok (ok a) = true
is_ok (err e) = false

unfoldable pub reason : AppError → Option ErrorReason
reason (reasoned status message r retry) = some r
reason _ = none

unfoldable pub retry_after_seconds : AppError → Option ℕ
retry_after_seconds rate_limited = some limit_retry_after_seconds
retry_after_seconds (reasoned status message r retry) = retry
retry_after_seconds _ = none

body_retry_after_seconds : AppError → Option ℕ
body_retry_after_seconds (reasoned status message r retry) = retry
body_retry_after_seconds _ = none

unfoldable pub status : AppError → ℕ
status not_found = 404
status forbidden = 403
status (bad_request message) = 400
status payload_too_large = 413
status (conflict message) = 409
status (ai message) = 502
status database = 500
status rate_limited = 429
status client_disconnected = 408
status (reasoned code message r retry) = code

-- `to_string`, from the `#[error(...)]` attributes.
to_string : AppError → Text
to_string not_found = codes "not found"
to_string forbidden = codes "forbidden"
to_string (bad_request message) = codes "bad request: " ++ message
to_string payload_too_large = codes "payload too large"
to_string (conflict message) = codes "conflict: " ++ message
to_string (ai message) = codes "upstream ai error: " ++ message
to_string database = codes "database error"
to_string rate_limited = codes "too many requests"
to_string client_disconnected = codes "client disconnected"
to_string (reasoned code message r retry) = message

error_text : AppError → Text
unfolding to_string
error_text (ai message) = codes "assistant response failed"
error_text client_disconnected = codes "request canceled"
error_text e = to_string e

-- The status, the body's fields, and the number in the `Retry-After` header.
pub record Response : Type 0 where
  pub status_code : ℕ
  pub error : Text
  pub error_reason : Option ErrorReason
  pub body_retry : Option ℕ
  pub retry_after : Option ℕ

unfoldable pub into_response : AppError → Response
unfolding status error_text reason body_retry_after_seconds retry_after_seconds
into_response e = record {
  status_code = status e;
  error = error_text e;
  error_reason = reason e;
  body_retry = body_retry_after_seconds e;
  retry_after = retry_after_seconds e;
}

-- What the upstream model said does not reach the client, and a wait that the body names is the
-- header's.
pub into_response_discloses :
    (e : AppError) (a b : Text)
    → (into_response (ai a) ≡ into_response (ai b))
      × (((into_response e).body_retry ≡ none)
          ⊎ ((into_response e).body_retry ≡ (into_response e).retry_after))
unfolding into_response
into_response_discloses e a b = ground arith
