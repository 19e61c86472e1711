-- ===== src/Chat/Output.antt =====
-- apps/api/src/chat/messages.rs: `reserve_output_chunk`, on the counter that the chunks share.
use wfchat.Base.{
  ℕ, ◌+◌, ◌≤◌, ◌≡◌, List, [], ◌∷◌, ◌++◌, Option, none, some, Text, length, length-append, usize_max,
  if◌then◌else◌, leb, arith,
}
use wfchat.Errors.{AppResult, ok, err, is_ok}
use wfchat.Quota.Daily.{output_limit_error, ensure_output_within_limit}
use wfchat.Chat.Context.{checked_add}

abbrev reserve_next : ℕ → ℕ → Option ℕ → ℕ × AppResult (Unit {0})
reserve_next counter max_chars none = (counter, err output_limit_error)
reserve_next counter max_chars (some next) =
    if leb next max_chars then (next, ok tt) else (counter, err output_limit_error)

unfoldable pub reserve_output_chunk : ℕ → Text → ℕ → ℕ × AppResult (Unit {0})
reserve_output_chunk counter chunk max_chars =
    reserve_next counter max_chars (checked_add (some counter) (length chunk))

-- The chunks of an answer, of which the first that is refused ends it; gives what was sent.
unfoldable pub send_chunks : ℕ → ℕ → List Text → List Text × AppResult (Unit {0})
unfolding reserve_output_chunk
send_chunks counter max_chars [] = ([], ok tt)
send_chunks counter max_chars (chunk ∷ chunks) =
    let (next, reserved) = reserve_output_chunk counter chunk max_chars in
    let (sent, result) = send_chunks next max_chars chunks in
    if is_ok reserved then (chunk ∷ sent, result) else ([], reserved)

abbrev pub concat : List Text → Text
concat [] = []
concat (chunk ∷ chunks) = chunk ++ concat chunks

send_chunks-is_ok :
    (counter max_chars : ℕ) (chunks : List Text)
    → max_chars ≤ usize_max
    → counter ≤ max_chars
    → is_ok (send_chunks counter max_chars chunks).1
      ≡ leb (counter + length (concat chunks)) max_chars
unfolding send_chunks reserve_output_chunk
send_chunks-is_ok counter max_chars [] fits le = ground arith
send_chunks-is_ok counter max_chars (chunk ∷ chunks) fits le = ground (
  arith,
  length-append chunk (concat chunks),
  send_chunks-is_ok (counter + length chunk) max_chars chunks fits,
)

sent-le :
    (counter max_chars : ℕ) (chunks : List Text)
    → counter ≤ max_chars
    → counter + length (concat (send_chunks counter max_chars chunks).0) ≤ max_chars
unfolding send_chunks reserve_output_chunk
sent-le counter max_chars [] le = ground arith
sent-le counter max_chars (chunk ∷ chunks) le = ground (
  arith,
  length-append chunk (concat (send_chunks (counter + length chunk) max_chars chunks).0),
  sent-le (counter + length chunk) max_chars chunks,
)

-- A streamed answer passes chunk by chunk exactly where the whole of it passes at once, and no more than
-- the limit is ever sent. (The limit is a `usize`.)
pub send_chunks-ensure_output_within_limit :
    (max_chars : ℕ) (chunks : List Text)
    → max_chars ≤ usize_max
    → (is_ok (send_chunks 0 max_chars chunks).1
        ≡ is_ok (ensure_output_within_limit (concat chunks) max_chars))
      × (length (concat (send_chunks 0 max_chars chunks).0) ≤ max_chars)
unfolding ensure_output_within_limit
send_chunks-ensure_output_within_limit max_chars chunks fits = (
  ground (arith, send_chunks-is_ok 0 max_chars chunks fits),
  ground (arith, sent-le 0 max_chars chunks),
)
