-- ===== src/Quota/Daily.antt =====
-- apps/api/src/chat/messages.rs: the daily quota around a generation. What the provider answers and
-- what becomes of the append are arguments.
use wfchat.Base.{
  ℕ, ◌+◌, min, Bool, true, false, not, Option, none, some, Text, codes, if◌then◌else◌, ltb, length,
  u64_max,
}
use wfchat.Cafe.F32.{F32}
use wfchat.Config.{Config}
use wfchat.Config.Validate.{is_production}
use wfchat.Errors.{
  AppResult, ok, err, AppError, ErrorReason, reasoned, forbidden, not_found, database,
  daily_quota_limit, global_daily_generation_limit, assistant_output_size_limit, chat_storage_limit,
  limit_retry_after_seconds,
}
use wfchat.Quota.{QuotaTables}
use wfchat.Quota.Counters.{on_result}
use wfchat.Quota.Settle.{
  mark_chat_generation_provider_started, release_chat_generation_quota,
  commit_chat_generation_quota,
}
use wfchat.Quota.Reserve.{
  QuotaLimits, QuotaCall, AuthSession, ChatGenerationQuotaAdmission, admitted, session_unavailable,
  owner_limit_reached, global_limit_reached, reserve_chat_generation_quota,
}

-- Seconds that are added stop at the greatest number.
unfoldable pub quota_limits : {f : F32} {IpNet : Type 0} → Config f IpNet → QuotaLimits
quota_limits config =
    let chat = config.security.chat in
    record {
      registered_limit = chat.registered_daily_quota;
      guest_limit = chat.guest_daily_quota;
      global_limit = chat.global_daily_generation_limit;
      stale_after_seconds = min u64_max (chat.ai_total_timeout_seconds + limit_retry_after_seconds);
    }

abbrev too_many : {A : Type 0} → ErrorReason → ℕ → AppResult A
too_many why seconds = err (reasoned 429 (codes "too many requests") why (some seconds))

abbrev admission_result : ChatGenerationQuotaAdmission → AppResult (Option ℕ)
admission_result (admitted id) = ok (some id)
admission_result session_unavailable = err forbidden
admission_result (owner_limit_reached seconds) = too_many daily_quota_limit seconds
admission_result (global_limit_reached seconds) = too_many global_daily_generation_limit seconds

unfoldable pub reserve_daily_generation_quota :
    {f : F32} {IpNet : Type 0}
    → Config f IpNet
    → QuotaCall
    → Option AuthSession
    → QuotaTables
    → QuotaTables × AppResult (Option ℕ)
reserve_daily_generation_quota config call session tables =
    if not (is_production config)
    then (tables, ok none)
    else on_result (λ r. (r.0, admission_result r.1)) (tables, err database)
        (reserve_chat_generation_quota (quota_limits config) call session tables)

abbrev started_result : QuotaTables × Bool → QuotaTables × AppResult (Unit {0})
started_result (tables, true) = (tables, ok tt)
started_result (tables, false) = (tables, err database)

unfoldable pub mark_daily_generation_provider_started :
    ℕ → Option ℕ → QuotaTables → QuotaTables × AppResult (Unit {0})
mark_daily_generation_provider_started now none tables = (tables, ok tt)
mark_daily_generation_provider_started now (some id) tables =
    on_result started_result (tables, err database)
      (mark_chat_generation_provider_started now id tables)

-- A failure is only logged.
unfoldable pub release_daily_generation_quota : ℕ → Option ℕ → QuotaTables → QuotaTables
release_daily_generation_quota now none tables = tables
release_daily_generation_quota now (some id) tables =
    on_result (λ t. t) tables (release_chat_generation_quota now id tables)

unfoldable pub output_limit_error : AppError
output_limit_error =
    reasoned 502 (codes "assistant response failed") assistant_output_size_limit none

unfoldable pub ensure_output_within_limit : Text → ℕ → AppResult (Unit {0})
unfolding output_limit_error
ensure_output_within_limit text max_chars =
    if ltb max_chars (length text) then err output_limit_error else ok tt

unfoldable pub chat_storage_limit_error : AppError
chat_storage_limit_error =
    reasoned 409 (codes "conflict: chat message limit reached") chat_storage_limit none

-- What the append of a turn comes to. `failed` is an error of the database before the reservation is
-- committed, `unread` one after the transaction, when the attachments of the turn are read.
pub data AppendChatMessagesOutcome : Type 0 where
  appended unavailable limit_reached failed unread : AppendChatMessagesOutcome

-- The clocks of the steps, the provider's answer and the append's outcome.
pub record GenerationRun : Type 0 where
  pub started_at : ℕ
  pub answer : AppResult Text
  pub append : AppendChatMessagesOutcome
  pub appended_at : ℕ
  pub released_at : ℕ

module _ (run : GenerationRun) (max_chars : ℕ) where
  abbrev pub commit_turn : Option ℕ → QuotaTables → QuotaTables × AppResult (Unit {0})
  commit_turn none tables = (tables, ok tt)
  commit_turn (some id) tables =
      on_result (λ t. (t, ok tt)) (tables, err database)
        (commit_chat_generation_quota run.appended_at id tables)

  -- `self.attachments_for_message(user_message.id).await?`, of a turn that is saved.
  abbrev pub read_attachments :
      Bool → QuotaTables × AppResult (Unit {0}) → QuotaTables × AppResult (Unit {0})
  read_attachments is_read (tables, err e) = (tables, err e)
  read_attachments true (tables, ok u) = (tables, ok u)
  read_attachments false (tables, ok u) = (tables, err database)

  abbrev pub append_turn :
      AppendChatMessagesOutcome → Option ℕ → QuotaTables → QuotaTables × AppResult (Unit {0})
  append_turn appended reservation tables = read_attachments true (commit_turn reservation tables)
  append_turn unread reservation tables = read_attachments false (commit_turn reservation tables)
  append_turn unavailable reservation tables = (tables, err not_found)
  append_turn limit_reached reservation tables = (tables, err chat_storage_limit_error)
  append_turn failed reservation tables = (tables, err database)

  abbrev pub check_output :
      AppResult (Unit {0}) → Option ℕ → QuotaTables → QuotaTables × AppResult (Unit {0})
  check_output (err e) reservation tables = (tables, err e)
  check_output (ok u) reservation tables = append_turn run.append reservation tables

  abbrev pub take_answer :
      AppResult Text → Option ℕ → QuotaTables → QuotaTables × AppResult (Unit {0})
  take_answer (err e) reservation tables = (tables, err e)
  take_answer (ok text) reservation tables =
      check_output (ensure_output_within_limit text max_chars) reservation tables

  abbrev pub ask_provider :
      Option ℕ → QuotaTables × AppResult (Unit {0}) → QuotaTables × AppResult (Unit {0})
  ask_provider reservation (tables, err e) = (tables, err e)
  ask_provider reservation (tables, ok u) = take_answer run.answer reservation tables

  abbrev pub release_on_error :
      Option ℕ → QuotaTables × AppResult (Unit {0}) → QuotaTables × AppResult (Unit {0})
  release_on_error reservation (tables, ok u) = (tables, ok u)
  release_on_error reservation (tables, err e) =
      (release_daily_generation_quota run.released_at reservation tables, err e)

  unfoldable pub complete_and_append_chat_message :
      Option ℕ → QuotaTables → QuotaTables × AppResult (Unit {0})
  unfolding ensure_output_within_limit chat_storage_limit_error
      mark_daily_generation_provider_started release_daily_generation_quota
  complete_and_append_chat_message reservation tables = release_on_error reservation (
      ask_provider reservation
        (mark_daily_generation_provider_started run.started_at reservation tables))
