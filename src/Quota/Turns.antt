-- ===== src/Quota/Turns.antt =====
-- apps/api/src/chat/messages.rs: what becomes of the reservation of a generation.
use wfchat.Base.{
  ℕ, ◌+◌, ◌≡◌, refl, not, ◌&&◌, if◌then◌else◌, modify, Bool, true, false, Option, none, some, Text,
  lookup, arith, lookup-modify, nat_eq,
}
use wfchat.Base.Results as results
use wfchat.Errors.{AppResult, ok, err, is_ok, AppError, not_found, database}
use wfchat.Quota.{
  Reservation, QuotaTables, owner_reserved, owner_committed, owner_released, global_reserved,
  global_consumed, OwnerDay, owner_day, owner_day_beq, owner_day_beq_iff,
}
use wfchat.Quota.Settle.{
  mark_chat_generation_provider_started, release_chat_generation_quota,
  commit_chat_generation_quota, give_back, released, started, committed,
}
use wfchat.Quota.Reserve.{QuotaLimits}
use wfchat.Quota.Usage.{consume_global_quota_lem, usage, usage-lowered, consumed}
use wfchat.Quota.Invariant.{
  Covers, started_tables, started_tables-Covers, released_tables, give_back_lem, global_charged,
  owner_charged, committed_tables,
}
use wfchat.Quota.Daily.{
  GenerationRun, complete_and_append_chat_message, mark_daily_generation_provider_started,
  release_daily_generation_quota, ensure_output_within_limit, AppendChatMessagesOutcome, appended,
  unavailable, limit_reached, failed, unread, release_on_error, take_answer, check_output,
  append_turn, chat_storage_limit_error,
}

abbrev pub IsReserved : Reservation → Type 0
IsReserved row = (row.owner_state ≡ owner_reserved) × (row.global_state ≡ global_reserved)

abbrev saves_turn : AppendChatMessagesOutcome → Bool
saves_turn appended = true
saves_turn unread = true
saves_turn _ = false

abbrev saves_checked : AppResult (Unit {0}) → AppendChatMessagesOutcome → Bool
saves_checked (ok u) outcome = saves_turn outcome
saves_checked (err e) outcome = false

abbrev saves_answer : ℕ → AppResult Text → AppendChatMessagesOutcome → Bool
saves_answer max_chars (ok text) outcome =
    saves_checked (ensure_output_within_limit text max_chars) outcome
saves_answer max_chars (err e) outcome = false

-- The turn is written: the provider answered, no longer than it may, and the transaction committed.
abbrev pub is_saved : GenerationRun → ℕ → Bool
is_saved run max_chars = saves_answer max_chars run.answer run.append

-- The states of a reservation whose turn was saved, or was not.
abbrev pub HasStates : Bool → Option Reservation → Type 0
HasStates saved none = ⊥
HasStates true (some row) =
    (row.owner_state ≡ owner_committed) × (row.global_state ≡ global_consumed)
HasStates false (some row) =
    (row.owner_state ≡ owner_released) × (row.global_state ≡ global_consumed)

-- The owner's counter is lowered by one where the turn was not saved, and no other counter of an owner
-- is; the provider's call is charged to the day.
pub record IsCharged (is_kept : Bool) (row : Reservation) (before after : QuotaTables)
    : Type 0 where
  pub owners :
      (key : OwnerDay)
      → usage key after.owner_quotas
          + (if not is_kept && owner_day_beq (owner_day row) key then 1 else 0)
        ≡ usage key before.owner_quotas
  pub globals : after.global_quotas ≡ consumed row.quota_date before.global_quotas

module _ (today : ℕ) (limits : QuotaLimits) (id : ℕ) (tables : QuotaTables)
    (h : Covers today limits tables) (row : Reservation)
    (found : lookup id tables.reservations ≡ some row) (unsettled : IsReserved row) where
  module _ (now : ℕ) where
    abbrev under_way : QuotaTables
    under_way = started_tables today limits now id tables h row found

    under_way-Covers : Covers today limits under_way
    under_way-Covers =
        started_tables-Covers today limits now id tables h row found (ground (arith, unsettled))

    found_under_way : lookup id under_way.reservations ≡ some (started now row)
    found_under_way = ground (arith, found, lookup-modify id id (started now) tables.reservations)

    mark_lem : mark_daily_generation_provider_started now (some id) tables ≡ (under_way, ok tt)
    unfolding mark_daily_generation_provider_started mark_chat_generation_provider_started
    mark_lem = ground (
      arith,
      found,
      unsettled,
      consume_global_quota_lem row.quota_date tables.global_quotas
          (global_charged today limits now id tables h row found (ground (arith, unsettled))),
    )

    module _ (later : ℕ) where
      abbrev given_up : QuotaTables
      given_up =
          released_tables today limits later id under_way under_way-Covers (started now row)
            found_under_way

      release_lem : release_daily_generation_quota later (some id) under_way ≡ given_up
      unfolding release_daily_generation_quota release_chat_generation_quota
      release_lem = ground (
        arith,
        found_under_way,
        give_back_lem today limits later id under_way under_way-Covers (started now row)
            found_under_way,
      )

      given_up-HasStates : HasStates false (lookup id given_up.reservations)
      given_up-HasStates = ground (
        arith,
        found_under_way,
        unsettled,
        lookup-modify id id (released later) under_way.reservations,
      )

      given_up-IsCharged : IsCharged false row tables given_up
      given_up-IsCharged = record {
        owners = λ key. ground (
          arith,
          unsettled,
          owner_charged today limits later id under_way under_way-Covers (started now row)
              found_under_way,
          usage-lowered (owner_day row) key 1 tables.owner_quotas,
          owner_day_beq_iff (owner_day row) key,
        );
        globals = ground (arith, unsettled);
      }

      abbrev saved : QuotaTables
      saved =
          committed_tables today limits later id under_way under_way-Covers (started now row)
            found_under_way

      commit_lem : commit_chat_generation_quota later id under_way ≡ results.ok saved
      unfolding commit_chat_generation_quota
      commit_lem = ground (arith, found_under_way, unsettled)

      saved-HasStates : HasStates true (lookup id saved.reservations)
      saved-HasStates = ground (
        arith,
        found_under_way,
        unsettled,
        lookup-modify id id (committed later) under_way.reservations,
      )

    module _ (later last : ℕ) where
      -- What was committed is not given back.
      abbrev kept : QuotaTables
      kept = record (saved later) {
        reservations = modify id (released last) (saved later).reservations;
      }

      found_saved : lookup id (saved later).reservations ≡ some (committed later (started now row))
      found_saved =
          ground
            (arith, found_under_way, lookup-modify id id (committed later) under_way.reservations)

      keep_lem : release_daily_generation_quota last (some id) (saved later) ≡ kept
      unfolding release_daily_generation_quota release_chat_generation_quota give_back
      keep_lem = ground (arith, found_saved, unsettled)

      kept-HasStates : HasStates true (lookup id kept.reservations)
      kept-HasStates = ground (
        arith,
        found_saved,
        unsettled,
        lookup-modify id id (released last) (saved later).reservations,
      )

  -- The tables and the result of a generation whose turn was saved, or was not.
  abbrev pub IsSettled : Bool → QuotaTables × AppResult (Unit {0}) → Type 0
  IsSettled is_kept r =
      HasStates is_kept (lookup id r.0.reservations)
      × IsCharged is_kept row tables r.0
      × (is_ok r.1 ≡ true → is_kept ≡ true)

  module _ (run : GenerationRun) (max_chars : ℕ) where
    -- What follows the provider's answer, whatever that is.
    abbrev Goes : Bool → QuotaTables × AppResult (Unit {0}) → Type 0
    Goes is_kept r = IsSettled is_kept (release_on_error run max_chars (some id) r)

    gives_up : (e : AppError) → Goes false (under_way run.started_at, err e)
    gives_up e = rw (release_lem run.started_at run.released_at) (
      given_up-HasStates run.started_at run.released_at,
      given_up-IsCharged run.started_at run.released_at,
      λ same. same,
    )

    saved-IsCharged : IsCharged true row tables (saved run.started_at run.appended_at)
    saved-IsCharged = record { owners = λ key. omega arith; globals = refl }

    kept-IsCharged : IsCharged true row tables (kept run.started_at run.appended_at run.released_at)
    kept-IsCharged = record { owners = λ key. omega arith; globals = refl }

    append_turn-Goes :
        (outcome : AppendChatMessagesOutcome)
        → Goes
            (saves_turn outcome)
            (append_turn run max_chars outcome (some id) (under_way run.started_at))
    append_turn-Goes appended =
        rw (commit_lem run.started_at run.appended_at)
          (saved-HasStates run.started_at run.appended_at, saved-IsCharged, λ same. refl)
    append_turn-Goes unread =
        rw
          (
            commit_lem run.started_at run.appended_at,
            keep_lem run.started_at run.appended_at run.released_at,
          )
          (
            kept-HasStates run.started_at run.appended_at run.released_at,
            kept-IsCharged,
            λ same. refl,
          )
    append_turn-Goes unavailable = gives_up not_found
    append_turn-Goes limit_reached = gives_up chat_storage_limit_error
    append_turn-Goes failed = gives_up database

    check_output-Goes :
        (checked : AppResult (Unit {0}))
        → Goes
            (saves_checked checked run.append)
            (check_output run max_chars checked (some id) (under_way run.started_at))
    check_output-Goes (err e) = gives_up e
    check_output-Goes (ok u) = append_turn-Goes run.append

    take_answer-Goes :
        (answer : AppResult Text)
        → Goes
            (saves_answer max_chars answer run.append)
            (take_answer run max_chars answer (some id) (under_way run.started_at))
    take_answer-Goes (err e) = gives_up e
    take_answer-Goes (ok text) = check_output-Goes (ensure_output_within_limit text max_chars)

    -- A generation that runs to its end settles its reservation: where the turn was saved, also if its
    -- attachments then cannot be read, the reservation is committed and the owner's counter stays as it
    -- was; else it is released and the owner's counter, no other one of an owner, is lowered by one. The
    -- call of the provider is consumed in either case, and a result that is no error means that the turn
    -- was saved. (The reservation was made, the counters cover the reservations, no other transaction
    -- comes between, and the statements that start, commit and release it reach the database.)
    pub complete_and_append_chat_message-IsSettled :
        IsSettled
          (is_saved run max_chars)
          (complete_and_append_chat_message run max_chars (some id) tables)
    unfolding complete_and_append_chat_message
    complete_and_append_chat_message-IsSettled =
        rw (mark_lem run.started_at) (take_answer-Goes run.answer)
