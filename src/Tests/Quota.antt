-- ===== src/Tests/Quota.antt =====
-- apps/api/src/store/quota.rs and the quotas of apps/api/src/chat/messages.rs at concrete inputs.
use wfchat.Base.{
  ℕ, ◌+◌, ◌*◌, ◌≤◌, ◌<◌, ◌≡◌, refl, List, [], ◌∷◌, none, some, codes, arith, lookup, insert, nat_eq,
}
use wfchat.Base.Results.{Succeeds}
use wfchat.Errors.{ok}
use wfchat.Quota.{
  OwnerDay, Reservation, QuotaTables, bangkok_quota_date, retry_after_bangkok_midnight, second,
  guest, owner_eq, owner_day_eq,
}
use wfchat.Quota.Counters.{admit_owner, admit_global}
use wfchat.Quota.Cleanup.{
  cleanup_past_chat_generation_quotas, drop_reservations, drop_owner_counters, drop_global_counters,
}
use wfchat.Quota.Usage.{usage, total_on}
use wfchat.Quota.Invariant.{Covers, limit_of}
use wfchat.Quota.Settle.{
  mark_chat_generation_provider_started, release_chat_generation_quota,
  recover_stale_chat_generation_quotas, recover_rows,
}
use wfchat.Quota.Reserve.{
  QuotaLimits, QuotaCall, AuthSession, guest_session, reserve_chat_generation_quota, reserve_clean,
  quota_owner, new_reservation,
}
use wfchat.Quota.Admission.{IsPositive}
use wfchat.Quota.Runs.{
  QuotaEvent, reserves, starts, releases, commits, quota_run, quota_step, IsOrdered, no_quotas,
  last_time, quota_run-Covers, no_quotas-Covers, quota_run-le-limit, quota_run-Succeeds,
}
use wfchat.Quota.Midnight.{retry_after_bangkok_midnight_lem}
use wfchat.Quota.Daily.{GenerationRun, appended, complete_and_append_chat_message, quota_limits}
use wfchat.Quota.Turns.{IsSettled, is_saved, complete_and_append_chat_message-IsSettled}
use wfchat.Quota.Configured.{production_limit_of, quota_run-le-production}
use wfchat.Config.Limits.{production_chat_global_daily_generation_limit}
use wfchat.Tests.Config.{
  production_config, production_env, production_read, is_production-config, parse_url, parse_ip,
}

abbrev small_limits : QuotaLimits
small_limits = record {
  registered_limit = 2;
  guest_limit = 1;
  global_limit = 2;
  stale_after_seconds = 360;
}

small-IsPositive : IsPositive small_limits
small-IsPositive = record {
  registered = omega arith;
  guests = omega arith;
  all_users = omega arith;
}

abbrev visitor : AuthSession
visitor = record {
  user_id = 5;
  kind = guest_session;
  quota_carryover_user_id = none;
  quota_carryover_date = none;
}

abbrev a_call : ℕ → ℕ → QuotaCall
a_call now id = record {
  now = now;
  session_id = 7;
  chat_id = 8;
  new_id = id;
  stale_ids = [];
  batch = record { ids = []; owner_keys = []; dates = [] };
}

abbrev some_events : List QuotaEvent
some_events =
    reserves (a_call 10 1) (some visitor)
    ∷ starts 20 1
    ∷ commits 30 1
    ∷ reserves (a_call 40 2) (some visitor)
    ∷ releases 50 2
    ∷ []

some_events-IsOrdered : IsOrdered 0 some_events
some_events-IsOrdered = ground arith

quota_run-le-limit_example :
    ((key : OwnerDay)
      → usage key (quota_run small_limits no_quotas some_events).owner_quotas
        ≤ limit_of small_limits key.owner.kind)
    × ((date : ℕ)
        → total_on date (quota_run small_limits no_quotas some_events).global_quotas
          ≤ small_limits.global_limit)
quota_run-le-limit_example =
    quota_run-le-limit small_limits small-IsPositive some_events some_events-IsOrdered

quota_run-Succeeds_example :
    let tables = quota_run small_limits no_quotas some_events in
    let kept = Covers (bangkok_quota_date (last_time 0 some_events)) small_limits in
    Succeeds (λ r. kept r.0) (mark_chat_generation_provider_started 60 1 tables)
    × Succeeds kept (release_chat_generation_quota 60 1 tables)
quota_run-Succeeds_example =
    quota_run-Succeeds small_limits small-IsPositive some_events 60 1 some_events-IsOrdered

retry_after_bangkok_midnight_lem_example :
    let now = 1_700_000_000 * second in
    let today = bangkok_quota_date now in
    let seconds = retry_after_bangkok_midnight now today in
    (1 ≤ seconds)
    × (seconds ≤ 86_400)
    × (bangkok_quota_date (now + seconds * second) ≡ today + 1)
    × ((n : ℕ) → n < seconds → bangkok_quota_date (now + n * second) ≡ today)
retry_after_bangkok_midnight_lem_example = retry_after_bangkok_midnight_lem (1_700_000_000 * second)

abbrev reserved_once : QuotaTables
reserved_once = quota_run small_limits no_quotas (reserves (a_call 10 1) (some visitor) ∷ [])

reserved_once-Covers : Covers (bangkok_quota_date 10) small_limits reserved_once
reserved_once-Covers =
    quota_run-Covers small_limits small-IsPositive 0 no_quotas
      (reserves (a_call 10 1) (some visitor) ∷ []) (omega arith, tt)
      (no_quotas-Covers small_limits small-IsPositive (bangkok_quota_date 0))

abbrev a_row : Reservation
a_row = new_reservation (a_call 10 1) (record { kind = guest; id = 7 })

a_row-found : lookup 1 reserved_once.reservations ≡ some a_row
unfolding lookup quota_run quota_step reserve_chat_generation_quota reserve_clean quota_owner
    admit_owner admit_global insert recover_stale_chat_generation_quotas recover_rows
    cleanup_past_chat_generation_quotas drop_reservations drop_owner_counters drop_global_counters
    bangkok_quota_date
a_row-found = refl

abbrev a_run : GenerationRun
a_run = record {
  started_at = 20;
  answer = ok (codes "hi");
  append = appended;
  appended_at = 30;
  released_at = 40;
}

complete_and_append_chat_message-IsSettled_example :
    IsSettled
      (bangkok_quota_date 10)
      small_limits
      1
      reserved_once
      reserved_once-Covers
      a_row
      a_row-found
      (refl, refl)
      (is_saved a_run 5)
      (complete_and_append_chat_message a_run 5 (some 1) reserved_once)
complete_and_append_chat_message-IsSettled_example =
    complete_and_append_chat_message-IsSettled (bangkok_quota_date 10) small_limits 1 reserved_once
      reserved_once-Covers a_row a_row-found (refl, refl) a_run 5

abbrev a_day : OwnerDay
a_day = record { quota_date = 0; owner = record { kind = guest; id = 7 } }

quota_run-le-production_example :
    let tables = quota_run (quota_limits production_config) no_quotas some_events in
    (usage a_day tables.owner_quotas ≤ production_limit_of guest)
    × (total_on 0 tables.global_quotas ≤ production_chat_global_daily_generation_limit)
quota_run-le-production_example =
    quota_run-le-production parse_url parse_ip 1_000_000 parse_ip (λ s. none) production_env
      production_config some_events a_day 0 production_read is_production-config
      some_events-IsOrdered
