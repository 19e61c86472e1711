-- ===== src/Quota/Steps.antt =====
-- Each transaction keeps the counters above the reservations and the totals within the limit, and none
-- finds a counter inconsistent.
use wfchat.Base.{
  ℕ, ◌≤◌, ◌≡◌, refl, Bool, true, false, List, [], ◌∷◌, Option, none, some, Map, lookup, remove,
  values, any, if-cases, ltb, nat_eq, arith, nat_beq_iff, lookup-remove,
}
use wfchat.Base.Results.{ok, Succeeds, Succeeds->>=}
use wfchat.Quota.{
  OwnerDay, GlobalQuota, Reservation, QuotaTables, GlobalState, global_reserved, global_consumed,
  global_released, owner_day_beq_iff, owner_day_eq,
}
use wfchat.Quota.Reserve.{QuotaLimits}
use wfchat.Quota.Cleanup.{
  owes_global, owes_owner, CleanupBatch, drop_reservations, drop_owner_counters,
  drop_global_counters, cleanup_past_chat_generation_quotas,
}
use wfchat.Quota.Counts.{count, count-remove-le, count_none}
use wfchat.Quota.Usage.{usage, reserved_on, total_on, consume_global_quota_lem}
use wfchat.Quota.Invariant.{
  Covers, charged, release_row-Covers, started_tables-Covers, global_charged,
}
use wfchat.Quota.Settle.{
  mark_chat_generation_provider_started, release_chat_generation_quota, recover_rows, is_stale,
  release_row, recover_found, release_found, start_found, start_row,
}

module _ (today : ℕ) (limits : QuotaLimits) (now : ℕ) where
  release_found-Covers :
      (id : ℕ) (tables : QuotaTables) (o : Option Reservation)
      → Covers today limits tables
      → lookup id tables.reservations ≡ o
      → Succeeds (Covers today limits) (release_found now id tables o)
  release_found-Covers id tables none h found = h
  release_found-Covers id tables (some row) h found =
      release_row-Covers today limits now id tables h row found

  -- Comment.
  pub release_chat_generation_quota-Covers :
      (id : ℕ) (tables : QuotaTables)
      → Covers today limits tables
      → Succeeds (Covers today limits) (release_chat_generation_quota now id tables)
  unfolding release_chat_generation_quota
  release_chat_generation_quota-Covers id tables h =
      release_found-Covers id tables (lookup id tables.reservations) h refl

  recover_found-Covers :
      (stale id : ℕ) (tables : QuotaTables) (o : Option Reservation)
      → Covers today limits tables
      → lookup id tables.reservations ≡ o
      → Succeeds (Covers today limits) (recover_found now stale id tables o)
  recover_found-Covers stale id tables none h found = h
  recover_found-Covers stale id tables (some row) h found =
      if-cases (Succeeds (Covers today limits)) (is_stale now stale row)
        (release_row now id row tables) (ok tables)
        (λ e. release_row-Covers today limits now id tables h row found) (λ e. h)

  pub recover_rows-Covers :
      (stale : ℕ) (ids : List ℕ) (tables : QuotaTables)
      → Covers today limits tables
      → Succeeds (Covers today limits) (recover_rows now stale ids tables)
  unfolding recover_rows
  recover_rows-Covers stale [] tables h = h
  recover_rows-Covers stale (id ∷ ids) tables h =
      Succeeds->>= (Covers today limits) (Covers today limits)
        (recover_found now stale id tables (lookup id tables.reservations))
        (recover_rows now stale ids)
        (recover_found-Covers stale id tables (lookup id tables.reservations) h refl)
        (recover_rows-Covers stale ids)

  start_row-Covers :
      (id : ℕ) (tables : QuotaTables) (row : Reservation) (state : GlobalState)
      → Covers today limits tables
      → lookup id tables.reservations ≡ some row
      → row.global_state ≡ state
      → Succeeds (λ r. Covers today limits r.0) (start_row now id tables row state)
  start_row-Covers id tables row global_consumed h found e = h
  start_row-Covers id tables row global_released h found e = h
  start_row-Covers id tables row global_reserved h found e =
      rw
        (consume_global_quota_lem row.quota_date tables.global_quotas
          (global_charged today limits now id tables h row found (ground (arith, e))))
        (started_tables-Covers today limits now id tables h row found (ground (arith, e)))

  start_found-Covers :
      (id : ℕ) (tables : QuotaTables) (o : Option Reservation)
      → Covers today limits tables
      → lookup id tables.reservations ≡ o
      → Succeeds (λ r. Covers today limits r.0) (start_found now id tables o)
  start_found-Covers id tables none h found = h
  start_found-Covers id tables (some row) h found =
      start_row-Covers id tables row row.global_state h found refl

  pub mark_chat_generation_provider_started-Covers :
      (id : ℕ) (tables : QuotaTables)
      → Covers today limits tables
      → Succeeds
          (λ r. Covers today limits r.0)
          (mark_chat_generation_provider_started now id tables)
  unfolding mark_chat_generation_provider_started
  mark_chat_generation_provider_started-Covers id tables h =
      start_found-Covers id tables (lookup id tables.reservations) h refl

drop_reservations-le :
    (p : Reservation → Bool) (today : ℕ) (ids : List ℕ) (rows : Map ℕ Reservation)
    → count p (drop_reservations today ids rows) ≤ count p rows
unfolding drop_reservations
drop_reservations-le p today [] rows = omega arith
drop_reservations-le p today (id ∷ ids) rows = ground (
  arith,
  count-remove-le p id rows,
  drop_reservations-le p today ids (remove id rows),
  drop_reservations-le p today ids rows,
)

-- A past day charges only what is reserved.
charged_past :
    (today : ℕ) (key : OwnerDay) (rows : Map ℕ Reservation)
    → ltb key.quota_date today ≡ true
    → any (owes_owner key) (values rows) ≡ false
    → count (charged today key) rows ≡ 0
charged_past today key [] past none_owes = refl
charged_past today key ((id, row) ∷ rows) past none_owes =
    ground (arith, charged_past today key rows)

drop_owner_counters-le :
    (today : ℕ) (rows : Map ℕ Reservation) (keys : List OwnerDay) (quotas : Map OwnerDay ℕ)
    → ((key : OwnerDay) → count (charged today key) rows ≤ usage key quotas)
    → (key : OwnerDay)
    → count (charged today key) rows ≤ usage key (drop_owner_counters today rows keys quotas)
unfolding drop_owner_counters
drop_owner_counters-le today rows [] quotas h key = h key
drop_owner_counters-le today rows (k ∷ ks) quotas h key =
    drop_owner_counters-le today rows ks _
      (λ j.
        ground
          (arith, h j, lookup-remove k j quotas, owner_day_beq_iff k j, charged_past today j rows))
      key

drop_global_counters-le :
    (today : ℕ) (rows : Map ℕ Reservation) (dates : List ℕ) (quotas : Map ℕ GlobalQuota)
    → ((date : ℕ) → count (owes_global date) rows ≤ reserved_on date quotas)
    → (date : ℕ)
    → count (owes_global date) rows
      ≤ reserved_on date (drop_global_counters today rows dates quotas)
unfolding drop_global_counters
drop_global_counters-le today rows [] quotas h date = h date
drop_global_counters-le today rows (d ∷ ds) quotas h date =
    drop_global_counters-le today rows ds _
      (λ j.
        ground
          (arith, h j, lookup-remove d j quotas, nat_beq_iff d j, count_none (owes_global j) rows))
      date

total_on-drop-le :
    (today : ℕ) (rows : Map ℕ Reservation) (dates : List ℕ) (quotas : Map ℕ GlobalQuota) (date : ℕ)
    → total_on date (drop_global_counters today rows dates quotas) ≤ total_on date quotas
unfolding drop_global_counters
total_on-drop-le today rows [] quotas date = omega arith
total_on-drop-le today rows (d ∷ ds) quotas date = ground (
  arith,
  lookup-remove d date quotas,
  total_on-drop-le today rows ds (remove d quotas) date,
  total_on-drop-le today rows ds quotas date,
)

usage-drop-le :
    (today : ℕ) (rows : Map ℕ Reservation) (keys : List OwnerDay) (quotas : Map OwnerDay ℕ)
    (key : OwnerDay)
    → usage key (drop_owner_counters today rows keys quotas) ≤ usage key quotas
unfolding drop_owner_counters
usage-drop-le today rows [] quotas key = omega arith
usage-drop-le today rows (k ∷ ks) quotas key = ground (
  arith,
  lookup-remove k key quotas,
  usage-drop-le today rows ks (remove k quotas) key,
  usage-drop-le today rows ks quotas key,
)

pub cleanup-Covers :
    (today : ℕ) (limits : QuotaLimits) (batch : CleanupBatch) (tables : QuotaTables)
    → Covers today limits tables
    → Covers today limits (cleanup_past_chat_generation_quotas today batch tables)
unfolding cleanup_past_chat_generation_quotas
cleanup-Covers today limits batch tables h =
    let rows = drop_reservations today batch.ids tables.reservations in
    record {
      owners = drop_owner_counters-le today rows batch.owner_keys tables.owner_quotas (λ key.
          ground (
            arith,
            h.owners key,
            drop_reservations-le (charged today key) today batch.ids tables.reservations,
          ));
      globals = drop_global_counters-le today rows batch.dates tables.global_quotas (λ date.
          ground (
            arith,
            h.globals date,
            drop_reservations-le (owes_global date) today batch.ids tables.reservations,
          ));
      totals = λ date.
          ground (
            arith,
            h.totals date,
            total_on-drop-le today rows batch.dates tables.global_quotas date,
          );
      usages = λ key.
          ground (
            arith,
            h.usages key,
            usage-drop-le today rows batch.owner_keys tables.owner_quotas key,
          );
    }
