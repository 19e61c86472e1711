-- ===== src/Quota/Settle.antt =====
-- apps/api/src/store/quota.rs: `mark_chat_generation_provider_started`,
-- `release_chat_generation_quota` and `recover_stale_chat_generation_quotas_in_tx`; and the
-- statement of apps/api/src/store/chat.rs that commits a reservation with the turn.
use wfchat.Base.{
  ℕ, ◌+◌, ◌*◌, Bool, true, false, ◌&&◌, ◌||◌, List, [], ◌∷◌, Option, none, some, codes, lookup,
  modify, if◌then◌else◌, ltb, nat_eq, i64_max,
}
use wfchat.Base.Results.{ok, err, ◌>>=◌}
use wfchat.Quota.{
  Reservation, QuotaTables, OwnerState, GlobalState, owner_reserved, owner_committed,
  owner_released, global_reserved, global_consumed, global_released, is_owner_reserved,
  is_global_reserved, owner_day, second,
}
use wfchat.Quota.Counters.{
  StoreResult, decrement_owner_quota, decrement_global_reserved_quota, consume_global_quota,
}

abbrev pub started : ℕ → Reservation → Reservation
started now row = record row { global_state = global_consumed; updated_at = now }

abbrev pub start_row :
    ℕ → ℕ → QuotaTables → Reservation → GlobalState → StoreResult (QuotaTables × Bool)
start_row now id tables row global_consumed = ok (tables, true)
start_row now id tables row global_released = ok (tables, false)
start_row now id tables row global_reserved = do
  global_quotas ← consume_global_quota row.quota_date tables.global_quotas
  ok (
    record tables {
      global_quotas = global_quotas;
      reservations = modify id (started now) tables.reservations;
    },
    true,
  )

abbrev pub start_found : ℕ → ℕ → QuotaTables → Option Reservation → StoreResult (QuotaTables × Bool)
start_found now id tables none = ok (tables, false)
start_found now id tables (some row) = start_row now id tables row row.global_state

unfoldable pub mark_chat_generation_provider_started :
    ℕ → ℕ → QuotaTables → StoreResult (QuotaTables × Bool)
mark_chat_generation_provider_started now id tables =
    start_found now id tables (lookup id tables.reservations)

abbrev release_owner_state : OwnerState → OwnerState
release_owner_state owner_reserved = owner_released
release_owner_state owner_committed = owner_committed
release_owner_state owner_released = owner_released

abbrev release_global_state : GlobalState → GlobalState
release_global_state global_reserved = global_released
release_global_state global_consumed = global_consumed
release_global_state global_released = global_released

abbrev pub has_reserved : Reservation → Bool
has_reserved row = is_owner_reserved row.owner_state || is_global_reserved row.global_state

abbrev pub released : ℕ → Reservation → Reservation
released now row = record row {
  owner_state = release_owner_state row.owner_state;
  global_state = release_global_state row.global_state;
  updated_at = if has_reserved row then now else row.updated_at;
}

-- What the row still reserves is given back.
unfoldable pub give_back : Reservation → QuotaTables → StoreResult QuotaTables
give_back row tables = do
  owner_quotas ←
      if is_owner_reserved row.owner_state
      then decrement_owner_quota (owner_day row) 1 tables.owner_quotas
      else ok tables.owner_quotas
  global_quotas ←
      if is_global_reserved row.global_state
      then decrement_global_reserved_quota row.quota_date tables.global_quotas
      else ok tables.global_quotas
  ok (record tables { owner_quotas = owner_quotas; global_quotas = global_quotas })

abbrev pub release_row : ℕ → ℕ → Reservation → QuotaTables → StoreResult QuotaTables
release_row now id row tables = do
  given ← give_back row tables
  ok (record given { reservations = modify id (released now) given.reservations })

abbrev pub release_found : ℕ → ℕ → QuotaTables → Option Reservation → StoreResult QuotaTables
release_found now id tables none = ok tables
release_found now id tables (some row) = release_row now id row tables

unfoldable pub release_chat_generation_quota : ℕ → ℕ → QuotaTables → StoreResult QuotaTables
unfolding give_back
release_chat_generation_quota now id tables =
    release_found now id tables (lookup id tables.reservations)

-- The row is chosen only if it is stale.
abbrev pub is_stale : ℕ → ℕ → Reservation → Bool
is_stale now stale_after_seconds row =
    ltb (row.updated_at + stale_after_seconds * second) now && has_reserved row

abbrev pub recover_found : ℕ → ℕ → ℕ → QuotaTables → Option Reservation → StoreResult QuotaTables
recover_found now stale id tables none = ok tables
recover_found now stale id tables (some row) =
    if is_stale now stale row then release_row now id row tables else ok tables

-- `ids` are the rows that the database returns, batch after batch: it skips those that others have
-- locked.
unfoldable pub recover_rows : ℕ → ℕ → List ℕ → QuotaTables → StoreResult QuotaTables
unfolding give_back
recover_rows now stale [] tables = ok tables
recover_rows now stale (id ∷ ids) tables = do
  recovered ← recover_found now stale id tables (lookup id tables.reservations)
  recover_rows now stale ids recovered

unfoldable pub recover_stale_chat_generation_quotas :
    ℕ → ℕ → List ℕ → QuotaTables → StoreResult QuotaTables
unfolding recover_rows
recover_stale_chat_generation_quotas now stale_after_seconds ids tables =
    if ltb i64_max stale_after_seconds
    then err (codes "chat quota stale interval is too large")
    else recover_rows now stale_after_seconds ids tables

abbrev pub committed : ℕ → Reservation → Reservation
committed now row = record row { owner_state = owner_committed; updated_at = now }

abbrev pub commit_states : ℕ → ℕ → QuotaTables → OwnerState → GlobalState → StoreResult QuotaTables
commit_states now id tables owner_reserved global_consumed =
    ok (record tables { reservations = modify id (committed now) tables.reservations })
commit_states now id tables _ _ = err (codes "chat quota reservation could not be finalized")

abbrev pub commit_found : ℕ → ℕ → QuotaTables → Option Reservation → StoreResult QuotaTables
commit_found now id tables none = err (codes "chat quota reservation could not be finalized")
commit_found now id tables (some row) = commit_states now id tables row.owner_state row.global_state

unfoldable pub commit_chat_generation_quota : ℕ → ℕ → QuotaTables → StoreResult QuotaTables
commit_chat_generation_quota now id tables =
    commit_found now id tables (lookup id tables.reservations)
