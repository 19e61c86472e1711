-- ===== src/Quota/Invariant.antt =====
-- The counters cover the reservations, so that no statement finds them inconsistent.
use wfchat.Base.{
  ℕ, ◌≤◌, ◌<◌, ◌≡◌, Bool, true, ◌&&◌, ◌||◌, [], ◌∷◌, some, Map, lookup, modify, if◌then◌else◌, leb,
  nat_eq, arith,
}
use wfchat.Base.Results.{ok, Succeeds}
use wfchat.Quota.{
  OwnerDay, OwnerKind, guest, account, Reservation, QuotaTables, is_owner_reserved,
  is_owner_committed, is_global_reserved, owner_day, owner_day_beq, owner_day_beq_iff,
}
use wfchat.Quota.Reserve.{QuotaLimits}
use wfchat.Quota.Cleanup.{owes_global}
use wfchat.Quota.Counts.{count, count-modify}
use wfchat.Quota.Usage.{
  usage, reserved_on, total_on, total_on-unreserved-le, total_on-consumed, lowered, unreserved,
  consumed, decrement_owner_quota_lem, usage-lowered, decrement_global_reserved_quota_lem,
  reserved_on-unreserved, reserved_on-consumed,
}
use wfchat.Quota.Settle.{give_back, released, started, committed, release_row}

-- The reservation counts for the owner on that day: it is reserved, or committed and not of the past.
abbrev pub charged : ℕ → OwnerDay → Reservation → Bool
charged today key row =
    owner_day_beq (owner_day row) key
    && (is_owner_reserved row.owner_state
        || (is_owner_committed row.owner_state && leb today key.quota_date))

abbrev pub limit_of : QuotaLimits → OwnerKind → ℕ
limit_of limits guest = limits.guest_limit
limit_of limits account = limits.registered_limit

pub record Covers (today : ℕ) (limits : QuotaLimits) (tables : QuotaTables) : Type 0 where
  pub owners :
      (key : OwnerDay)
      → count (charged today key) tables.reservations ≤ usage key tables.owner_quotas
  pub globals :
      (date : ℕ)
      → count (owes_global date) tables.reservations ≤ reserved_on date tables.global_quotas
  pub totals : (date : ℕ) → total_on date tables.global_quotas ≤ limits.global_limit
  pub usages : (key : OwnerDay) → usage key tables.owner_quotas ≤ limit_of limits key.owner.kind

count_found :
    (p : Reservation → Bool) (id : ℕ) (row : Reservation) (rows : Map ℕ Reservation)
    → lookup id rows ≡ some row
    → p row ≡ true
    → 0 < count p rows
unfolding lookup
count_found p id row [] h t = cc
count_found p id row ((j, w) ∷ rows) h t = ground (arith, count_found p id row rows)

module _ (today : ℕ) (limits : QuotaLimits) (now id : ℕ) (tables : QuotaTables)
    (h : Covers today limits tables) (row : Reservation)
    (found : lookup id tables.reservations ≡ some row) where
  abbrev pub given_back : QuotaTables
  given_back = record tables {
    owner_quotas =
        if is_owner_reserved row.owner_state
        then lowered (owner_day row) 1 tables.owner_quotas
        else tables.owner_quotas;
    global_quotas =
        if is_global_reserved row.global_state
        then unreserved row.quota_date tables.global_quotas
        else tables.global_quotas;
  }

  pub owner_charged :
      is_owner_reserved row.owner_state ≡ true → 0 < usage (owner_day row) tables.owner_quotas
  owner_charged r = ground (
    arith,
    h.owners (owner_day row),
    count_found (charged today (owner_day row)) id row tables.reservations found,
    owner_day_beq_iff (owner_day row) (owner_day row),
  )

  pub global_charged :
      is_global_reserved row.global_state ≡ true
      → 0 < reserved_on row.quota_date tables.global_quotas
  global_charged r = ground (
    arith,
    h.globals row.quota_date,
    count_found (owes_global row.quota_date) id row tables.reservations found,
  )

  pub give_back_lem : give_back row tables ≡ ok given_back
  unfolding give_back
  give_back_lem = ground (
    arith,
    owner_charged,
    global_charged,
    decrement_owner_quota_lem (owner_day row) 1 tables.owner_quotas,
    decrement_global_reserved_quota_lem row.quota_date tables.global_quotas,
  )

  abbrev pub released_tables : QuotaTables
  released_tables = record given_back {
    reservations = modify id (released now) tables.reservations;
  }

  released_tables-Covers : Covers today limits released_tables
  released_tables-Covers = record {
    owners = λ key. ground (
      arith,
      h.owners key,
      count-modify (charged today key) id (released now) row tables.reservations found,
      usage-lowered (owner_day row) key 1 tables.owner_quotas,
    );
    globals = λ date. ground (
      arith,
      h.globals date,
      count-modify (owes_global date) id (released now) row tables.reservations found,
      reserved_on-unreserved row.quota_date date tables.global_quotas,
    );
    totals = λ date.
        ground
          (arith, h.totals date, total_on-unreserved-le row.quota_date date tables.global_quotas);
    usages = λ key.
        ground (arith, h.usages key, usage-lowered (owner_day row) key 1 tables.owner_quotas);
  }

  pub release_row-Covers : Succeeds (Covers today limits) (release_row now id row tables)
  release_row-Covers = rw give_back_lem released_tables-Covers

  abbrev pub started_tables : QuotaTables
  started_tables = record tables {
    global_quotas = consumed row.quota_date tables.global_quotas;
    reservations = modify id (started now) tables.reservations;
  }

  pub started_tables-Covers :
      is_global_reserved row.global_state ≡ true → Covers today limits started_tables
  started_tables-Covers r = record {
    owners = λ key. ground (
      arith,
      h.owners key,
      count-modify (charged today key) id (started now) row tables.reservations found,
    );
    globals = λ date. ground (
      arith,
      r,
      h.globals date,
      count-modify (owes_global date) id (started now) row tables.reservations found,
      reserved_on-consumed row.quota_date date tables.global_quotas,
    );
    totals = λ date. ground (
      arith,
      h.totals date,
      global_charged r,
      total_on-consumed row.quota_date date tables.global_quotas,
    );
    usages = λ key. h.usages key;
  }

  abbrev pub committed_tables : QuotaTables
  committed_tables = record tables { reservations = modify id (committed now) tables.reservations }

  pub committed_tables-Covers :
      is_owner_reserved row.owner_state ≡ true → Covers today limits committed_tables
  committed_tables-Covers r = record {
    owners = λ key. ground (
      arith,
      r,
      h.owners key,
      count-modify (charged today key) id (committed now) row tables.reservations found,
    );
    globals = λ date. ground (
      arith,
      h.globals date,
      count-modify (owes_global date) id (committed now) row tables.reservations found,
    );
    totals = λ date. h.totals date;
    usages = λ key. h.usages key;
  }
