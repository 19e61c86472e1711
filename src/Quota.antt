-- ===== src/Quota.antt =====
-- apps/api/src/store/quota.rs: the daily quotas of generations, as the tables that its SQL works on
-- (migrations/202608090001_daily_chat_generation_quota.sql). One transaction is one step; a rollback
-- keeps the tables as they were. Times are in microseconds since the epoch, days count from it.
pub mod Counters
pub mod Reserve
pub mod Settle
pub mod Cleanup
pub mod Counts
pub mod Usage
pub mod Invariant
pub mod Steps
pub mod Admission
pub mod Runs
pub mod Midnight
pub mod Daily
pub mod Turns
pub mod Configured
use wfchat.Base.{
  ℕ, ◌+◌, ◌-◌, ◌*◌, ◌/◌, max, ◌≡◌, ◌↔◌, Bool, true, false, ◌&&◌, List, Option, none, some, Map, Eq,
  nat_beq, nat_beq_iff, arith,
}

abbrev pub second : ℕ
second = 1_000_000

abbrev pub day : ℕ
day = 86_400 * second

-- Bangkok is seven hours ahead.
abbrev pub bangkok_offset : ℕ
bangkok_offset = 7 * 3_600 * second

unfoldable pub bangkok_quota_date : ℕ → ℕ
bangkok_quota_date now = (now + bangkok_offset) / day

-- Whole seconds, rounded up, until the next midnight of Bangkok, at least 1.
unfoldable pub retry_after_bangkok_midnight : ℕ → ℕ → ℕ
retry_after_bangkok_midnight now quota_date =
    let midnight = (quota_date + 1) * day - bangkok_offset in
    max 1 ((midnight - now + (second - 1)) / second)

pub data OwnerKind : Type 0 where
  guest account : OwnerKind

pub record QuotaOwnerKey : Type 0 where
  pub kind : OwnerKind
  pub id : ℕ

-- The primary key of `chat_daily_owner_quotas`.
pub record OwnerDay : Type 0 where
  pub quota_date : ℕ
  pub owner : QuotaOwnerKey

abbrev kind_beq : OwnerKind → OwnerKind → Bool
kind_beq guest guest = true
kind_beq account account = true
kind_beq _ _ = false

abbrev pub owner_beq : QuotaOwnerKey → QuotaOwnerKey → Bool
owner_beq a b = kind_beq a.kind b.kind && nat_beq a.id b.id

abbrev pub owner_day_beq : OwnerDay → OwnerDay → Bool
owner_day_beq a b = nat_beq a.quota_date b.quota_date && owner_beq a.owner b.owner

kind_beq_iff : (a b : OwnerKind) → (kind_beq a b ≡ true) ↔ (a ≡ b)
kind_beq_iff guest guest = ground arith
kind_beq_iff account account = ground arith
kind_beq_iff a b = ground arith

pub owner_beq_iff : (a b : QuotaOwnerKey) → (owner_beq a b ≡ true) ↔ (a ≡ b)
owner_beq_iff a b = ground (arith, kind_beq_iff a.kind b.kind, nat_beq_iff a.id b.id)

pub owner_day_beq_iff : (a b : OwnerDay) → (owner_day_beq a b ≡ true) ↔ (a ≡ b)
owner_day_beq_iff a b =
    ground (arith, nat_beq_iff a.quota_date b.quota_date, owner_beq_iff a.owner b.owner)

instance abbrev pub owner_eq : Eq QuotaOwnerKey
owner_eq = record { beq = owner_beq; beq_iff = owner_beq_iff }

instance abbrev pub owner_day_eq : Eq OwnerDay
owner_day_eq = record { beq = owner_day_beq; beq_iff = owner_day_beq_iff }

-- The texts that `owner_state` and `global_state` may be.
pub data OwnerState : Type 0 where
  owner_reserved owner_committed owner_released : OwnerState

pub data GlobalState : Type 0 where
  global_reserved global_consumed global_released : GlobalState

abbrev pub is_owner_reserved : OwnerState → Bool
is_owner_reserved owner_reserved = true
is_owner_reserved _ = false

abbrev pub is_owner_committed : OwnerState → Bool
is_owner_committed owner_committed = true
is_owner_committed _ = false

abbrev pub is_global_reserved : GlobalState → Bool
is_global_reserved global_reserved = true
is_global_reserved _ = false

-- A row of `chat_generation_quota_reservations`, whose key is its id.
pub record Reservation : Type 0 where
  pub quota_date : ℕ
  pub request_session_id : ℕ
  pub chat_id : ℕ
  pub owner : QuotaOwnerKey
  pub owner_state : OwnerState
  pub global_state : GlobalState
  pub updated_at : ℕ

abbrev pub owner_day : Reservation → OwnerDay
owner_day row = record { quota_date = row.quota_date; owner = row.owner }

pub record GlobalQuota : Type 0 where
  pub reserved_count : ℕ
  pub consumed_count : ℕ

-- The three tables.
pub record QuotaTables : Type 0 where
  pub owner_quotas : Map OwnerDay ℕ
  pub global_quotas : Map ℕ GlobalQuota
  pub reservations : Map ℕ Reservation
