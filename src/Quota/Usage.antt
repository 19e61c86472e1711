-- ===== src/Quota/Usage.antt =====
-- What the statements of Counters do to the counters.
use wfchat.Base.{
  ℕ, ◌+◌, ◌-◌, ◌≤◌, ◌<◌, ◌≡◌, Option, none, some, Map, lookup, insert, remove, if◌then◌else◌, ltb,
  nat_beq, nat_eq, arith, lookup-insert, lookup-remove, nat_beq_iff,
}
use wfchat.Base.Results.{ok}
use wfchat.Quota.{OwnerDay, GlobalQuota, owner_day_eq, owner_day_beq, owner_day_beq_iff}
use wfchat.Quota.Counters.{
  admit_owner, admit_global, decrement_owner_quota, decrement_global_reserved_quota,
  consume_global_quota, unreserve, consume,
}

-- A counter that has no row is 0.
abbrev or_none : Option ℕ → ℕ
or_none none = 0
or_none (some n) = n

abbrev pub usage : OwnerDay → Map OwnerDay ℕ → ℕ
usage key quotas = or_none (lookup key quotas)

abbrev reserved_in : Option GlobalQuota → ℕ
reserved_in none = 0
reserved_in (some quota) = quota.reserved_count

abbrev total_in : Option GlobalQuota → ℕ
total_in none = 0
total_in (some quota) = quota.reserved_count + quota.consumed_count

abbrev pub reserved_on : ℕ → Map ℕ GlobalQuota → ℕ
reserved_on date quotas = reserved_in (lookup date quotas)

abbrev pub total_on : ℕ → Map ℕ GlobalQuota → ℕ
total_on date quotas = total_in (lookup date quotas)

abbrev pub lowered : OwnerDay → ℕ → Map OwnerDay ℕ → Map OwnerDay ℕ
lowered key n quotas =
    if nat_beq (usage key quotas - n) 0
    then remove key quotas
    else insert key (usage key quotas - n) quotas

-- A counter that covers what is taken off is lowered.
pub decrement_owner_quota_lem :
    (key : OwnerDay) (n : ℕ) (quotas : Map OwnerDay ℕ)
    → 0 < n
    → n ≤ usage key quotas
    → decrement_owner_quota key n quotas ≡ ok (lowered key n quotas)
unfolding decrement_owner_quota
decrement_owner_quota_lem key n quotas pos le = ground arith

pub usage-lowered :
    (key k : OwnerDay) (n : ℕ) (quotas : Map OwnerDay ℕ)
    → usage k (lowered key n quotas)
      ≡ (if owner_day_beq key k then usage k quotas - n else usage k quotas)
usage-lowered key k n quotas = ground (
  arith,
  lookup-insert key k (usage key quotas - n) quotas,
  lookup-remove key k quotas,
  owner_day_beq_iff key k,
)

abbrev found_global : Option GlobalQuota → GlobalQuota
found_global none = record { reserved_count = 0; consumed_count = 0 }
found_global (some quota) = quota

abbrev pub unreserved : ℕ → Map ℕ GlobalQuota → Map ℕ GlobalQuota
unreserved date quotas = insert date (unreserve (found_global (lookup date quotas))) quotas

abbrev pub consumed : ℕ → Map ℕ GlobalQuota → Map ℕ GlobalQuota
consumed date quotas = insert date (consume (found_global (lookup date quotas))) quotas

pub decrement_global_reserved_quota_lem :
    (date : ℕ) (quotas : Map ℕ GlobalQuota)
    → 0 < reserved_on date quotas
    → decrement_global_reserved_quota date quotas ≡ ok (unreserved date quotas)
unfolding decrement_global_reserved_quota
decrement_global_reserved_quota_lem date quotas pos = ground arith

pub consume_global_quota_lem :
    (date : ℕ) (quotas : Map ℕ GlobalQuota)
    → 0 < reserved_on date quotas
    → consume_global_quota date quotas ≡ ok (consumed date quotas)
unfolding consume_global_quota
consume_global_quota_lem date quotas pos = ground arith

pub reserved_on-unreserved :
    (date d : ℕ) (quotas : Map ℕ GlobalQuota)
    → reserved_on d (unreserved date quotas)
      ≡ (if nat_beq date d then reserved_on d quotas - 1 else reserved_on d quotas)
reserved_on-unreserved date d quotas = ground (
  arith,
  lookup-insert date d (unreserve (found_global (lookup date quotas))) quotas,
  nat_beq_iff date d,
)

pub reserved_on-consumed :
    (date d : ℕ) (quotas : Map ℕ GlobalQuota)
    → reserved_on d (consumed date quotas)
      ≡ (if nat_beq date d then reserved_on d quotas - 1 else reserved_on d quotas)
reserved_on-consumed date d quotas = ground (
  arith,
  lookup-insert date d (consume (found_global (lookup date quotas))) quotas,
  nat_beq_iff date d,
)

pub total_on-unreserved-le :
    (date d : ℕ) (quotas : Map ℕ GlobalQuota)
    → total_on d (unreserved date quotas) ≤ total_on d quotas
total_on-unreserved-le date d quotas = ground (
  arith,
  lookup-insert date d (unreserve (found_global (lookup date quotas))) quotas,
  nat_beq_iff date d,
)

pub total_on-consumed :
    (date d : ℕ) (quotas : Map ℕ GlobalQuota)
    → 0 < reserved_on date quotas
    → total_on d (consumed date quotas) ≡ total_on d quotas
total_on-consumed date d quotas pos = ground (
  arith,
  lookup-insert date d (consume (found_global (lookup date quotas))) quotas,
  nat_beq_iff date d,
)

-- Admission counts one, below the limit where there is a row.
abbrev pub raised : OwnerDay → Map OwnerDay ℕ → Map OwnerDay ℕ
raised key quotas = insert key (usage key quotas + 1) quotas

pub admit_owner_lem :
    (key : OwnerDay) (limit : ℕ) (quotas : Map OwnerDay ℕ)
    → 0 < limit
    → admit_owner key limit quotas
      ≡ (if ltb (usage key quotas) limit then some (raised key quotas) else none)
unfolding admit_owner
admit_owner_lem key limit quotas pos = ground arith

pub usage-raised :
    (key k : OwnerDay) (quotas : Map OwnerDay ℕ)
    → usage k (raised key quotas)
      ≡ (if owner_day_beq key k then usage k quotas + 1 else usage k quotas)
usage-raised key k quotas =
    ground (arith, lookup-insert key k (usage key quotas + 1) quotas, owner_day_beq_iff key k)

abbrev reserve_one : GlobalQuota → GlobalQuota
reserve_one quota = record quota { reserved_count = quota.reserved_count + 1 }

abbrev pub reserved : ℕ → Map ℕ GlobalQuota → Map ℕ GlobalQuota
reserved date quotas = insert date (reserve_one (found_global (lookup date quotas))) quotas

pub admit_global_lem :
    (date limit : ℕ) (quotas : Map ℕ GlobalQuota)
    → 0 < limit
    → admit_global date limit quotas
      ≡ (if ltb (total_on date quotas) limit then some (reserved date quotas) else none)
unfolding admit_global
admit_global_lem date limit quotas pos = ground arith

pub reserved_on-reserved :
    (date d : ℕ) (quotas : Map ℕ GlobalQuota)
    → reserved_on d (reserved date quotas)
      ≡ (if nat_beq date d then reserved_on d quotas + 1 else reserved_on d quotas)
reserved_on-reserved date d quotas = ground (
  arith,
  lookup-insert date d (reserve_one (found_global (lookup date quotas))) quotas,
  nat_beq_iff date d,
)

pub total_on-reserved :
    (date d : ℕ) (quotas : Map ℕ GlobalQuota)
    → total_on d (reserved date quotas)
      ≡ (if nat_beq date d then total_on d quotas + 1 else total_on d quotas)
total_on-reserved date d quotas = ground (
  arith,
  lookup-insert date d (reserve_one (found_global (lookup date quotas))) quotas,
  nat_beq_iff date d,
)
