-- ===== src/Quota/Counters.antt =====
-- apps/api/src/store/quota.rs: the statements that count up and down.
use wfchat.Base.{
  ℕ, ◌+◌, ◌-◌, Option, none, some, Text, codes, Map, lookup, insert, remove, if◌then◌else◌, leb,
  ltb, nat_beq, nat_eq,
}
use wfchat.Base.Results.{Result, ok, err}
use wfchat.Quota.{OwnerDay, GlobalQuota, owner_day_eq}

-- `StoreResult`.
abbrev pub StoreResult {ℓ} : Type ℓ → Type ℓ
StoreResult A = Result Text A

abbrev counted_owner : OwnerDay → ℕ → Map OwnerDay ℕ → Option ℕ → Option (Map OwnerDay ℕ)
counted_owner key limit quotas none = some (insert key 1 quotas)
counted_owner key limit quotas (some usage_count) =
    if ltb usage_count limit then some (insert key (usage_count + 1) quotas) else none

-- `none` where no row is returned. The limit is asked only where there is a row.
unfoldable pub admit_owner : OwnerDay → ℕ → Map OwnerDay ℕ → Option (Map OwnerDay ℕ)
admit_owner key limit quotas = counted_owner key limit quotas (lookup key quotas)

abbrev counted_global : ℕ → ℕ → Map ℕ GlobalQuota → Option GlobalQuota → Option (Map ℕ GlobalQuota)
counted_global date limit quotas none =
    some (insert date (record { reserved_count = 1; consumed_count = 0 }) quotas)
counted_global date limit quotas (some quota) =
    if ltb (quota.reserved_count + quota.consumed_count) limit
    then some (insert date (record quota { reserved_count = quota.reserved_count + 1 }) quotas)
    else none

unfoldable pub admit_global : ℕ → ℕ → Map ℕ GlobalQuota → Option (Map ℕ GlobalQuota)
admit_global date limit quotas = counted_global date limit quotas (lookup date quotas)

abbrev pub inconsistent_owner : Text
inconsistent_owner = codes "owner chat quota reservation counter is inconsistent"

abbrev pub inconsistent_global : Text
inconsistent_global = codes "global chat quota reservation counter is inconsistent"

abbrev lowered_owner : OwnerDay → ℕ → Map OwnerDay ℕ → Option ℕ → StoreResult (Map OwnerDay ℕ)
lowered_owner key count quotas none = err inconsistent_owner
lowered_owner key count quotas (some usage_count) =
    if leb count usage_count
    then (if nat_beq (usage_count - count) 0
        then ok (remove key quotas)
        else ok (insert key (usage_count - count) quotas))
    else err inconsistent_owner

-- A counter that reaches 0 is deleted.
unfoldable pub decrement_owner_quota : OwnerDay → ℕ → Map OwnerDay ℕ → StoreResult (Map OwnerDay ℕ)
decrement_owner_quota key count quotas = lowered_owner key count quotas (lookup key quotas)

abbrev lowered_global :
    ℕ
    → (GlobalQuota → GlobalQuota)
    → Map ℕ GlobalQuota
    → Option GlobalQuota
    → StoreResult (Map ℕ GlobalQuota)
lowered_global date change quotas none = err inconsistent_global
lowered_global date change quotas (some quota) =
    if nat_beq quota.reserved_count 0
    then err inconsistent_global
    else ok (insert date (change quota) quotas)

abbrev pub unreserve : GlobalQuota → GlobalQuota
unreserve quota = record quota { reserved_count = quota.reserved_count - 1 }

abbrev pub consume : GlobalQuota → GlobalQuota
consume quota = record quota {
  reserved_count = quota.reserved_count - 1;
  consumed_count = quota.consumed_count + 1;
}

unfoldable pub decrement_global_reserved_quota :
    ℕ → Map ℕ GlobalQuota → StoreResult (Map ℕ GlobalQuota)
decrement_global_reserved_quota date quotas =
    lowered_global date unreserve quotas (lookup date quotas)

-- The update of `mark_chat_generation_provider_started`.
unfoldable pub consume_global_quota : ℕ → Map ℕ GlobalQuota → StoreResult (Map ℕ GlobalQuota)
consume_global_quota date quotas = lowered_global date consume quotas (lookup date quotas)

-- `match` on a result.
abbrev pub on_result {ℓ κ} : {A : Type ℓ} {B : Type κ} → (A → B) → B → StoreResult A → B
on_result f e (ok a) = f a
on_result f e (err message) = e
