-- ===== src/Quota/Cleanup.antt =====
-- apps/api/src/store/quota.rs: `cleanup_past_chat_generation_quotas_in_tx`. The database chooses which
-- rows a batch holds; each has to meet the condition of its statement.
use wfchat.Base.{
  ℕ, Bool, not, ◌&&◌, List, [], ◌∷◌, Option, none, some, Map, lookup, remove, values, any,
  if◌then◌else◌, ltb, nat_beq, nat_eq,
}
use wfchat.Quota.{
  OwnerDay, GlobalQuota, Reservation, QuotaTables, is_owner_reserved, is_global_reserved, owner_day,
  owner_day_eq, owner_day_beq,
}

abbrev pub is_terminal_past : ℕ → Reservation → Bool
is_terminal_past today row =
    ltb row.quota_date today
    && not (is_owner_reserved row.owner_state)
    && not (is_global_reserved row.global_state)

abbrev drop_found : ℕ → ℕ → Map ℕ Reservation → Option Reservation → Map ℕ Reservation
drop_found today id rows none = rows
drop_found today id rows (some row) = if is_terminal_past today row then remove id rows else rows

unfoldable pub drop_reservations : ℕ → List ℕ → Map ℕ Reservation → Map ℕ Reservation
drop_reservations today [] rows = rows
drop_reservations today (id ∷ ids) rows =
    drop_reservations today ids (drop_found today id rows (lookup id rows))

abbrev pub owes_owner : OwnerDay → Reservation → Bool
owes_owner key row = is_owner_reserved row.owner_state && owner_day_beq (owner_day row) key

abbrev pub owes_global : ℕ → Reservation → Bool
owes_global date row = is_global_reserved row.global_state && nat_beq row.quota_date date

unfoldable pub drop_owner_counters :
    ℕ → Map ℕ Reservation → List OwnerDay → Map OwnerDay ℕ → Map OwnerDay ℕ
drop_owner_counters today rows [] quotas = quotas
drop_owner_counters today rows (key ∷ keys) quotas =
    let rest =
      if ltb key.quota_date today && not (any (owes_owner key) (values rows))
      then remove key quotas
      else quotas in
    drop_owner_counters today rows keys rest

unfoldable pub drop_global_counters :
    ℕ → Map ℕ Reservation → List ℕ → Map ℕ GlobalQuota → Map ℕ GlobalQuota
drop_global_counters today rows [] quotas = quotas
drop_global_counters today rows (date ∷ dates) quotas =
    let rest =
      if ltb date today && not (any (owes_global date) (values rows))
      then remove date quotas
      else quotas in
    drop_global_counters today rows dates rest

-- What the three statements of a batch choose.
pub record CleanupBatch : Type 0 where
  pub ids : List ℕ
  pub owner_keys : List OwnerDay
  pub dates : List ℕ

unfoldable pub cleanup_past_chat_generation_quotas : ℕ → CleanupBatch → QuotaTables → QuotaTables
unfolding drop_reservations drop_owner_counters drop_global_counters
cleanup_past_chat_generation_quotas today batch tables =
    let reservations = drop_reservations today batch.ids tables.reservations in
    record {
      reservations = reservations;
      owner_quotas = drop_owner_counters today reservations batch.owner_keys tables.owner_quotas;
      global_quotas = drop_global_counters today reservations batch.dates tables.global_quotas;
    }
