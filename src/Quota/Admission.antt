-- ===== src/Quota/Admission.antt =====
-- A reservation keeps the counters above the reservations and within the limits.
use wfchat.Base.{
  ℕ, ◌<◌, ◌≡◌, refl, Option, none, some, Map, lookup, insert, contains_key, if-cases, ltb, nat_eq,
  arith, nat_beq_iff, i64_max, codes, subst, sym,
}
use wfchat.Base.Results.{Returns, Returns->>=, Succeeds-Returns, err}
use wfchat.Quota.{
  OwnerDay, QuotaOwnerKey, GlobalQuota, QuotaTables, owner_day_beq_iff, owner_day_eq,
  bangkok_quota_date,
}
use wfchat.Quota.Counters.{admit_owner, admit_global}
use wfchat.Quota.Cleanup.{owes_global, cleanup_past_chat_generation_quotas}
use wfchat.Quota.Counts.{count-insert}
use wfchat.Quota.Usage.{
  usage, total_on, raised, reserved, usage-raised, reserved_on-reserved, total_on-reserved,
}
use wfchat.Quota.Invariant.{Covers, charged, limit_of}
use wfchat.Quota.Steps.{cleanup-Covers, recover_rows-Covers}
use wfchat.Quota.Settle.{recover_stale_chat_generation_quotas, recover_rows}
use wfchat.Quota.Reserve.{
  QuotaLimits, QuotaCall, AuthSession, ChatGenerationQuotaAdmission, new_reservation, quota_owner,
  reserve_clean, reserve_owner, reserve_global, reserve_chat_generation_quota,
}

quota_owner-limit_of :
    (limits : QuotaLimits) (today session_id : ℕ) (session : AuthSession)
    → (quota_owner limits today session_id session).1
      ≡ limit_of limits (quota_owner limits today session_id session).0.kind
unfolding quota_owner
quota_owner-limit_of limits today session_id session = ground arith

admit_owner-raised :
    (key : OwnerDay) (limit : ℕ) (quotas after : Map OwnerDay ℕ)
    → 0 < limit
    → admit_owner key limit quotas ≡ some after
    → (after ≡ raised key quotas) × (usage key quotas < limit)
unfolding admit_owner
admit_owner-raised key limit quotas after pos h = ground arith

admit_global-reserved :
    (date limit : ℕ) (quotas after : Map ℕ GlobalQuota)
    → 0 < limit
    → admit_global date limit quotas ≡ some after
    → (after ≡ reserved date quotas) × (total_on date quotas < limit)
unfolding admit_global
admit_global-reserved date limit quotas after pos h = ground arith

pub record IsPositive (limits : QuotaLimits) : Type 0 where
  pub registered : 0 < limits.registered_limit
  pub guests : 0 < limits.guest_limit
  pub all_users : 0 < limits.global_limit

module _ (limits : QuotaLimits) (pos : IsPositive limits) (call : QuotaCall)
    (before : QuotaTables) where
  abbrev date_now : ℕ
  date_now = bangkok_quota_date call.now

  abbrev Kept : QuotaTables × ChatGenerationQuotaAdmission → Type 0
  Kept r = Covers date_now limits r.0

  abbrev key_of : QuotaOwnerKey → OwnerDay
  key_of owner = record { quota_date = date_now; owner = owner }

  module _ (owner : QuotaOwnerKey) (tables : QuotaTables) (h : Covers date_now limits tables) where
    reserved-Covers :
        lookup call.new_id tables.reservations ≡ none
        → usage (key_of owner) tables.owner_quotas < limit_of limits owner.kind
        → total_on date_now tables.global_quotas < limits.global_limit
        → Covers date_now limits (record {
          owner_quotas = raised (key_of owner) tables.owner_quotas;
          global_quotas = reserved date_now tables.global_quotas;
          reservations = insert call.new_id (new_reservation call owner) tables.reservations;
        })
    reserved-Covers fresh below room = record {
      owners = λ key. ground (
        arith,
        h.owners key,
        count-insert (charged date_now key) call.new_id (new_reservation call owner)
            tables.reservations fresh,
        usage-raised (key_of owner) key tables.owner_quotas,
      );
      globals = λ date. ground (
        arith,
        h.globals date,
        count-insert (owes_global date) call.new_id (new_reservation call owner) tables.reservations
            fresh,
        reserved_on-reserved date_now date tables.global_quotas,
      );
      totals = λ date. ground (
        arith,
        h.totals date,
        total_on-reserved date_now date tables.global_quotas,
        nat_beq_iff date_now date,
      );
      usages = λ key. ground (
        arith,
        h.usages key,
        usage-raised (key_of owner) key tables.owner_quotas,
        owner_day_beq_iff (key_of owner) key,
      );
    }

    reserve_global-Kept :
        (globals : Option (Map ℕ GlobalQuota))
        → Covers date_now limits before
        → usage (key_of owner) tables.owner_quotas < limit_of limits owner.kind
        → admit_global date_now limits.global_limit tables.global_quotas ≡ globals
        → Returns Kept (
            reserve_global limits call before owner tables
              (raised (key_of owner) tables.owner_quotas)
              globals)
    reserve_global-Kept none h0 below e = h0
    reserve_global-Kept (some globals) h0 below e =
        let room =
          admit_global-reserved date_now limits.global_limit tables.global_quotas globals
            pos.all_users e in
        if-cases (Returns Kept) (contains_key call.new_id tables.reservations)
          (err (codes "duplicate key")) _ (λ dup. tt)
          (λ fresh.
            subst
              (λ g. Covers date_now limits (record {
                owner_quotas = raised (key_of owner) tables.owner_quotas;
                global_quotas = g;
                reservations = insert call.new_id (new_reservation call owner) tables.reservations;
              }))
              (sym room.0) (reserved-Covers (ground (arith, fresh)) below room.1))

    reserve_owner-Kept :
        (owners : Option (Map OwnerDay ℕ))
        → Covers date_now limits before
        → admit_owner (key_of owner) (limit_of limits owner.kind) tables.owner_quotas ≡ owners
        → Returns Kept (reserve_owner limits call before owner tables owners)
    reserve_owner-Kept none h0 e = h0
    reserve_owner-Kept (some owners) h0 e =
        let below =
          admit_owner-raised (key_of owner) (limit_of limits owner.kind) tables.owner_quotas owners
            (ground (arith, pos.registered, pos.guests)) e in
        subst
          (λ q. Returns Kept (
            reserve_global limits call before owner tables q
              (admit_global date_now limits.global_limit tables.global_quotas)))
          (sym below.0)
          (reserve_global-Kept (admit_global date_now limits.global_limit tables.global_quotas) h0
            below.1 refl)

  reserve_clean-Kept :
      (session : AuthSession) (tables : QuotaTables)
      → Covers date_now limits tables
      → Covers date_now limits before
      → Returns Kept (reserve_clean limits call before session tables)
  unfolding reserve_clean
  reserve_clean-Kept session tables h h0 =
      let (owner, owner_limit) = quota_owner limits date_now call.session_id session in
      subst
        (λ n. Returns Kept (
          reserve_owner limits call before owner tables
            (admit_owner (key_of owner) n tables.owner_quotas)))
        (sym (quota_owner-limit_of limits date_now call.session_id session))
        (reserve_owner-Kept owner tables h
          (admit_owner (key_of owner) (limit_of limits owner.kind) tables.owner_quotas) h0 refl)

  recover_stale-Covers :
      Covers date_now limits before
      → Returns (Covers date_now limits) (
          recover_stale_chat_generation_quotas call.now limits.stale_after_seconds call.stale_ids
            before)
  unfolding recover_stale_chat_generation_quotas
  recover_stale-Covers h =
      if-cases (Returns (Covers date_now limits)) (ltb i64_max limits.stale_after_seconds)
        (err (codes "chat quota stale interval is too large"))
        (recover_rows call.now limits.stale_after_seconds call.stale_ids before) (λ large. tt)
        (λ fits. Succeeds-Returns (Covers date_now limits) _ (
          recover_rows-Covers date_now limits call.now limits.stale_after_seconds call.stale_ids
            before h))

  pub reserve_chat_generation_quota-Kept :
      (session : Option AuthSession)
      → Covers date_now limits before
      → Returns Kept (reserve_chat_generation_quota limits call session before)
  unfolding reserve_chat_generation_quota
  reserve_chat_generation_quota-Kept none h = h
  reserve_chat_generation_quota-Kept (some session) h =
      Returns->>= (Covers date_now limits) Kept
        (recover_stale_chat_generation_quotas call.now limits.stale_after_seconds call.stale_ids
          before)
        (λ recovered.
          reserve_clean limits call before session
            (cleanup_past_chat_generation_quotas date_now call.batch recovered))
        (recover_stale-Covers h)
        (λ recovered k.
          reserve_clean-Kept session
            (cleanup_past_chat_generation_quotas date_now call.batch recovered)
            (cleanup-Covers date_now limits call.batch recovered k) h)
