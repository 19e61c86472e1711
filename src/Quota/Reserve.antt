-- ===== src/Quota/Reserve.antt =====
-- apps/api/src/store/quota.rs: `reserve_chat_generation_quota`.
use wfchat.Base.{
  ℕ, Bool, false, List, Option, none, some, codes, Map, insert, contains_key, if◌then◌else◌,
  nat_beq, nat_eq,
}
use wfchat.Base.Results.{ok, err, ◌>>=◌}
use wfchat.Quota.{
  OwnerDay, QuotaOwnerKey, GlobalQuota, Reservation, QuotaTables, guest, account, owner_reserved,
  global_reserved, bangkok_quota_date, retry_after_bangkok_midnight,
}
use wfchat.Quota.Counters.{StoreResult, admit_owner, admit_global}
use wfchat.Quota.Settle.{recover_stale_chat_generation_quotas}
use wfchat.Quota.Cleanup.{CleanupBatch, cleanup_past_chat_generation_quotas}

-- `kind` of a row of `auth_sessions`.
pub data SessionKind : Type 0 where
  guest_session registered admin : SessionKind

-- The columns of `auth_sessions` that are read.
pub record AuthSession : Type 0 where
  pub user_id : ℕ
  pub kind : SessionKind
  pub quota_carryover_user_id : Option ℕ
  pub quota_carryover_date : Option ℕ

pub data ChatGenerationQuotaAdmission : Type 0 where
  admitted : ℕ → ChatGenerationQuotaAdmission
  session_unavailable : ChatGenerationQuotaAdmission
  owner_limit_reached global_limit_reached : ℕ → ChatGenerationQuotaAdmission

pub record QuotaLimits : Type 0 where
  pub registered_limit : ℕ  -- u32
  pub guest_limit : ℕ  -- u32
  pub global_limit : ℕ  -- u32
  pub stale_after_seconds : ℕ  -- u64

abbrev is_active_on : ℕ → Option ℕ → Bool
is_active_on today none = false
is_active_on today (some date) = nat_beq date today

abbrev carried_owner : QuotaLimits → ℕ → Option ℕ → QuotaOwnerKey × ℕ
carried_owner limits session_id none =
    (record { kind = guest; id = session_id }, limits.guest_limit)
carried_owner limits session_id (some owner_id) =
    (record { kind = account; id = owner_id }, limits.registered_limit)

abbrev owner_of_kind : QuotaLimits → ℕ → ℕ → AuthSession → SessionKind → QuotaOwnerKey × ℕ
owner_of_kind limits today session_id session guest_session =
    if is_active_on today session.quota_carryover_date
    then carried_owner limits session_id session.quota_carryover_user_id
    else (record { kind = guest; id = session_id }, limits.guest_limit)
owner_of_kind limits today session_id session _ =
    (record { kind = account; id = session.user_id }, limits.registered_limit)

-- Whose quota a session uses, and its limit.
unfoldable pub quota_owner : QuotaLimits → ℕ → ℕ → AuthSession → QuotaOwnerKey × ℕ
quota_owner limits today session_id session =
    owner_of_kind limits today session_id session session.kind

-- The time and the new id; the rows that the database chooses.
pub record QuotaCall : Type 0 where
  pub now : ℕ
  pub session_id : ℕ
  pub chat_id : ℕ
  pub new_id : ℕ
  pub stale_ids : List ℕ
  pub batch : CleanupBatch

abbrev pub new_reservation : QuotaCall → QuotaOwnerKey → Reservation
new_reservation call owner = record {
  quota_date = bangkok_quota_date call.now;
  request_session_id = call.session_id;
  chat_id = call.chat_id;
  owner = owner;
  owner_state = owner_reserved;
  global_state = global_reserved;
  updated_at = call.now;
}

module _ (limits : QuotaLimits) (call : QuotaCall) (before : QuotaTables) where
  abbrev pub reserve_global :
      QuotaOwnerKey
      → QuotaTables
      → Map OwnerDay ℕ
      → Option (Map ℕ GlobalQuota)
      → StoreResult (QuotaTables × ChatGenerationQuotaAdmission)
  reserve_global owner tables owner_quotas none = ok (
    before,
    global_limit_reached (retry_after_bangkok_midnight call.now (bangkok_quota_date call.now)),
  )
  reserve_global owner tables owner_quotas (some global_quotas) =
      if contains_key call.new_id tables.reservations
      then err (codes "duplicate key")
      else ok (
        record {
          owner_quotas = owner_quotas;
          global_quotas = global_quotas;
          reservations = insert call.new_id (new_reservation call owner) tables.reservations;
        },
        admitted call.new_id,
      )

  abbrev pub reserve_owner :
      QuotaOwnerKey
      → QuotaTables
      → Option (Map OwnerDay ℕ)
      → StoreResult (QuotaTables × ChatGenerationQuotaAdmission)
  reserve_owner owner tables none = ok (
    before,
    owner_limit_reached (retry_after_bangkok_midnight call.now (bangkok_quota_date call.now)),
  )
  reserve_owner owner tables (some owner_quotas) =
      reserve_global owner tables owner_quotas
        (admit_global (bangkok_quota_date call.now) limits.global_limit tables.global_quotas)

  -- The transaction after the recovery and the cleanup.
  unfoldable pub reserve_clean :
      AuthSession → QuotaTables → StoreResult (QuotaTables × ChatGenerationQuotaAdmission)
  unfolding quota_owner
  reserve_clean session tables =
      let (owner, owner_limit) =
        quota_owner limits (bangkok_quota_date call.now) call.session_id session in
      reserve_owner owner tables (
        admit_owner (record { quota_date = bangkok_quota_date call.now; owner = owner }) owner_limit
          tables.owner_quotas)

  abbrev pub reserve_found :
      Option AuthSession → StoreResult (QuotaTables × ChatGenerationQuotaAdmission)
  reserve_found none = ok (before, session_unavailable)
  reserve_found (some session) = do
    recovered ←
        recover_stale_chat_generation_quotas call.now limits.stale_after_seconds call.stale_ids
          before
    reserve_clean session
        (cleanup_past_chat_generation_quotas (bangkok_quota_date call.now) call.batch recovered)

-- `session` is the session's row, if it is neither revoked nor expired.
unfoldable pub reserve_chat_generation_quota :
    QuotaLimits
    → QuotaCall
    → Option AuthSession
    → QuotaTables
    → StoreResult (QuotaTables × ChatGenerationQuotaAdmission)
unfolding reserve_clean
reserve_chat_generation_quota limits call session tables = reserve_found limits call tables session
