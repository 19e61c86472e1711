-- ===== src/Quota/Runs.antt =====
-- Any sequence of transactions on the tables of the quotas, by the clock of the database.
use wfchat.Base.{
  ℕ, ◌≤◌, ◌≡◌, refl, Bool, List, [], ◌∷◌, Option, none, some, Map, lookup, nat_eq, arith,
}
use wfchat.Base.Results.{Returns, Succeeds-Returns, ok, err, Succeeds}
use wfchat.Quota.{
  OwnerDay, Reservation, QuotaTables, OwnerState, GlobalState, owner_reserved, global_consumed,
  owner_day_eq, bangkok_quota_date,
}
use wfchat.Quota.Counters.{StoreResult}
use wfchat.Quota.Counts.{count, count_weaker}
use wfchat.Quota.Usage.{usage, total_on}
use wfchat.Quota.Invariant.{Covers, charged, limit_of, committed_tables-Covers}
use wfchat.Quota.Steps.{
  mark_chat_generation_provider_started-Covers, release_chat_generation_quota-Covers,
}
use wfchat.Quota.Settle.{
  mark_chat_generation_provider_started, release_chat_generation_quota,
  commit_chat_generation_quota, commit_found, commit_states,
}
use wfchat.Quota.Reserve.{QuotaLimits, QuotaCall, AuthSession, reserve_chat_generation_quota}
use wfchat.Quota.Admission.{IsPositive, reserve_chat_generation_quota-Kept}

pub data QuotaEvent : Type 0 where
  reserves : QuotaCall → Option AuthSession → QuotaEvent
  starts releases commits : ℕ → ℕ → QuotaEvent

abbrev pub time_of : QuotaEvent → ℕ
time_of (reserves call session) = call.now
time_of (starts now id) = now
time_of (releases now id) = now
time_of (commits now id) = now

-- A transaction that fails changes nothing.
abbrev pub tables_of : {A : Type 0} → QuotaTables → (A → QuotaTables) → StoreResult A → QuotaTables
tables_of before f (ok a) = f a
tables_of before f (err e) = before

unfoldable pub quota_step : QuotaLimits → QuotaTables → QuotaEvent → QuotaTables
quota_step limits tables (reserves call session) =
    tables_of tables (λ r. r.0) (reserve_chat_generation_quota limits call session tables)
quota_step limits tables (starts now id) =
    tables_of tables (λ r. r.0) (mark_chat_generation_provider_started now id tables)
quota_step limits tables (releases now id) =
    tables_of tables (λ t. t) (release_chat_generation_quota now id tables)
quota_step limits tables (commits now id) =
    tables_of tables (λ t. t) (commit_chat_generation_quota now id tables)

unfoldable pub quota_run : QuotaLimits → QuotaTables → List QuotaEvent → QuotaTables
unfolding quota_step
quota_run limits tables [] = tables
quota_run limits tables (event ∷ events) = quota_run limits (quota_step limits tables event) events

-- The clock does not go back.
abbrev pub IsOrdered : ℕ → List QuotaEvent → Type 0
IsOrdered t [] = Unit
IsOrdered t (event ∷ events) = (t ≤ time_of event) × IsOrdered (time_of event) events

abbrev pub last_time : ℕ → List QuotaEvent → ℕ
last_time t [] = t
last_time t (event ∷ events) = last_time (time_of event) events

abbrev pub no_quotas : QuotaTables
no_quotas = record { owner_quotas = []; global_quotas = []; reservations = [] }

bangkok_quota_date-le : {s t : ℕ} → s ≤ t → bangkok_quota_date s ≤ bangkok_quota_date t
unfolding bangkok_quota_date
bangkok_quota_date-le le = omega arith

charged_earlier :
    (today later : ℕ) (key : OwnerDay) (rows : Map ℕ Reservation)
    → today ≤ later
    → count (charged later key) rows ≤ count (charged today key) rows
charged_earlier today later key rows le =
    count_weaker (charged later key) (charged today key) rows (λ row c. ground (arith, le, c))

module _ (limits : QuotaLimits) (pos : IsPositive limits) where
  later-Covers :
      (today later : ℕ) (tables : QuotaTables)
      → today ≤ later
      → Covers today limits tables
      → Covers later limits tables
  later-Covers today later tables le h = record {
    owners =
        λ key. ground (arith, h.owners key, charged_earlier today later key tables.reservations le);
    globals = h.globals;
    totals = h.totals;
    usages = h.usages;
  }

  tables_of-Covers :
      {A : Type 0} (today : ℕ) (tables : QuotaTables) (f : A → QuotaTables) (m : StoreResult A)
      → Covers today limits tables
      → Returns (λ a. Covers today limits (f a)) m
      → Covers today limits (tables_of tables f m)
  tables_of-Covers today tables f (ok a) h r = r
  tables_of-Covers today tables f (err e) h r = h

  commit_states-Covers :
      (today now id : ℕ) (tables : QuotaTables) (row : Reservation) (owner : OwnerState)
      (state : GlobalState)
      → Covers today limits tables
      → lookup id tables.reservations ≡ some row
      → row.owner_state ≡ owner
      → Returns (Covers today limits) (commit_states now id tables owner state)
  commit_states-Covers today now id tables row owner_reserved global_consumed h found e =
      committed_tables-Covers today limits now id tables h row found (ground (arith, e))
  commit_states-Covers today now id tables row owner state h found e = ground arith

  commit_found-Covers :
      (today now id : ℕ) (tables : QuotaTables) (o : Option Reservation)
      → Covers today limits tables
      → lookup id tables.reservations ≡ o
      → Returns (Covers today limits) (commit_found now id tables o)
  commit_found-Covers today now id tables none h found = tt
  commit_found-Covers today now id tables (some row) h found =
      commit_states-Covers today now id tables row row.owner_state row.global_state h found refl

  quota_step-Covers :
      (t : ℕ) (tables : QuotaTables) (event : QuotaEvent)
      → t ≤ time_of event
      → Covers (bangkok_quota_date t) limits tables
      → Covers (bangkok_quota_date (time_of event)) limits (quota_step limits tables event)
  unfolding quota_step commit_chat_generation_quota
  quota_step-Covers t tables (reserves call session) le h =
      let k = later-Covers _ _ tables (bangkok_quota_date-le le) h in
      tables_of-Covers (bangkok_quota_date call.now) tables (λ r. r.0) _ k
        (reserve_chat_generation_quota-Kept limits pos call tables session k)
  quota_step-Covers t tables (starts now id) le h =
      let k = later-Covers _ _ tables (bangkok_quota_date-le le) h in
      tables_of-Covers (bangkok_quota_date now) tables (λ (r : QuotaTables × Bool). r.0)
        (mark_chat_generation_provider_started now id tables) k
        (Succeeds-Returns (λ (r : QuotaTables × Bool). Covers (bangkok_quota_date now) limits r.0)
          (mark_chat_generation_provider_started now id tables)
          (mark_chat_generation_provider_started-Covers (bangkok_quota_date now) limits now id
            tables k))
  quota_step-Covers t tables (releases now id) le h =
      let k = later-Covers _ _ tables (bangkok_quota_date-le le) h in
      tables_of-Covers (bangkok_quota_date now) tables (λ t. t)
        (release_chat_generation_quota now id tables) k
        (Succeeds-Returns (Covers (bangkok_quota_date now) limits)
          (release_chat_generation_quota now id tables)
          (release_chat_generation_quota-Covers (bangkok_quota_date now) limits now id tables k))
  quota_step-Covers t tables (commits now id) le h =
      let k = later-Covers _ _ tables (bangkok_quota_date-le le) h in
      tables_of-Covers (bangkok_quota_date now) tables (λ t. t)
        (commit_found now id tables (lookup id tables.reservations)) k
        (commit_found-Covers (bangkok_quota_date now) now id tables (lookup id tables.reservations)
          k refl)

  pub quota_run-Covers :
      (t : ℕ) (tables : QuotaTables) (events : List QuotaEvent)
      → IsOrdered t events
      → Covers (bangkok_quota_date t) limits tables
      → Covers (bangkok_quota_date (last_time t events)) limits (quota_run limits tables events)
  unfolding quota_run
  quota_run-Covers t tables [] ordered h = h
  quota_run-Covers t tables (event ∷ events) ordered h =
      quota_run-Covers (time_of event) (quota_step limits tables event) events ordered.1
        (quota_step-Covers t tables event ordered.0 h)

  pub no_quotas-Covers : (today : ℕ) → Covers today limits no_quotas
  unfolding lookup
  no_quotas-Covers today = record {
    owners = λ key. omega arith;
    globals = λ date. omega arith;
    totals = λ date. omega arith;
    usages = λ key. omega arith;
  }

  -- Whatever is reserved, started, released and committed, in any order, no owner uses more of a day
  -- than the limit of its kind, and no day has more generations reserved and consumed than the global
  -- limit. (The tables began empty, the limits are positive and stay, the clock does not go back.)
  pub quota_run-le-limit :
      (events : List QuotaEvent)
      → IsOrdered 0 events
      → ((key : OwnerDay)
          → usage key (quota_run limits no_quotas events).owner_quotas
            ≤ limit_of limits key.owner.kind)
        × ((date : ℕ)
            → total_on date (quota_run limits no_quotas events).global_quotas ≤ limits.global_limit)
  quota_run-le-limit events ordered =
      let h =
        quota_run-Covers 0 no_quotas events ordered (no_quotas-Covers (bangkok_quota_date 0)) in
      (h.usages, h.totals)

  -- After any such sequence, a reservation can be started and can be released: neither transaction
  -- finds a counter inconsistent, whatever the reservation's state is, and the counters go on covering the
  -- reservations.
  pub quota_run-Succeeds :
      (events : List QuotaEvent) (now id : ℕ)
      → IsOrdered 0 events
      → let tables = quota_run limits no_quotas events in
        let kept = Covers (bangkok_quota_date (last_time 0 events)) limits in
        Succeeds (λ r. kept r.0) (mark_chat_generation_provider_started now id tables)
        × Succeeds kept (release_chat_generation_quota now id tables)
  quota_run-Succeeds events now id ordered =
      let today = bangkok_quota_date (last_time 0 events) in
      let tables = quota_run limits no_quotas events in
      let h =
        quota_run-Covers 0 no_quotas events ordered (no_quotas-Covers (bangkok_quota_date 0)) in
      (
        mark_chat_generation_provider_started-Covers today limits now id tables h,
        release_chat_generation_quota-Covers today limits now id tables h,
      )
