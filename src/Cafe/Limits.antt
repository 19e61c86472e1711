-- ===== src/Cafe/Limits.antt =====
-- apps/api/src/cafe.rs: `CafeAbuseState`, the limits on sockets and on the creation of rooms.
pub mod Sockets
pub mod SocketRuns
use wfchat.Base.{
  ℕ, ◌+◌, ◌-◌, ◌*◌, Bool, true, false, ◌||◌, List, [], ◌∷◌, ◌++◌, Option, none, some, Text, codes,
  Map, lookup, insert, remove, any, length, is_empty, leb, nat_beq, nat_eq, list_eq, if◌then◌else◌,
  Eq, ◌↔◌, ◌≡◌, list_beq, nat_beq_iff, list_beq_iff, arith,
}
use wfchat.Config.{CafeSecurityConfig}
use wfchat.Errors.{AppResult, ok, err, reasoned, cafe_socket_capacity, cafe_room_creation_rate}

pub data CafeCreationIdentity : Type 0 where
  session : ℕ → CafeCreationIdentity
  ip : Text → CafeCreationIdentity
  global : CafeCreationIdentity

abbrev pub creation_beq : CafeCreationIdentity → CafeCreationIdentity → Bool
creation_beq (session a) (session b) = nat_beq a b
creation_beq (ip a) (ip b) = list_beq a b
creation_beq global global = true
creation_beq _ _ = false

pub creation_beq_iff : (a b : CafeCreationIdentity) → (creation_beq a b ≡ true) ↔ (a ≡ b)
creation_beq_iff (session a) (session b) = ground (arith, nat_beq_iff a b)
creation_beq_iff (ip a) (ip b) = ground (arith, list_beq_iff a b)
creation_beq_iff a b = ground arith

instance abbrev pub creation_eq : Eq CafeCreationIdentity
creation_eq = record { beq = creation_beq; beq_iff = creation_beq_iff }

abbrev pub CreationBuckets : Type 0
CreationBuckets = Map CafeCreationIdentity (List ℕ)

-- `socket_rejections` and `room_creation_rejections` are the telemetry's counters.
pub record CafeAbuseState : Type 0 where
  pub sockets_by_session : Map ℕ ℕ
  pub sockets_by_ip : Map Text ℕ
  pub active_sockets : ℕ
  pub room_creation_buckets : CreationBuckets
  pub socket_rejections : ℕ
  pub room_creation_rejections : ℕ

abbrev pub or_zero : Option ℕ → ℕ
or_zero none = 0
or_zero (some n) = n

abbrev pub or_empty : Option (List ℕ) → List ℕ
or_empty none = []
or_empty (some times) = times

-- The reservation that the socket holds and releases when it is dropped.
pub record CafeSocketReservation : Type 0 where
  pub session_id : ℕ
  pub resolved_ip : Text

unfoldable pub reserve_socket :
    CafeSecurityConfig
    → ℕ
    → Text
    → CafeAbuseState
    → CafeAbuseState × AppResult CafeSocketReservation
reserve_socket limits session_id resolved_ip abuse =
    let session_count = or_zero (lookup session_id abuse.sockets_by_session) in
    let ip_count = or_zero (lookup resolved_ip abuse.sockets_by_ip) in
    if leb limits.max_sockets_per_session session_count
      || leb limits.max_sockets_per_ip ip_count
      || leb limits.max_sockets_global abuse.active_sockets
    then (
      record abuse { socket_rejections = abuse.socket_rejections + 1 },
      err (reasoned 429 (codes "cafe socket capacity reached") cafe_socket_capacity (some 1)),
    )
    else (
      record abuse {
        sockets_by_session = insert session_id (session_count + 1) abuse.sockets_by_session;
        sockets_by_ip = insert resolved_ip (ip_count + 1) abuse.sockets_by_ip;
        active_sockets = abuse.active_sockets + 1;
      },
      ok (record { session_id = session_id; resolved_ip = resolved_ip }),
    )

module _ {K : Type 0} ⦃e : Eq K⦄ where
  abbrev pub lower : K → Option ℕ → Map K ℕ → Map K ℕ
  lower key none counters = counters
  lower key (some count) counters =
      if nat_beq (count - 1) 0 then remove key counters else insert key (count - 1) counters

  unfoldable pub decrement_counter : K → Map K ℕ → Map K ℕ
  decrement_counter key counters = lower key (lookup key counters) counters

unfoldable pub release_socket : ℕ → Text → CafeAbuseState → CafeAbuseState
unfolding decrement_counter
release_socket session_id resolved_ip abuse = record abuse {
  sockets_by_session = decrement_counter session_id abuse.sockets_by_session;
  sockets_by_ip = decrement_counter resolved_ip abuse.sockets_by_ip;
  active_sockets = abuse.active_sockets - 1;
}

-- Times in nanoseconds, oldest first.
unfoldable pub drop_old : ℕ → ℕ → List ℕ → List ℕ
drop_old now window [] = []
drop_old now window (created_at ∷ times) =
    let rest = drop_old now window times in
    if leb window (now - created_at) then rest else created_at ∷ times

-- `retain`, with what the closure does to each bucket.
unfoldable pub prune_creation_buckets : ℕ → ℕ → CreationBuckets → CreationBuckets
prune_creation_buckets now window [] = []
prune_creation_buckets now window ((identity, bucket) ∷ buckets) =
    let rest = prune_creation_buckets now window buckets in
    if is_empty (drop_old now window bucket)
    then rest
    else (identity, drop_old now window bucket) ∷ rest

abbrev pub creation_window : CafeSecurityConfig → ℕ
creation_window limits = limits.room_creation_window_seconds * 1_000_000_000

abbrev pub creation_limits : CafeSecurityConfig → ℕ → Text → List (CafeCreationIdentity × ℕ)
creation_limits limits session_id resolved_ip =
    (session session_id, limits.room_creations_per_session)
    ∷ (ip resolved_ip, limits.room_creations_per_ip)
    ∷ (global, limits.room_creations_global)
    ∷ []

-- An identity with no bucket is not over a limit, whatever the limit is.
abbrev full : ℕ → Option (List ℕ) → Bool
full limit none = false
full limit (some times) = leb limit (length times)

abbrev pub is_over : CreationBuckets → CafeCreationIdentity × ℕ → Bool
is_over buckets (identity, limit) = full limit (lookup identity buckets)

unfoldable pub push_creation :
    ℕ → List (CafeCreationIdentity × ℕ) → CreationBuckets → CreationBuckets
push_creation now [] buckets = buckets
push_creation now ((identity, limit) ∷ rest) buckets =
    push_creation now rest
      (insert identity (or_empty (lookup identity buckets) ++ now ∷ []) buckets)

unfoldable pub consume_room_creation :
    CafeSecurityConfig → ℕ → Text → ℕ → CafeAbuseState → CafeAbuseState × AppResult (Unit {0})
unfolding prune_creation_buckets push_creation
consume_room_creation limits session_id resolved_ip now abuse =
    let buckets = prune_creation_buckets now (creation_window limits) abuse.room_creation_buckets in
    let identities = creation_limits limits session_id resolved_ip in
    if any (is_over buckets) identities
    then (
      record abuse {
        room_creation_buckets = buckets;
        room_creation_rejections = abuse.room_creation_rejections + 1;
      },
      err (
          reasoned 429 (codes "cafe room creation limit reached") cafe_room_creation_rate
            (some limits.room_creation_window_seconds)),
    )
    else (record abuse { room_creation_buckets = push_creation now identities buckets }, ok tt)
