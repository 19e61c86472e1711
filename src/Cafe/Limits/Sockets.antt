-- ===== src/Cafe/Limits/Sockets.antt =====
-- The counters of sockets, in apps/api/src/cafe.rs, are those of the reservations that are held.
use wfchat.Base.{
  ℕ, zero, suc, ◌+◌, ◌-◌, ◌≤◌, ◌≡◌, Bool, ◌||◌, List, [], ◌∷◌, Option, none, some, Text, Map,
  lookup, lookup-insert, lookup-remove, leb, nat_eq, list_eq, list_beq_iff, not, Eq, ◌==◌,
  if◌then◌else◌, length, arith, inl, inr, Bool-cases, any,
}
use wfchat.Errors.{AppResult, ok, err, is_ok}
use wfchat.Config.{CafeSecurityConfig}
use wfchat.Cafe.Limits.{
  CafeAbuseState, CafeSocketReservation, or_zero, reserve_socket, release_socket, decrement_counter,
  consume_room_creation, is_over, prune_creation_buckets, creation_window, creation_limits,
}

abbrev pub tally : (CafeSocketReservation → Bool) → List CafeSocketReservation → ℕ
tally p [] = 0
tally p (r ∷ rs) = (if p r then 1 else 0) + tally p rs

abbrev pub of_session : ℕ → CafeSocketReservation → Bool
of_session s r = r.session_id == s

abbrev pub of_ip : Text → CafeSocketReservation → Bool
of_ip a r = r.resolved_ip == a

-- The counters count the reservations held, and no limit is passed.
pub record Inv (limits : CafeSecurityConfig) (abuse : CafeAbuseState)
    (held : List CafeSocketReservation) : Type 0 where
  pub per_session :
      (s : ℕ) → or_zero (lookup s abuse.sockets_by_session) ≡ tally (of_session s) held
  pub per_ip : (a : Text) → or_zero (lookup a abuse.sockets_by_ip) ≡ tally (of_ip a) held
  pub total : abuse.active_sockets ≡ length held
  pub within_session : (s : ℕ) → tally (of_session s) held ≤ limits.max_sockets_per_session
  pub within_ip : (a : Text) → tally (of_ip a) held ≤ limits.max_sockets_per_ip
  pub within_global : length held ≤ limits.max_sockets_global

abbrev pub granted :
    AppResult CafeSocketReservation → List CafeSocketReservation → List CafeSocketReservation
granted (ok r) held = r ∷ held
granted (err e) held = held

abbrev pub nth : ℕ → List CafeSocketReservation → Option CafeSocketReservation
nth i [] = none
nth zero (r ∷ rs) = some r
nth (suc i) (r ∷ rs) = nth i rs

abbrev pub without_nth : ℕ → List CafeSocketReservation → List CafeSocketReservation
without_nth i [] = []
without_nth zero (r ∷ rs) = rs
without_nth (suc i) (r ∷ rs) = r ∷ without_nth i rs

tally-without_nth :
    (p : CafeSocketReservation → Bool) (i : ℕ) (held : List CafeSocketReservation)
    (r : CafeSocketReservation)
    → nth i held ≡ some r
    → tally p (without_nth i held) + (if p r then 1 else 0) ≡ tally p held
tally-without_nth p i [] r h = cc
tally-without_nth p zero (q ∷ held) r h = ground arith
tally-without_nth p (suc i) (q ∷ held) r h = ground (arith, tally-without_nth p i held r h)

length-without_nth :
    (i : ℕ) (held : List CafeSocketReservation) (r : CafeSocketReservation)
    → nth i held ≡ some r
    → length (without_nth i held) + 1 ≡ length held
length-without_nth i [] r h = cc
length-without_nth zero (q ∷ held) r h = ground arith
length-without_nth (suc i) (q ∷ held) r h = ground (arith, length-without_nth i held r h)

or_zero-decrement_counter :
    {K : Type 0} ⦃e : Eq K⦄ (k j : K) (counters : Map K ℕ)
    → or_zero (lookup j (decrement_counter k counters))
      ≡ or_zero (lookup j counters) - (if k == j then 1 else 0)
unfolding decrement_counter
or_zero-decrement_counter ⦃e⦄ k j counters = ground (
  arith,
  e.beq_iff k j,
  lookup-remove k j counters,
  lookup-insert k j (or_zero (lookup k counters) - 1) counters,
)

module _ (limits : CafeSecurityConfig) (abuse : CafeAbuseState) (held : List CafeSocketReservation)
    (v : Inv limits abuse held) where
  -- A socket is refused exactly if its session, its address or the whole server has as many as it may.
  pub reserve_socket_lem :
      (session_id : ℕ) (resolved_ip : Text)
      → is_ok (reserve_socket limits session_id resolved_ip abuse).1
        ≡ not (
            leb limits.max_sockets_per_session (tally (of_session session_id) held)
            || leb limits.max_sockets_per_ip (tally (of_ip resolved_ip) held)
            || leb limits.max_sockets_global (length held))
  unfolding reserve_socket
  reserve_socket_lem session_id resolved_ip =
      ground (arith, v.per_session session_id, v.per_ip resolved_ip, v.total)

  pub reserve_socket-Inv :
      (session_id : ℕ) (resolved_ip : Text)
      → let (abuse', outcome) = reserve_socket limits session_id resolved_ip abuse in
        Inv limits abuse' (granted outcome held)
  unfolding reserve_socket
  reserve_socket-Inv session_id resolved_ip = record {
    per_session = λ s. ground (
      arith,
      v.per_session s,
      v.per_session session_id,
      lookup-insert session_id s (or_zero (lookup session_id abuse.sockets_by_session) + 1)
          abuse.sockets_by_session,
    );
    per_ip = λ a. ground (
      arith,
      v.per_ip a,
      v.per_ip resolved_ip,
      lookup-insert resolved_ip a (or_zero (lookup resolved_ip abuse.sockets_by_ip) + 1)
          abuse.sockets_by_ip,
      list_beq_iff resolved_ip a,
    );
    total = ground (arith, v.total);
    within_session =
        λ s. ground (arith, v.within_session s, v.per_session s, v.per_session session_id);
    within_ip = λ a.
        ground (arith, v.within_ip a, v.per_ip a, v.per_ip resolved_ip, list_beq_iff resolved_ip a);
    within_global = ground (arith, v.within_global, v.total);
  }

  pub release_socket-Inv :
      (i : ℕ) (r : CafeSocketReservation)
      → nth i held ≡ some r
      → Inv limits (release_socket r.session_id r.resolved_ip abuse) (without_nth i held)
  unfolding release_socket
  release_socket-Inv i r here = record {
    per_session = λ s. ground (
      arith,
      v.per_session s,
      or_zero-decrement_counter r.session_id s abuse.sockets_by_session,
      tally-without_nth (of_session s) i held r here,
    );
    per_ip = λ a. ground (
      arith,
      v.per_ip a,
      or_zero-decrement_counter r.resolved_ip a abuse.sockets_by_ip,
      tally-without_nth (of_ip a) i held r here,
    );
    total = ground (arith, v.total, length-without_nth i held r here);
    within_session =
        λ s. ground (arith, v.within_session s, tally-without_nth (of_session s) i held r here);
    within_ip = λ a. ground (arith, v.within_ip a, tally-without_nth (of_ip a) i held r here);
    within_global = ground (arith, v.within_global, length-without_nth i held r here);
  }

  pub consume_room_creation-Inv :
      (session_id : ℕ) (resolved_ip : Text) (now : ℕ)
      → Inv limits (consume_room_creation limits session_id resolved_ip now abuse).0 held
  unfolding consume_room_creation
  consume_room_creation-Inv session_id resolved_ip now =
      elim (Bool-cases (
        any
          (is_over
            (prune_creation_buckets now (creation_window limits) abuse.room_creation_buckets))
          (creation_limits limits session_id resolved_ip))) [
            | inl over ↦ rw over (record {
              per_session = v.per_session;
              per_ip = v.per_ip;
              total = v.total;
              within_session = v.within_session;
              within_ip = v.within_ip;
              within_global = v.within_global;
            })
            | inr fits ↦ rw fits (record {
              per_session = v.per_session;
              per_ip = v.per_ip;
              total = v.total;
              within_session = v.within_session;
              within_ip = v.within_ip;
              within_global = v.within_global;
            })
          ]
