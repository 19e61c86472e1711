-- ===== src/Cafe/Limits/SocketRuns.antt =====
-- Sockets that open and close over time, in apps/api/src/cafe.rs.
use wfchat.Base.{
  ℕ, refl, List, [], ◌∷◌, Option, none, some, Text, lookup, nat_eq, list_eq, arith, Option-cases,
  inl, inr,
}
use wfchat.Config.{CafeSecurityConfig}
use wfchat.Cafe.Limits.{
  CafeAbuseState, CafeSocketReservation, reserve_socket, release_socket, consume_room_creation,
}
use wfchat.Cafe.Limits.Sockets.{
  Inv, granted, nth, without_nth, reserve_socket-Inv, release_socket-Inv, consume_room_creation-Inv,
}

-- What the server does: open a socket, drop the reservation at a place of the list, create a room.
pub data SocketCall : Type 0 where
  opens : ℕ → Text → SocketCall
  closes : ℕ → SocketCall
  creates : ℕ → Text → ℕ → SocketCall

pub record Sockets : Type 0 where
  pub abuse : CafeAbuseState
  pub held : List CafeSocketReservation

abbrev close_found : ℕ → Sockets → Option CafeSocketReservation → Sockets
close_found i w none = w
close_found i w (some r) = record {
  abuse = release_socket r.session_id r.resolved_ip w.abuse;
  held = without_nth i w.held;
}

unfoldable pub socket_step : CafeSecurityConfig → Sockets → SocketCall → Sockets
socket_step limits w (opens session_id resolved_ip) =
    let (abuse, outcome) = reserve_socket limits session_id resolved_ip w.abuse in
    record { abuse = abuse; held = granted outcome w.held }
socket_step limits w (closes i) = close_found i w (nth i w.held)
socket_step limits w (creates session_id resolved_ip now) = record w {
  abuse = (consume_room_creation limits session_id resolved_ip now w.abuse).0;
}

unfoldable pub socket_run : CafeSecurityConfig → Sockets → List SocketCall → Sockets
socket_run limits w [] = w
socket_run limits w (c ∷ cs) = socket_run limits (socket_step limits w c) cs

-- The state of a server that has just started.
abbrev pub no_sockets : Sockets
no_sockets = record {
  abuse = record {
    sockets_by_session = [];
    sockets_by_ip = [];
    active_sockets = 0;
    room_creation_buckets = [];
    socket_rejections = 0;
    room_creation_rejections = 0;
  };
  held = [];
}

abbrev IsConsistent : CafeSecurityConfig → Sockets → Type 0
IsConsistent limits w = Inv limits w.abuse w.held

step-IsConsistent :
    (limits : CafeSecurityConfig) (w : Sockets) (c : SocketCall)
    → IsConsistent limits w
    → IsConsistent limits (socket_step limits w c)
unfolding socket_step
step-IsConsistent limits w (opens s a) v = reserve_socket-Inv limits w.abuse w.held v s a
step-IsConsistent limits w (closes i) v = elim (Option-cases (nth i w.held)) [
  | inl gone ↦ rw (gone, close_found) v
  | inr (r, here) ↦ rw (here, close_found) (release_socket-Inv limits w.abuse w.held v i r here)
]
step-IsConsistent limits w (creates s a now) v =
    consume_room_creation-Inv limits w.abuse w.held v s a now

run-IsConsistent :
    (limits : CafeSecurityConfig) (w : Sockets) (cs : List SocketCall)
    → IsConsistent limits w
    → IsConsistent limits (socket_run limits w cs)
unfolding socket_run
run-IsConsistent limits w [] v = v
run-IsConsistent limits w (c ∷ cs) v =
    run-IsConsistent limits (socket_step limits w c) cs (step-IsConsistent limits w c v)

-- After any history of sockets that open and close and of rooms that are created, the counters are
-- those of the reservations held, and no session, no address and not the server has more than its limit.
pub socket_run-Inv :
    (limits : CafeSecurityConfig) (cs : List SocketCall)
    → let w = socket_run limits no_sockets cs in Inv limits w.abuse w.held
unfolding lookup
socket_run-Inv limits cs = run-IsConsistent limits no_sockets cs (record {
  per_session = λ s. refl;
  per_ip = λ a. refl;
  total = refl;
  within_session = λ s. omega arith;
  within_ip = λ a. omega arith;
  within_global = omega arith;
})
