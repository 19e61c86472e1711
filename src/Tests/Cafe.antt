-- ===== src/Tests/Cafe.antt =====
-- apps/api/src/cafe.rs at concrete inputs.
use wfchat.Base.{
  zero, suc, ◌*◌, leb, not, ◌||◌, length, ◌≤◌, ltb, arith, if-cases, nat_beq, nat_eq, lookup, ◌≡◌,
  refl, ℕ, ◌+◌, ◌-◌, ◌*◌, ◌/◌, ◌^◌, true, false, List, [], ◌∷◌, none, some, codes, All, leb,
}
use wfchat.Cafe.F32.{F32, IsExact, IsOrdered}
use wfchat.Cafe.Room.{CafeRoom, CafePlayer, up}
use wfchat.Cafe.Hub.{new_room, empty_room, code_of, free_code, unique_invite_code}
use wfchat.Cafe.Events.{RoomEvent, room_run, IsFair, joins, leaves, interacts}
use wfchat.Cafe.Claims.Rooms.{RoomAgrees}
use wfchat.Cafe.Claims.Steps.{room_run-RoomAgrees}
use wfchat.Cafe.Chat.{accept_within}
use wfchat.Cafe.Chat.Windows.{within, accepted, accepted-le-limit_within, accept_within_lem}
use wfchat.Cafe.Room.History.{IsRecent}
use wfchat.Cafe.Capacity.{RoomFits}
use wfchat.Cafe.Capacity.Runs.{room_run-RoomFits}
use wfchat.Cafe.Recent.{RoomRecent}
use wfchat.Cafe.Recent.Runs.{IsTold, room_run-RoomRecent}
use wfchat.Cafe.Presence.{join_room}
use wfchat.Errors.{is_ok}
use wfchat.Config.{CafeSecurityConfig, default_cafe}
use wfchat.Cafe.Limits.{reserve_socket}
use wfchat.Cafe.Limits.Sockets.{Inv, tally, of_session, of_ip, reserve_socket_lem}
use wfchat.Cafe.Limits.SocketRuns.{
  Sockets, opens, closes, creates, no_sockets, socket_run, socket_run-Inv,
}
use wfchat.Cafe.Movement.{PlayerMovement, update_player_room}
use wfchat.Cafe.Movement.Bounds.{AllClear, HasClearPlace, update_player_room-IsClear}
use wfchat.Cafe.Layout.{cafe_map_collides, contains_player}
use wfchat.Cafe.Claims.Created.{new_room-RoomAgrees}

-- Numbers that stop at 0 stand for the floating-point ones, a fraction below 1 for 0.
abbrev pub rounded : ℕ → ℕ → ℕ
rounded m zero = m
rounded m (suc k) = 0

abbrev pub whole_numbers : F32
whole_numbers = record {
  Carrier = ℕ;
  literal = rounded;
  add = λ a b. a + b;
  sub = λ a b. a - b;
  mul = λ a b. a * b;
  div = λ a b. a / b;
  sqrt = λ a. a;
  lt = ltb;
  le = leb;
  is_finite = λ a. true;
  as_secs = λ n. n / 1_000_000_000;
}

abbrev pub guest_player : ℕ → CafePlayer whole_numbers
guest_player n = record {
  id = n;
  owner = record { session_id = n; user_id = none };
  name = codes "guest";
  color = codes "red";
  x = 480;
  y = 460;
  direction = up;
  moving = false;
  carried_tea = 0;
  carried_rush_ingredient_ids = [];
  carried_order_id = none;
  equipped_cosmetic = none;
  avatar_id = codes "a";
  last_sequence = 0;
  last_move_at = 0;
  connection_id = n;
}

abbrev pub created : CafeRoom whole_numbers
created = empty_room {f = whole_numbers} 1 0 0 false (code_of 1)

is_created : new_room {f = whole_numbers} 1 0 0 false [] ≡ some created
unfolding new_room unique_invite_code free_code
is_created = refl

abbrev visit : List (RoomEvent whole_numbers)
visit = joins 5 0 (guest_player 7) ∷ interacts 1 7 7 (codes "leaf-1") ∷ leaves 6 2 2 7 7 ∷ []

is_fair : All IsFair visit
is_fair = ((refl, refl, refl), (tt, (tt, tt)))

room_run-RoomAgrees_example : RoomAgrees (room_run visit created)
room_run-RoomAgrees_example =
    room_run-RoomAgrees visit created is_fair
      (new_room-RoomAgrees 1 0 0 false [] created is_created)

accepted-le-limit_within_example : within 2 9 [] + within 2 9 (accepted 5 2 (3 ∷ 8 ∷ 9 ∷ []) []) ≤ 5
accepted-le-limit_within_example =
    accepted-le-limit_within 5 2 9 (3 ∷ 8 ∷ 9 ∷ []) []
      (omega arith, (omega arith, (omega arith, tt))) (omega arith)

accept_within_lem_example :
    (accept_within 2 3 9 (2 ∷ 7 ∷ 8 ∷ [])).1 ≡ ltb (within 3 9 (2 ∷ 7 ∷ 8 ∷ [])) 2
accept_within_lem_example =
    accept_within_lem 2 3 9 (2 ∷ 7 ∷ 8 ∷ [])
      ((omega arith, (omega arith, tt)), ((omega arith, tt), (tt, tt)))

numbers-IsExact : IsExact whole_numbers
numbers-IsExact = record {
  lt_irrefl = λ x. ground arith;
  lt_whole = λ a b ha hb. ground arith;
  sub_whole = λ a b h ha. ground arith;
}

rounded-le : (m k : ℕ) → m ≤ 10 ^ k → (leb 0 (rounded m k) ≡ true) × (leb (rounded m k) 1 ≡ true)
rounded-le m zero h = ground (arith, h)
rounded-le m (suc k) h = ground arith

mul_unit-le : (n x : ℕ) → leb x 1 ≡ true → (leb 0 (n * x) ≡ true) × (leb (n * x) n ≡ true)
mul_unit-le n zero h = ground arith
mul_unit-le n (suc zero) h = ground arith
mul_unit-le n (suc (suc x)) h = ground arith

numbers-IsOrdered : IsOrdered whole_numbers
numbers-IsOrdered = record {
  le_of_not_lt = λ x y hx hy h. ground arith;
  le_trans = λ x y z h k. ground arith;
  finite_le = λ x h. ground arith;
  finite_between = λ a b x ha hb h k. refl;
  whole_finite = λ n h. refl;
  le_whole = λ a b h k. ground arith;
  le_literal = λ m k h. rounded-le m k h;
  as_secs_le = λ n. ground arith;
  mul_unit = λ n x h k l. mul_unit-le n x l;
  add_whole = λ n m x h k l. ground arith;
  sub_finite = λ n x y h k l j. refl;
  add_finite = λ n x y h k l j. refl;
  scaled_finite = λ a b m h k l j i. (refl, refl);
}

abbrev seated : CafeRoom whole_numbers
seated = record created { players = (7, guest_player 7) ∷ [] }

abbrev dash : PlayerMovement whole_numbers
dash = record { x = 5000; y = 460; direction = up; moving = true; sequence = 1 }

seated-AllClear : AllClear whole_numbers seated.players
unfolding lookup cafe_map_collides contains_player
seated-AllClear id =
    if-cases (HasClearPlace whole_numbers) (nat_beq 7 id) _ _
      (λ e. record {
        within_width = record { from_start = refl; from_end = refl };
        within_height = record { from_start = refl; from_end = refl };
        beside = refl;
      })
      (λ e. tt)

update_player_room-IsClear_example :
    AllClear whole_numbers (update_player_room 1_000_000_000 7 7 dash seated).players
update_player_room-IsClear_example =
    update_player_room-IsClear numbers-IsExact numbers-IsOrdered 1_000_000_000 7 7 dash seated
      seated-AllClear

abbrev two_each : CafeSecurityConfig
two_each = record default_cafe {
  max_sockets_per_session = 2;
  max_sockets_per_ip = 2;
  max_sockets_global = 3;
  room_creations_per_session = 1;
  room_creations_per_ip = 2;
  room_creations_global = 3;
  room_creation_window_seconds = 60;
}

abbrev after_calls : Sockets
after_calls =
    socket_run two_each no_sockets
      (opens 1 (codes "a") ∷ opens 1 (codes "b") ∷ creates 1 (codes "a") 5 ∷ closes 1 ∷ [])

socket_run-Inv_example : Inv two_each after_calls.abuse after_calls.held
socket_run-Inv_example =
    socket_run-Inv two_each
      (opens 1 (codes "a") ∷ opens 1 (codes "b") ∷ creates 1 (codes "a") 5 ∷ closes 1 ∷ [])

reserve_socket_lem_example :
    is_ok (reserve_socket two_each 1 (codes "a") after_calls.abuse).1
    ≡ not (
        leb 2 (tally (of_session 1) after_calls.held)
        || leb 2 (tally (of_ip (codes "a")) after_calls.held)
        || leb 3 (length after_calls.held))
reserve_socket_lem_example =
    reserve_socket_lem two_each after_calls.abuse after_calls.held socket_run-Inv_example 1
      (codes "a")

created-RoomRecent : RoomRecent created
unfolding IsRecent
created-RoomRecent = refl

room_run-RoomRecent_example :
    RoomRecent (room_run visit created)
    × ((event_id now : ℕ) (player : CafePlayer whole_numbers)
        → IsTold
            (room_run visit created).sender
            (join_room event_id now player (room_run visit created)).1)
room_run-RoomRecent_example = room_run-RoomRecent visit created created-RoomRecent

room_run-RoomFits_example : RoomFits (room_run visit created)
room_run-RoomFits_example = room_run-RoomFits visit created (omega arith)
