-- ===== src/Cafe/Claims/Created.antt =====
-- A new room's orders and players agree on who carries what.
use wfchat.Base.{ℕ, ◌≡◌, Bool, [], Option, none, some, Text, Map, subst, nat_eq, not}
use wfchat.Cafe.F32.{F32}
use wfchat.Cafe.Activity.{for_round, CafeActivity}
use wfchat.Cafe.Delivery.{is_intermission}
use wfchat.Cafe.Room.{CafeRoom}
use wfchat.Cafe.Hub.{new_room, empty_room, unique_invite_code}
use wfchat.Cafe.Claims.Dealt.{for_round-IsUnclaimed}
use wfchat.Cafe.Claims.Invariant.{Agree-dealt}
use wfchat.Cafe.Claims.Rooms.{RoomAgrees}

module _ {f : F32} where
  abbrev first_activity : ℕ → CafeActivity f
  first_activity now = for_round f now 1 0

  created-RoomAgrees :
      (id now instant : ℕ) (is_private : Bool) (code : Text)
      → RoomAgrees (empty_room {f = f} id now instant is_private code)
  created-RoomAgrees id now instant is_private code =
      Agree-dealt [] (first_activity now).table_orders
        (not (is_intermission (first_activity now).phase)) (for_round-IsUnclaimed f now 1 0)

  -- In a new room orders and players agree on who carries what.
  pub new_room-RoomAgrees :
      (id now instant : ℕ) (is_private : Bool) (rooms : Map ℕ (CafeRoom f)) (room : CafeRoom f)
      → new_room id now instant is_private rooms ≡ some room
      → RoomAgrees room
  unfolding new_room
  new_room-RoomAgrees id now instant is_private rooms room h = made (unique_invite_code id rooms) h
    where
      made :
          (code : Option Text)
          → elim code [
            | none ↦ none
            | some c ↦ some (empty_room {f = f} id now instant is_private c)
          ]
            ≡ some room
          → RoomAgrees room
      made none e = cc
      made (some c) e =
          let same : empty_room {f = f} id now instant is_private c ≡ room = cc in
          subst RoomAgrees same (created-RoomAgrees id now instant is_private c)
