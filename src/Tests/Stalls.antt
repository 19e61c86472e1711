-- ===== src/Tests/Stalls.antt =====
-- A tea round of apps/api/src/cafe.rs that stalls.
use wfchat.Base.{some, ◌≡◌, refl, false, [], ◌∷◌, map, lookup, arith, nat_eq, option_eq, list_eq}
use wfchat.Cafe.Activity.{CafeActivity, for_round, tea_leaves_from}
use wfchat.Cafe.Room.{CafeRoom, CafePlayer}
use wfchat.Cafe.Presence.{leave_room}
use wfchat.Cafe.Delivery.{is_intermission}
use wfchat.Cafe.Interact.{pluck}
use wfchat.Cafe.Events.{room_run, rush_over, next_round_due}
use wfchat.Cafe.Stalled.{Accounted}
use wfchat.Cafe.Stalled.Runs.{room_run-leave_room}
use wfchat.Tests.Cafe.{whole_numbers, guest_player, created}

-- Two leaves are delivered, and the third is in the player's hands.
abbrev last_leaf : CafeActivity whole_numbers
last_leaf = record (created.activity) {
  delivered = 2;
  tea_leaves = map pluck created.activity.tea_leaves;
}

abbrev carrier : CafePlayer whole_numbers
carrier = record (guest_player 7) { carried_tea = 1 }

abbrev nearly_done : CafeRoom whole_numbers
nearly_done = record created {
  players = (7, carrier) ∷ (8, guest_player 8) ∷ [];
  activity = last_leaf;
}

nearly_done-Accounted : Accounted nearly_done.players nearly_done.activity
unfolding for_round tea_leaves_from
nearly_done-Accounted = record {
  tea = refl;
  playing = refl;
  incomplete = refl;
  at_most = omega arith;
  no_ingredients = (refl, (refl, tt));
}

carrier_there : lookup 7 nearly_done.players ≡ some carrier
unfolding lookup
carrier_there = refl

room_run-leave_room_example :
    let room' =
      room_run (next_round_due 2 1 ∷ rush_over 3 1 ∷ []) (leave_room 5 1 1 7 7 nearly_done) in
    (room'.activity.completed ≡ false) × (is_intermission room'.activity.phase ≡ false)
room_run-leave_room_example =
    room_run-leave_room 5 1 1 7 nearly_done carrier (next_round_due 2 1 ∷ rush_over 3 1 ∷ [])
      carrier_there (omega arith) nearly_done-Accounted (tt, (tt, tt))
