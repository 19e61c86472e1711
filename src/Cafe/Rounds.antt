-- ===== src/Cafe/Rounds.antt =====
-- apps/api/src/cafe.rs: the end of a rush and the start of a round, on the room found; the rewards and
-- the loadouts, which a room only tells of.
use wfchat.Base.{
  u32_max, ℕ, ◌+◌, Bool, true, false, not, ◌&&◌, ◌||◌, List, [], ◌∷◌, Option, none, some, Text,
  codes, map_values, length, nat_beq, nat_eq, list_eq, option_eq, ◌==◌, any, values, if◌then◌else◌,
}
use wfchat.Cafe.F32.{F32}
use wfchat.Cafe.Activity.{
  CafeActivityId, tea_delivery, table_service, cafe_rush, intermission, for_round,
}
use wfchat.Cafe.Room.{
  CafeRoom, CafePlayer, OwnerScope, dialogue, reward, send, broadcast_room_snapshot,
  next_saturating,
}
use wfchat.Cafe.Delivery.{is_id, is_intermission, happy, neutral, round_intermission_millis}

abbrev round_words : CafeActivityId → Text
round_words tea_delivery = codes "cafe.dialogue.teaRoundReady"
round_words table_service = codes "cafe.dialogue.serviceRoundReady"
round_words cafe_rush = codes "cafe.dialogue.rushRoundReady"

abbrev pub same_owner : OwnerScope → OwnerScope → Bool
same_owner l r = same_users l.user_id r.user_id
  where
    same_users : Option ℕ → Option ℕ → Bool
    same_users (some a) (some b) = nat_beq a b
    same_users _ _ = nat_beq l.session_id r.session_id

module _ {f : F32} where
  abbrev pub empty_hands : CafePlayer f → CafePlayer f
  empty_hands player = record player {
    carried_tea = 0;
    carried_rush_ingredient_ids = [];
    carried_order_id = none;
  }

  -- The new room, whether the round started, and whether its timer is to be started.
  unfoldable pub start_next_round_room : ℕ → ℕ → CafeRoom f → CafeRoom f × Bool × Bool
  unfolding broadcast_room_snapshot for_round
  start_next_round_room now completed_round room =
      if not (nat_beq room.activity.round_number completed_round)
        || not (is_intermission room.activity.phase)
      then (room, false, false)
      else (let dealt = record room {
        activity = for_round f now (next_saturating u32_max completed_round) (length room.players);
        players = map_values empty_hands room.players;
      } in
          (
            send (dialogue (round_words dealt.activity.id) happy) (broadcast_room_snapshot dealt),
            true,
            is_id dealt.activity.id cafe_rush,
          ))

  unfoldable pub expire_cafe_rush_room : ℕ → ℕ → CafeRoom f → CafeRoom f × Bool
  unfolding broadcast_room_snapshot
  expire_cafe_rush_room now round_number room =
      if not (is_id room.activity.id cafe_rush)
        || not (nat_beq room.activity.round_number round_number)
        || is_intermission room.activity.phase
        || room.activity.completed
      then (room, false)
      else (
        broadcast_room_snapshot (
            send (dialogue (codes "cafe.dialogue.rushTimeUp") neutral) (record room {
              activity = record (room.activity) {
                phase = intermission;
                ends_at = none;
                combo_expires_at = none;
                next_round_at = some (now + round_intermission_millis);
              };
              players = map_values empty_hands room.players;
            })),
        true,
      )

  unfoldable pub reward_room : List ℕ → ℕ → CafeRoom f → CafeRoom f
  reward_room [] earned_stars room = room
  reward_room (player_id ∷ player_ids) earned_stars room =
      reward_room player_ids earned_stars (send (reward player_id earned_stars) room)

  abbrev cosmetic_differs : OwnerScope → Option Text → CafePlayer f → Bool
  cosmetic_differs owner cosmetic_id player =
      same_owner player.owner owner && not (player.equipped_cosmetic == cosmetic_id)

  abbrev pub with_cosmetic : OwnerScope → Option Text → CafePlayer f → CafePlayer f
  with_cosmetic owner cosmetic_id player =
      if cosmetic_differs owner cosmetic_id player
      then record player { equipped_cosmetic = cosmetic_id }
      else player

  unfoldable pub equip_cosmetic_room : OwnerScope → Option Text → CafeRoom f → CafeRoom f
  unfolding broadcast_room_snapshot
  equip_cosmetic_room owner cosmetic_id room =
      let equipped = record room {
        players = map_values (with_cosmetic owner cosmetic_id) room.players;
      } in
      if any (cosmetic_differs owner cosmetic_id) (values room.players)
      then broadcast_room_snapshot equipped
      else equipped

  abbrev avatar_differs : OwnerScope → Text → CafePlayer f → Bool
  avatar_differs owner avatar_id player =
      same_owner player.owner owner && not (player.avatar_id == avatar_id)

  abbrev pub with_avatar : OwnerScope → Text → CafePlayer f → CafePlayer f
  with_avatar owner avatar_id player =
      if avatar_differs owner avatar_id player
      then record player { avatar_id = avatar_id }
      else player

  unfoldable pub equip_avatar_room : OwnerScope → Text → CafeRoom f → CafeRoom f
  unfolding broadcast_room_snapshot
  equip_avatar_room owner avatar_id room =
      let equipped = record room {
        players = map_values (with_avatar owner avatar_id) room.players;
      } in
      if any (avatar_differs owner avatar_id) (values room.players)
      then broadcast_room_snapshot equipped
      else equipped
