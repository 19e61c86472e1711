-- ===== src/Cafe/Stalled.antt =====
-- A tea round of apps/api/src/cafe.rs that has lost a leaf.
pub mod Steps
pub mod Interactions
pub mod Runs
use wfchat.Base.{
  ℕ, ◌+◌, ◌≤◌, ◌<◌, ◌≡◌, refl, ◌∙◌, Bool, false, List, [], ◌∷◌, Option, none, some, Text, Map,
  lookup, insert, remove, modify, map_values, update_first, nat_beq, nat_eq, if◌then◌else◌, arith,
  find, list_beq,
}
use wfchat.Cafe.F32.{F32}
use wfchat.Cafe.Activity.{CafeActivity, CafeTeaLeaf, tea_delivery}
use wfchat.Cafe.Room.{CafeRoom, CafePlayer}
use wfchat.Cafe.Delivery.{is_intermission, carried_tea_of}
use wfchat.Cafe.Interact.{lies_there, pluck}

module _ {f : F32} where
  abbrev pub leaves_left : List (CafeTeaLeaf f) → ℕ
  leaves_left [] = 0
  leaves_left (leaf ∷ leaves) = (if leaf.available then 1 else 0) + leaves_left leaves

  abbrev pub tea_held : Map ℕ (CafePlayer f) → ℕ
  tea_held [] = 0
  tea_held ((id, player) ∷ players) = player.carried_tea + tea_held players

  -- No player carries ingredients of a rush.
  abbrev pub HasNoIngredients : Map ℕ (CafePlayer f) → Type 0
  HasNoIngredients [] = Unit
  HasNoIngredients ((id, player) ∷ players) =
      (player.carried_rush_ingredient_ids ≡ []) × HasNoIngredients players

  -- A tea round is played in which all the leaves that lie there, are carried or were delivered are
  -- fewer than the round asks for.
  pub record Stalled (players : Map ℕ (CafePlayer f)) (activity : CafeActivity f) : Type 0 where
    pub tea : activity.id ≡ tea_delivery
    pub playing : is_intermission activity.phase ≡ false
    pub incomplete : activity.completed ≡ false
    pub short :
        leaves_left activity.tea_leaves + tea_held players + activity.delivered < activity.target
    pub no_ingredients : HasNoIngredients players

  abbrev pub RoomStalled : CafeRoom f → Type 0
  RoomStalled room = Stalled room.players room.activity

  -- A tea round is played in which there are no more leaves, wherever they are, than it asks for.
  pub record Accounted (players : Map ℕ (CafePlayer f)) (activity : CafeActivity f) : Type 0 where
    pub tea : activity.id ≡ tea_delivery
    pub playing : is_intermission activity.phase ≡ false
    pub incomplete : activity.completed ≡ false
    pub at_most :
        leaves_left activity.tea_leaves + tea_held players + activity.delivered ≤ activity.target
    pub no_ingredients : HasNoIngredients players

  pub tea_held-insert :
      (id : ℕ) (player : CafePlayer f) (players : Map ℕ (CafePlayer f))
      → player.carried_tea ≤ carried_tea_of (lookup id players)
      → tea_held (insert id player players) ≤ tea_held players
  unfolding lookup insert
  tea_held-insert id player [] h = ground arith
  tea_held-insert id player ((j, p) ∷ ps) h = ground (arith, tea_held-insert id player ps)

  pub tea_held-remove :
      (id : ℕ) (players : Map ℕ (CafePlayer f)) → tea_held (remove id players) ≤ tea_held players
  unfolding remove
  tea_held-remove id [] = omega arith
  tea_held-remove id ((j, p) ∷ ps) = ground (arith, tea_held-remove id ps)

  pub tea_held-leave :
      (id : ℕ) (players : Map ℕ (CafePlayer f)) (player : CafePlayer f)
      → lookup id players ≡ some player
      → tea_held (remove id players) + player.carried_tea ≤ tea_held players
  unfolding lookup remove
  tea_held-leave id [] player h = cc
  tea_held-leave id ((j, p) ∷ ps) player h =
      ground (arith, tea_held-leave id ps player, tea_held-remove id ps)

  pub tea_held-modify :
      (id : ℕ) (g : CafePlayer f → CafePlayer f) (players : Map ℕ (CafePlayer f))
      (player : CafePlayer f)
      → lookup id players ≡ some player
      → tea_held (modify id g players) + player.carried_tea
        ≡ tea_held players + (g player).carried_tea
  unfolding lookup modify
  tea_held-modify id g [] player h = cc
  tea_held-modify id g ((j, p) ∷ ps) player h = ground (arith, tea_held-modify id g ps player)

  pub tea_held-map_values :
      (g : CafePlayer f → CafePlayer f) (players : Map ℕ (CafePlayer f))
      → ((player : CafePlayer f) → (g player).carried_tea ≡ player.carried_tea)
      → tea_held (map_values g players) ≡ tea_held players
  tea_held-map_values g [] same = refl
  tea_held-map_values g ((j, p) ∷ ps) same = ground (arith, same p, tea_held-map_values g ps same)

  pub insert-HasNoIngredients :
      (id : ℕ) (player : CafePlayer f) (players : Map ℕ (CafePlayer f))
      → player.carried_rush_ingredient_ids ≡ []
      → HasNoIngredients players
      → HasNoIngredients (insert id player players)
  unfolding insert
  insert-HasNoIngredients id player [] h v = (h, tt)
  insert-HasNoIngredients id player ((j, p) ∷ ps) h v =
      ground (arith, insert-HasNoIngredients id player ps h v.1)

  pub remove-HasNoIngredients :
      (id : ℕ) (players : Map ℕ (CafePlayer f))
      → HasNoIngredients players
      → HasNoIngredients (remove id players)
  unfolding remove
  remove-HasNoIngredients id [] v = tt
  remove-HasNoIngredients id ((j, p) ∷ ps) v = ground (arith, remove-HasNoIngredients id ps v.1)

  pub modify-HasNoIngredients :
      (id : ℕ) (g : CafePlayer f → CafePlayer f) (players : Map ℕ (CafePlayer f))
      → ((player : CafePlayer f)
          → (g player).carried_rush_ingredient_ids ≡ player.carried_rush_ingredient_ids)
      → HasNoIngredients players
      → HasNoIngredients (modify id g players)
  unfolding modify
  modify-HasNoIngredients id g [] same v = tt
  modify-HasNoIngredients id g ((j, p) ∷ ps) same v =
      ground (arith, same p, modify-HasNoIngredients id g ps same v.1)

  pub map_values-HasNoIngredients :
      (g : CafePlayer f → CafePlayer f) (players : Map ℕ (CafePlayer f))
      → ((player : CafePlayer f)
          → (g player).carried_rush_ingredient_ids ≡ player.carried_rush_ingredient_ids)
      → HasNoIngredients players
      → HasNoIngredients (map_values g players)
  map_values-HasNoIngredients g [] same v = tt
  map_values-HasNoIngredients g ((j, p) ∷ ps) same v =
      (same p ∙ v.0, map_values-HasNoIngredients g ps same v.1)

  pub ingredients-lookup :
      (id : ℕ) (players : Map ℕ (CafePlayer f)) (player : CafePlayer f)
      → HasNoIngredients players
      → lookup id players ≡ some player
      → player.carried_rush_ingredient_ids ≡ []
  unfolding lookup
  ingredients-lookup id [] player v h = cc
  ingredients-lookup id ((j, p) ∷ ps) player v h =
      ground (arith, v.0, ingredients-lookup id ps player v.1)

  pub leaves_left-pluck :
      (target_id : Text) (leaves : List (CafeTeaLeaf f)) (leaf : CafeTeaLeaf f)
      → find (lies_there target_id) leaves ≡ some leaf
      → leaves_left (update_first (lies_there target_id) pluck leaves) + 1 ≡ leaves_left leaves
  leaves_left-pluck target_id [] leaf h = cc
  leaves_left-pluck target_id (l ∷ ls) leaf h = ground (arith, leaves_left-pluck target_id ls leaf)
