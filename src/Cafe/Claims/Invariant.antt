-- ===== src/Cafe/Claims/Invariant.antt =====
-- Orders and players agree on who carries what, whatever happens to a room.
use wfchat.Base.{
  ℕ, ◌≡◌, ◌≢◌, refl, inl, inr, Bool, true, false, List, Option, none, some, Text, Map, lookup,
  insert, remove, modify, map_values, lookup-insert, lookup-remove, lookup-modify,
  lookup-map_values, find, update_first, list_beq, list_beq_iff, nat_beq_iff, nat_eq, option_eq,
  All, arith, Option-cases,
}
use wfchat.Cafe.F32.{F32}
use wfchat.Cafe.Activity.{CafeTableOrder, available, waiting_ingredient}
use wfchat.Cafe.Room.{CafePlayer}
use wfchat.Cafe.Presence.{resume, return_order, unclaim}
use wfchat.Cafe.Delivery.{carried_order, claim, serve, prepare, has_status, clear_order}
use wfchat.Cafe.Interact.{hold_order, spend_ingredient}
use wfchat.Cafe.Rounds.{empty_hands}
use wfchat.Cafe.Claims.Orders.{
  claimant, HasUniqueIds, IsCoherent, update_first-HasUniqueIds, update_first-IsCoherent,
  claimant_available, claimant-claim, claimant-serve, claimant-prepare, claimant-return_order,
}
use wfchat.Cafe.Claims.Dealt.{IsUnclaimed}

module _ {f : F32} where
  -- What the player carries.
  abbrev pub carried_by : ℕ → Map ℕ (CafePlayer f) → Option Text
  carried_by p players = carried_order (lookup p players)

  -- The ids of the orders differ, an order names a player exactly while it is claimed, and a player
  -- carries an order only if that order names the player; the converse holds while `open`, that is
  -- while the round is played.
  pub record Agree (open_round : Bool) (players : Map ℕ (CafePlayer f))
      (orders : List (CafeTableOrder f)) : Type 0 where
    pub unique : HasUniqueIds orders
    pub coherent : All IsCoherent orders
    pub held : (p : ℕ) (id : Text) → carried_by p players ≡ some id → claimant id orders ≡ some p
    pub taken :
        open_round ≡ true
        → (p : ℕ) (id : Text) → claimant id orders ≡ some p
        → carried_by p players ≡ some id

  module _ (open_round : Bool) (players : Map ℕ (CafePlayer f)) (orders : List (CafeTableOrder f))
      (v : Agree open_round players orders) where
    -- A step that keeps what each player carries keeps the agreement, and so does the end of the round.
    pub Agree-players :
        (open' : Bool) (players' : Map ℕ (CafePlayer f))
        → (open' ≡ true → open_round ≡ true)
        → ((p : ℕ) → carried_by p players' ≡ carried_by p players)
        → Agree open' players' orders
    Agree-players open' players' o same = record {
      unique = v.unique;
      coherent = v.coherent;
      held = λ p id h. ground (arith, v.held p id, same p);
      taken = λ e p id h. ground (arith, v.taken (o e) p id, same p);
    }

    pub Agree-claim :
        (p : ℕ) (o : CafeTableOrder f)
        → carried_by p players ≡ none
        → (lookup p players ≢ none)
        → find (has_status available) orders ≡ some o
        → Agree open_round
            (modify p (hold_order o.id) players)
            (update_first (has_status available) (claim p) orders)
    Agree-claim p o free here first = record {
      unique =
          update_first-HasUniqueIds (has_status available) (claim p) (λ x. refl) orders v.unique;
      coherent =
          update_first-IsCoherent (has_status available) (claim p) (λ x e c. refl) orders
            v.coherent;
      held = λ q id h. ground (
        arith,
        v.held q id,
        lookup-modify p q (hold_order o.id) players,
        claimant-claim p id orders o v.unique first,
        claimant_available orders o v.unique v.coherent first,
        list_beq_iff o.id id,
      );
      taken = λ e q id h. ground (
        arith,
        v.taken e q id,
        lookup-modify p q (hold_order o.id) players,
        claimant-claim p id orders o v.unique first,
        list_beq_iff o.id id,
      );
    }

    pub Agree-serve :
        (p : ℕ) (t : Text)
        → carried_by p players ≡ some t
        → Agree open_round
            (modify p clear_order players)
            (update_first (λ o. list_beq o.id t) serve orders)
    Agree-serve p t mine = record {
      unique = update_first-HasUniqueIds (λ o. list_beq o.id t) serve (λ x. refl) orders v.unique;
      coherent =
          update_first-IsCoherent (λ o. list_beq o.id t) serve (λ x e c. refl) orders v.coherent;
      held = λ q id h. ground (
        arith,
        v.held q id,
        v.held p t mine,
        lookup-modify p q clear_order players,
        claimant-serve t id orders,
        list_beq_iff t id,
      );
      taken = λ e q id h. ground (
        arith,
        v.taken e q id,
        v.taken e p id,
        lookup-modify p q clear_order players,
        claimant-serve t id orders,
        list_beq_iff t id,
      );
    }

    pub Agree-prepare :
        (p : ℕ)
        → Agree open_round
            (modify p spend_ingredient players)
            (update_first (has_status waiting_ingredient) prepare orders)
    Agree-prepare p = record {
      unique =
          update_first-HasUniqueIds (has_status waiting_ingredient) prepare (λ x. refl) orders
            v.unique;
      coherent =
          update_first-IsCoherent (has_status waiting_ingredient) prepare (λ x e c. ground arith)
            orders v.coherent;
      held = λ q id h. ground (
        arith,
        v.held q id,
        lookup-modify p q spend_ingredient players,
        claimant-prepare id orders,
      );
      taken = λ e q id h. ground (
        arith,
        v.taken e q id,
        lookup-modify p q spend_ingredient players,
        claimant-prepare id orders,
      );
    }

    -- The player leaves: its order, if it carries one, can be taken again.
    pub Agree-leave :
        (p : ℕ) → Agree open_round (remove p players) (return_order p (carried_by p players) orders)
    unfolding return_order
    Agree-leave p = elim (Option-cases (carried_by p players)) [
      | inl nothing ↦ rw nothing (record {
        unique = v.unique;
        coherent = v.coherent;
        held = λ q id h. ground (arith, v.held q id, lookup-remove p q players);
        taken = λ e q id h. ground (arith, v.taken e q id, lookup-remove p q players);
      })
      | inr (t, mine) ↦ rw mine (record {
        unique = update_first-HasUniqueIds _ unclaim (λ x. refl) orders v.unique;
        coherent = update_first-IsCoherent _ unclaim (λ x e c. refl) orders v.coherent;
        held = λ q id h. ground (
          arith,
          v.held q id,
          v.held p t mine,
          lookup-remove p q players,
          claimant-return_order p t id orders (v.held p t mine),
          list_beq_iff t id,
        );
        taken = λ e q id h. ground (
          arith,
          v.taken e q id,
          v.taken e p id,
          lookup-remove p q players,
          claimant-return_order p t id orders (v.held p t mine),
          list_beq_iff t id,
        );
      })
    ]

    pub Agree-join :
        (player : CafePlayer f)
        → player.carried_order_id ≡ none
        → Agree open_round
            (insert player.id (resume (lookup player.id players) player) players)
            orders
    Agree-join player free =
        Agree-players open_round
          (insert player.id (resume (lookup player.id players) player) players) (λ e. e)
          λ p. ground (
            arith,
            lookup-insert player.id p (resume (lookup player.id players) player) players,
            nat_beq_iff player.id p,
          )

  -- A new round.
  pub Agree-dealt :
      (players : Map ℕ (CafePlayer f)) (orders : List (CafeTableOrder f)) (open_round : Bool)
      → IsUnclaimed orders
      → Agree open_round (map_values empty_hands players) orders
  Agree-dealt players orders open_round u = record {
    unique = u.unique;
    coherent = u.coherent;
    held = λ p id h. ground (arith, lookup-map_values empty_hands p players);
    taken = λ e p id h. ground (arith, u.unclaimed id);
  }

  -- The rush is over: nobody carries anything.
  pub Agree-over :
      (players : Map ℕ (CafePlayer f)) (orders : List (CafeTableOrder f)) (open_round : Bool)
      → Agree open_round players orders
      → Agree false (map_values empty_hands players) orders
  Agree-over players orders open_round v = record {
    unique = v.unique;
    coherent = v.coherent;
    held = λ p id h. ground (arith, lookup-map_values empty_hands p players);
    taken = λ e. cc;
  }
