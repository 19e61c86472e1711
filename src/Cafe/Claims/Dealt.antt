-- ===== src/Cafe/Claims/Dealt.antt =====
-- The orders that `for_round` deals: their ids differ, and nobody claims one.
use wfchat.Base.{
  show, ℕ, zero, suc, ◌+◌, ◌≡◌, refl, false, List, [], ◌∷◌, ◌++◌, none, Text, take, list_beq,
  nat_eq, nat_beq, All, arith, Bool-cases, inl, inr, ◌%◌, ◌∙◌,
}
use wfchat.Cafe.F32.{F32}
use wfchat.Cafe.Activity.{
  CafeTableOrder, CafeTableOrderStatus, claimed, available, waiting_ingredient, item_id,
  table_orders_from, OrderPlan, cafe_rush_orders, for_round, cafe_rush_target,
}
use wfchat.Cafe.Delivery.{is_status}
use wfchat.Cafe.Claims.Orders.{claimant, has_id, HasUniqueIds, IsCoherent}

list_beq-append : (xs ys zs : Text) → list_beq (xs ++ ys) (xs ++ zs) ≡ list_beq ys zs
list_beq-append [] ys zs = refl
list_beq-append (x ∷ xs) ys zs = ground (arith, list_beq-append xs ys zs)

-- Ids of one round differ as their numbers do.
list_beq-item_id :
    (prefix : Text) (round i j : ℕ)
    → list_beq (item_id prefix round i) (item_id prefix round j)
      ≡ list_beq (show (i + 1)) (show (j + 1))
list_beq-item_id prefix round i j =
    list_beq-append prefix (show round ++ b'-' ∷ show (i + 1)) (show round ++ b'-' ∷ show (j + 1))
    ∙ list_beq-append (show round) (b'-' ∷ show (i + 1)) (b'-' ∷ show (j + 1))

module _ (f : F32) (round : ℕ) (status : CafeTableOrderStatus) where
  abbrev dealt : ℕ → List OrderPlan → List (CafeTableOrder f)
  dealt index plans = table_orders_from f round status index plans

  claimant-dealt :
      (id : Text) (index : ℕ) (plans : List OrderPlan) → claimant id (dealt index plans) ≡ none
  unfolding table_orders_from
  claimant-dealt id index [] = refl
  claimant-dealt id index (p ∷ ps) = ground (arith, claimant-dealt id (suc index) ps)

  dealt-IsCoherent :
      is_status status claimed ≡ false
      → (index : ℕ) (plans : List OrderPlan) → All IsCoherent (dealt index plans)
  unfolding table_orders_from
  dealt-IsCoherent h index [] = tt
  dealt-IsCoherent h index (p ∷ ps) = ground (arith, dealt-IsCoherent h (suc index) ps)

  rush_unique : HasUniqueIds (dealt 0 cafe_rush_orders)
  unfolding table_orders_from show
  rush_unique = simp list_beq-append (refl, (refl, (refl, (refl, (refl, (refl, tt))))))

  has_id-take :
      (id : Text) (n : ℕ) (os : List (CafeTableOrder f))
      → has_id id os ≡ false
      → has_id id (take n os) ≡ false
  has_id-take id zero os h = refl
  has_id-take id (suc n) [] h = refl
  has_id-take id (suc n) (o ∷ os) h = ground (arith, has_id-take id n os)

  take-HasUniqueIds :
      (n : ℕ) (os : List (CafeTableOrder f)) → HasUniqueIds os → HasUniqueIds (take n os)
  take-HasUniqueIds zero os u = tt
  take-HasUniqueIds (suc n) [] u = tt
  take-HasUniqueIds (suc n) (o ∷ os) u = (has_id-take o.id n os u.0, take-HasUniqueIds n os u.1)

  dealt-take :
      (n index : ℕ) (plans : List OrderPlan)
      → dealt index (take n plans) ≡ take n (dealt index plans)
  unfolding table_orders_from
  dealt-take zero index plans = refl
  dealt-take (suc n) index [] = refl
  dealt-take (suc n) index (p ∷ ps) = rw (dealt-take n (suc index) ps)

  dealt-HasUniqueIds : (n : ℕ) → HasUniqueIds (dealt 0 (take n cafe_rush_orders))
  dealt-HasUniqueIds n =
      rw (dealt-take n 0 cafe_rush_orders)
        (take-HasUniqueIds n (dealt 0 cafe_rush_orders) rush_unique)

-- What a new round starts from.
pub record IsUnclaimed {f : F32} (os : List (CafeTableOrder f)) : Type 0 where
  pub unique : HasUniqueIds os
  pub coherent : All IsCoherent os
  pub unclaimed : (id : Text) → claimant id os ≡ none

dealt-IsUnclaimed :
    (f : F32) (round : ℕ) (status : CafeTableOrderStatus) (n : ℕ)
    → is_status status claimed ≡ false
    → IsUnclaimed (dealt f round status 0 (take n cafe_rush_orders))
dealt-IsUnclaimed f round status n h = record {
  unique = dealt-HasUniqueIds f round status n;
  coherent = dealt-IsCoherent f round status h 0 (take n cafe_rush_orders);
  unclaimed = λ id. claimant-dealt f round status id 0 (take n cafe_rush_orders);
}

no_orders-IsUnclaimed : (f : F32) → IsUnclaimed {f = f} []
no_orders-IsUnclaimed f = record { unique = tt; coherent = tt; unclaimed = λ id. refl }

pub for_round-IsUnclaimed :
    (f : F32) (now round player_count : ℕ)
    → IsUnclaimed (for_round f now round player_count).table_orders
unfolding for_round
for_round-IsUnclaimed f now round player_count = elim (Bool-cases (nat_beq (round % 3) 1)) [
  | inl tea ↦ rw tea (no_orders-IsUnclaimed f)
  | inr other ↦ rw other (elim (Bool-cases (nat_beq (round % 3) 2)) [
    | inl service ↦ rw service (dealt-IsUnclaimed f round available 3 refl)
    | inr rush ↦
        rw rush (dealt-IsUnclaimed f round waiting_ingredient (cafe_rush_target player_count) refl)
  ])
]
