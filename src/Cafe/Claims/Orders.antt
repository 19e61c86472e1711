-- ===== src/Cafe/Claims/Orders.antt =====
-- The claims on a list of orders, and how the handlers change them.
use wfchat.Base.{
  ℕ, ◌≡◌, refl, Bool, true, false, List, [], ◌∷◌, Option, none, some, Text, is_some, find, any,
  update_first, list_beq, list_beq_iff, nat_eq, option_eq, option_beq_iff, All, if◌then◌else◌,
  arith,
}
use wfchat.Cafe.F32.{F32}
use wfchat.Cafe.Activity.{CafeTableOrder, waiting_ingredient, available, claimed}
use wfchat.Cafe.Presence.{return_order}
use wfchat.Cafe.Delivery.{claim, serve, prepare, has_status, is_status}

module _ {f : F32} where
  -- Who claims the order with the id.
  abbrev pub claimant : Text → List (CafeTableOrder f) → Option ℕ
  claimant id [] = none
  claimant id (o ∷ os) = if list_beq o.id id then o.claimed_by else claimant id os

  abbrev pub has_id : Text → List (CafeTableOrder f) → Bool
  has_id id os = any (λ o. list_beq o.id id) os

  abbrev pub HasUniqueIds : List (CafeTableOrder f) → Type 0
  HasUniqueIds [] = Unit
  HasUniqueIds (o ∷ os) = (has_id o.id os ≡ false) × HasUniqueIds os

  -- An order names who claims it exactly while it is claimed.
  abbrev pub IsCoherent : CafeTableOrder f → Type 0
  IsCoherent o = is_some o.claimed_by ≡ is_status o.status claimed

  module _ (p : CafeTableOrder f → Bool) (g : CafeTableOrder f → CafeTableOrder f) where
    abbrev pub KeepsIds : Type 0
    KeepsIds = (o : CafeTableOrder f) → (g o).id ≡ o.id

    has_id-update_first :
        KeepsIds
        → (id : Text) (os : List (CafeTableOrder f))
        → has_id id (update_first p g os) ≡ has_id id os
    has_id-update_first k id [] = refl
    has_id-update_first k id (o ∷ os) = ground (arith, k o, has_id-update_first k id os)

    pub update_first-HasUniqueIds :
        KeepsIds
        → (os : List (CafeTableOrder f)) → HasUniqueIds os
        → HasUniqueIds (update_first p g os)
    update_first-HasUniqueIds k [] u = tt
    update_first-HasUniqueIds k (o ∷ os) u =
        ground (arith, k o, has_id-update_first k o.id os, update_first-HasUniqueIds k os u.1)

    pub update_first-IsCoherent :
        ((o : CafeTableOrder f) → p o ≡ true → IsCoherent o → IsCoherent (g o))
        → (os : List (CafeTableOrder f)) → All IsCoherent os
        → All IsCoherent (update_first p g os)
    update_first-IsCoherent k [] c = tt
    update_first-IsCoherent k (o ∷ os) c = ground (arith, k o, update_first-IsCoherent k os c.1)

  has_id-find :
      (p : CafeTableOrder f → Bool) (os : List (CafeTableOrder f)) (o : CafeTableOrder f)
      → find p os ≡ some o
      → has_id o.id os ≡ true
  has_id-find p [] o h = cc
  has_id-find p (x ∷ os) o h = ground (arith, has_id-find p os o, list_beq_iff x.id x.id)

  -- The first order that is ready is nobody's, and taking it makes it the player's.
  pub claimant_available :
      (os : List (CafeTableOrder f)) (o : CafeTableOrder f)
      → HasUniqueIds os
      → All IsCoherent os
      → find (has_status available) os ≡ some o
      → claimant o.id os ≡ none
  claimant_available [] o u c h = cc
  claimant_available (x ∷ os) o u c h = ground (
    arith,
    list_beq_iff x.id o.id,
    list_beq_iff x.id x.id,
    has_id-find (has_status available) os o,
    claimant_available os o u.1 c.1,
  )

  pub claimant-claim :
      (p : ℕ) (id : Text) (os : List (CafeTableOrder f)) (o : CafeTableOrder f)
      → HasUniqueIds os
      → find (has_status available) os ≡ some o
      → claimant id (update_first (has_status available) (claim p) os)
        ≡ (if list_beq o.id id then some p else claimant id os)
  claimant-claim p id [] o u h = cc
  claimant-claim p id (x ∷ os) o u h = ground (
    arith,
    list_beq_iff x.id id,
    list_beq_iff o.id id,
    has_id-find (has_status available) os o,
    claimant-claim p id os o u.1,
  )

  pub claimant-serve :
      (t id : Text) (os : List (CafeTableOrder f))
      → claimant id (update_first (λ o. list_beq o.id t) serve os)
        ≡ (if list_beq t id then none else claimant id os)
  claimant-serve t id [] = ground arith
  claimant-serve t id (x ∷ os) =
      ground (
        arith,
        list_beq_iff x.id t,
        list_beq_iff x.id id,
        list_beq_iff t id,
        claimant-serve t id os,
      )

  pub claimant-find :
      (t : Text) (os : List (CafeTableOrder f)) (o : CafeTableOrder f)
      → find (λ o'. list_beq o'.id t) os ≡ some o
      → (o.id ≡ t) × (claimant t os ≡ o.claimed_by)
  claimant-find t [] o h = cc
  claimant-find t (x ∷ os) o h = ground (arith, list_beq_iff x.id t, claimant-find t os o)

  pub claimant-prepare :
      (id : Text) (os : List (CafeTableOrder f))
      → claimant id (update_first (has_status waiting_ingredient) prepare os) ≡ claimant id os
  claimant-prepare id [] = refl
  claimant-prepare id (x ∷ os) = ground (arith, claimant-prepare id os)

  pub claimant-return_order :
      (p : ℕ) (oid id : Text) (os : List (CafeTableOrder f))
      → claimant oid os ≡ some p
      → claimant id (return_order p (some oid) os)
        ≡ (if list_beq oid id then none else claimant id os)
  unfolding return_order
  claimant-return_order p oid id [] h = cc
  claimant-return_order p oid id (x ∷ os) h = ground (
    arith,
    list_beq_iff x.id oid,
    list_beq_iff x.id id,
    list_beq_iff oid id,
    option_beq_iff x.claimed_by (some p),
    claimant-return_order p oid id os,
  )
