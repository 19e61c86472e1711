-- ===== src/Cafe/Claims.antt =====
-- Who holds which order: the orders' `claimed_by` against the players' `carried_order_id`.
pub mod Orders
pub mod Dealt
pub mod Invariant
pub mod Rooms
pub mod Interactions
pub mod Steps
pub mod Created
