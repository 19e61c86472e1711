-- ===== src/Cafe.antt =====
-- apps/api/src/cafe.rs: the rooms of the cafe, the games played in them, and the limits around them.
pub mod F32
pub mod Activity
pub mod Room
pub mod Layout
pub mod Presence
pub mod Delivery
pub mod Interact
pub mod Rounds
pub mod Movement
pub mod Hub
pub mod Limits
pub mod Chat
pub mod Events
pub mod Claims
pub mod Stalled
pub mod Recent
pub mod Capacity
