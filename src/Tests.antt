-- ===== src/Tests.antt =====
-- Runs of the model at concrete inputs, and the theorems at inputs that meet their hypotheses.
mod RateLimits
mod Cafe
mod Stalls
mod Config
mod Quota
mod Chat
mod Sync
mod Voice
