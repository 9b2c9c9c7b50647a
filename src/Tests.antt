-- ===== src/Tests.antt =====
-- The theorems at concrete devices, feeds, leases and messages.
pub mod Samples
pub mod Sessions
pub mod Storage
pub mod Prices
pub mod Channel
pub mod Filtering
pub mod Inbounds
pub mod Counters
pub mod Bindings
pub mod Planes
