-- ===== src/Supply.antt =====
-- pkg/supply: the replay mark and the revocation lists.
pub mod HighWater
pub mod Revocation
