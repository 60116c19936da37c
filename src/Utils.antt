-- ===== src/Utils.antt =====
-- The directory utils.
pub mod Hash
pub mod Text
pub mod CountdownLatch
pub mod Timer
pub mod RateLimit
pub mod Properties
