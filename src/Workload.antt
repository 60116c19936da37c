-- ===== src/Workload.antt =====
-- The class CoreWorkload of core/core_workload.
pub mod Keys
pub mod Sources
pub mod State
pub mod Builders
pub mod Config
pub mod Values
pub mod Draws
pub mod Transactions
