-- ===== src/Tests.antt =====
-- Concrete runs of the program's parts, and each theorem at one of them.
pub mod Toys
pub mod Records
pub mod Libraries
mod Files
mod Limits
mod Draws
mod Runs
mod Rows
mod Barriers
mod Tables
mod Bindings
mod Mains
mod Queries
