-- ===== src/Generators.antt =====
-- The generators of core, one module to a class.
pub mod Counter
pub mod Acknowledged
pub mod RandomCounter
pub mod Discrete
pub mod RandomByte
pub mod Uniform
pub mod Zipfian
pub mod Scrambled
pub mod Latest
pub mod Ranges
