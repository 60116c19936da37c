-- ===== src/Driver.antt =====
-- The program's main file, core/ycsbc.cc.
pub mod CommandLine
pub mod Main
pub mod RateFile
