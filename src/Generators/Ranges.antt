-- ===== src/Generators/Ranges.antt =====
-- What the key generators return, whatever the random numbers and the arithmetic of `double`.
use my_ycsb_cpp.Prelude.Float.{Float}
use my_ycsb_cpp.Generators.Zipfian
use my_ycsb_cpp.Generators.Scrambled
use my_ycsb_cpp.Generators.Scrambled.{Scrambled}
