-- ===== src/Tests/Draws.antt =====
-- The generators at concrete states and random numbers.
use my_ycsb_cpp.Prelude.{ℕ, ◌≤◌, ◌≡◌, refl, false, [], ◌∷◌, some, arith}
use my_ycsb_cpp.Prelude.Result.{ok}
use my_ycsb_cpp.Generators.Acknowledged
use my_ycsb_cpp.Generators.Acknowledged.{Acknowledged, acknowledge, window_size}
use my_ycsb_cpp.Generators.Acknowledged.Tracking.{
  Tracks, with_value, new-Tracks, acknowledge-Tracks,
}
use my_ycsb_cpp.Generators.RandomCounter.{RandomAcknowledged}
use my_ycsb_cpp.Generators.Discrete.{DiscreteGenerator}
use my_ycsb_cpp.Generators.RandomByte
use my_ycsb_cpp.Generators.RandomByte.Printable.{IsValid, IsGraphic, new-IsValid, next-IsGraphic}
use my_ycsb_cpp.Generators.Zipfian.{Zipfian, zeta, compute_eta}
use my_ycsb_cpp.Generators.Scrambled
use my_ycsb_cpp.Tests.Toys.{whole}

abbrev pub fresh_ten : Acknowledged
fresh_ten = Acknowledged.new 10

fresh_ten-Tracks : Tracks 10 (λ _. false) fresh_ten
fresh_ten-Tracks = new-Tracks 10 (omega arith) (omega arith)

acknowledge-Tracks_example :
    (g : Acknowledged) × (acknowledge fresh_ten 11 ≡ ok g)
    × Tracks 10 (with_value (λ _. false) 11) g
    × (Acknowledged.last fresh_ten ≤ Acknowledged.last g)
unfolding Acknowledged.new
acknowledge-Tracks_example =
    acknowledge-Tracks fresh_ten-Tracks 11 (omega arith) (omega arith) refl (omega arith)

abbrev pub two_left : RandomAcknowledged
two_left = record {
  counter = record { keys = 7 ∷ 6 ∷ []; index = 0; start = 6; last_returned = 5 };
  acknowledged = [];
}

abbrev pub one_value : DiscreteGenerator whole ℕ
one_value = record { values = (4, 1) ∷ []; sum = 1; last = some 4 }

next-IsGraphic_example :
    IsValid (RandomByte.next RandomByte.new 77).1
    × IsGraphic (RandomByte.next RandomByte.new 77).0
    × (RandomByte.last (RandomByte.next RandomByte.new 77).1
        ≡ (RandomByte.next RandomByte.new 77).0)
next-IsGraphic_example = next-IsGraphic RandomByte.new 77 new-IsValid

-- A generator for two items whose zeta and eta were computed for them.
abbrev pub two_items : Zipfian whole
two_items = record {
  items = 2;
  base = 0;
  theta = 0;
  zeta_n = zeta whole 2 0;
  eta = compute_eta whole 2 0 0 (zeta whole 2 0);
  alpha = 1;
  zeta_2 = 0;
  count_for_zeta = 2;
  last_value = 0;
  allow_count_decrease = false;
}
