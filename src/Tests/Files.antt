-- ===== src/Tests/Files.antt =====
-- The texts, the properties and the decimal keys at concrete inputs.
use my_ycsb_cpp.Prelude.{
  ℕ, suc, ◌+◌, ◌<◌, ◌≡◌, ◌≢◌, refl, Bool, true, false, List, [], ◌∷◌, ◌++◌, All, length, arith,
  if◌then◌else◌, some,
}
use my_ycsb_cpp.Prelude.Int.{pos}
use my_ycsb_cpp.Prelude.Bytes.{Bytes, lit, bytes_lt}
use my_ycsb_cpp.Prelude.Result.{ok}
use my_ycsb_cpp.Utils.Text.{trim}
use my_ycsb_cpp.Utils.Text.Numbers.{stoi}
use my_ycsb_cpp.Utils.Properties.{is_comment, load}
use my_ycsb_cpp.Utils.Properties.Files.{IsPlain, render, set_all, load-render}
use my_ycsb_cpp.Workload.Keys.{build_key_name}
use my_ycsb_cpp.Workload.Keys.Order.{build_key_name_order}

abbrev pub padded : Bytes
padded = lit "  a b "

trim-padded : trim padded ≡ lit "a b"
unfolding trim
trim-padded = refl

stoi_negative : stoi (lit " -12x") ≡ ok (my_ycsb_cpp.Prelude.Int.negsuc 11)
unfolding stoi
stoi_negative = refl

abbrev pub pairs : List (Bytes × Bytes)
pairs = (lit "table", lit "t") ∷ (lit "n", lit "a=b") ∷ []

pairs-IsPlain : All IsPlain pairs
unfolding trim is_comment
pairs-IsPlain = ground arith

load-render_example :
    load [] (record { is_open = true; content = render pairs }) ≡ ok (set_all [] pairs)
load-render_example = load-render [] pairs pairs-IsPlain

build_key_name_order_example :
    (bytes_lt (build_key_name true false (pos 3) 9) (build_key_name true false (pos 3) 12) ≡ true)
    × (length (build_key_name true false (pos 3) 9) ≡ 4 + 3)
    × (length (build_key_name true false (pos 3) 12) ≡ 4 + 3)
build_key_name_order_example = build_key_name_order 2 9 12 (omega arith) (omega arith)
