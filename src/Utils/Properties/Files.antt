-- ===== src/Utils/Properties/Files.antt =====
-- Reading back a property file.
use my_ycsb_cpp.Prelude.{
  ◌≡◌, ◌≢◌, refl, ap, true, false, All-append, List, [], ◌∷◌, ◌++◌, append_assoc, append-nil, arith,
  All, take-append, All-map, drop_past,
}
use my_ycsb_cpp.Prelude.Bytes.{Bytes}
use my_ycsb_cpp.Prelude.Result.{ok}
use my_ycsb_cpp.Utils.Text.{trim}
use my_ycsb_cpp.Utils.Properties.Lookup.{find_byte_first}
use my_ycsb_cpp.Utils.Properties.{
  Properties, set_property, is_comment, load_line, lines_from, load_lines, load,
}

-- One `key=value` line for each pair, in order.
abbrev pub render : List (Bytes × Bytes) → Bytes
render [] = []
render ((k, v) ∷ kvs) = (k ++ b'=' ∷ v) ++ 10 ∷ render kvs

abbrev pub set_all : Properties → List (Bytes × Bytes) → Properties
set_all p [] = p
set_all p ((k, v) ∷ kvs) = set_all (set_property p k v) kvs

-- A pair that a line can carry.
abbrev pub IsPlain : Bytes × Bytes → Type 0
IsPlain (k, v) =
    All (λ c. (c ≢ b'=') × (c ≢ 10)) k
    × All (λ c. c ≢ 10) v
    × (is_comment (k ++ b'=' ∷ v) ≡ false)
    × (trim k ≡ k)
    × (trim v ≡ v)

load_line_plain :
    (p : Properties) (k v : Bytes)
    → IsPlain (k, v)
    → load_line p (k ++ b'=' ∷ v) ≡ set_property p k v
unfolding load_line
load_line_plain p k v h =
    rw (h.2, find_byte_first b'=' k v (All-map (λ c. λ (q : (c ≢ b'=') × (c ≢ 10)). q.0) k h.0))
      (rw (take-append k (b'=' ∷ v), drop_past k v b'=', h.3, h.4) refl)

no_newline : (k v : Bytes) → IsPlain (k, v) → All (λ c. c ≢ 10) (k ++ b'=' ∷ v)
no_newline k v h =
    All-append (λ c. c ≢ 10) k (b'=' ∷ v) (All-map (λ c. λ (q : (c ≢ b'=') × (c ≢ 10)). q.1) k h.0)
      ((λ e. omega arith), h.1)

lines_from_line :
    (line s rest : Bytes)
    → All (λ c. c ≢ 10) s
    → lines_from line (s ++ 10 ∷ rest) ≡ (line ++ s) ∷ lines_from [] rest
unfolding lines_from
lines_from_line line [] rest h = simp append-nil
lines_from_line line (c ∷ s) rest h =
    ground (arith, lines_from_line (line ++ c ∷ []) s rest h.1, append_assoc line (c ∷ []) s)

load_lines-render :
    (p : Properties) (kvs : List (Bytes × Bytes))
    → All IsPlain kvs
    → load_lines p (lines_from [] (render kvs)) ≡ set_all p kvs
unfolding load_lines
load_lines-render p [] h = unfold lines_from load_line in refl
load_lines-render p ((k, v) ∷ kvs) h =
    rw (lines_from_line [] (k ++ b'=' ∷ v) (render kvs) (no_newline k v h.0))
      (rw (load_line_plain p k v h.0, load_lines) (load_lines-render (set_property p k v) kvs h.1))

-- Loading a file of `key=value` lines sets each property in order, if no key holds a `=` or a
-- newline or makes its line a comment, no value holds a newline, and all of them are trimmed.
pub load-render :
    (p : Properties) (kvs : List (Bytes × Bytes))
    → All IsPlain kvs
    → load p (record { is_open = true; content = render kvs }) ≡ ok (set_all p kvs)
unfolding load
load-render p kvs h = ap ok (load_lines-render p kvs h)
