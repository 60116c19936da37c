-- ===== src/Measurements/Reports.antt =====
-- What the counters of an operation hold after a sequence of reports.
use my_ycsb_cpp.Prelude.{
  ℕ, ◌+◌, ◌≤◌, ◌<◌, ◌^◌, ◌≡◌, refl, ap, ◌∙◌, false, List, [], ◌∷◌, length, arith, get_elem?, sym,
  some, ◌++◌, length-append, All-append, Bool-cases, inl, inr, ◌⊎◌, if◌then◌else◌, All, ◌==◌,
}
use my_ycsb_cpp.Prelude.Bits.{u32, u64}
use my_ycsb_cpp.Measurements.{
  Operation, BasicMeasurements, report, report_list, op_index, operations,
}

-- The latencies that were reported of one operation.
abbrev pub latencies_of : Operation → List (Operation × ℕ) → List ℕ
latencies_of op [] = []
latencies_of op ((o, l) ∷ reports) =
    if op_index op == op_index o then l ∷ latencies_of op reports else latencies_of op reports

abbrev pub total : List ℕ → ℕ
total [] = 0
total (l ∷ ls) = l + total ls

abbrev pub IsIn : ℕ → List ℕ → Type 0
IsIn a [] = ⊥
IsIn a (l ∷ ls) = (l ≡ a) ⊎ IsIn a ls

-- How the counters of `op` move from `m` to `m'` when `ls` is reported.
pub record Counted (op : Operation) (ls : List ℕ) (m m' : BasicMeasurements) : Type 0 where
  pub count : m'.count op ≡ u32 (m.count op + length ls)
  pub sum : m'.latency_sum op ≡ u64 (m.latency_sum op + total ls)
  pub least : m'.latency_min op ≤ m.latency_min op
  pub most : m.latency_max op ≤ m'.latency_max op
  pub bounds : All (λ l. (m'.latency_min op ≤ l) × (l ≤ m'.latency_max op)) ls
  pub min_reached : (m'.latency_min op ≡ m.latency_min op) ⊎ IsIn (m'.latency_min op) ls
  pub max_reached : (m'.latency_max op ≡ m.latency_max op) ⊎ IsIn (m'.latency_max op) ls

op_at-op_index : (op : Operation) → get_elem? operations (op_index op) ≡ some op
op_at-op_index Operation.op_insert = refl
op_at-op_index _ = refl

op_index-injective : (a b : Operation) → op_index a ≡ op_index b → a ≡ b
op_index-injective a b e =
    ground (arith, sym (op_at-op_index a) ∙ ap (get_elem? operations) e ∙ op_at-op_index b)

report_self :
    (op : Operation) (l : ℕ) (m : BasicMeasurements)
    → m.count op < 2 ^ 32
    → Counted op (l ∷ []) m (report m op l)
unfolding report
report_self op l m c = ground arith

report_other :
    (op o : Operation) (l : ℕ) (m : BasicMeasurements)
    → (op_index op == op_index o) ≡ false
    → m.count op < 2 ^ 32
    → m.latency_sum op < 2 ^ 64
    → Counted op [] m (report m o l)
unfolding report
report_other op o l m other c s = ground arith

total-append : (xs ys : List ℕ) → total (xs ++ ys) ≡ total xs + total ys
total-append [] ys = omega arith
total-append (x ∷ xs) ys = omega (arith, total-append xs ys)

IsIn-append_left : (a : ℕ) (xs ys : List ℕ) → IsIn a xs → IsIn a (xs ++ ys)
IsIn-append_left a [] ys h = absurd h
IsIn-append_left a (x ∷ xs) ys (inl e) = inl e
IsIn-append_left a (x ∷ xs) ys (inr h) = inr (IsIn-append_left a xs ys h)

IsIn-append_right : (a : ℕ) (xs ys : List ℕ) → IsIn a ys → IsIn a (xs ++ ys)
IsIn-append_right a [] ys h = h
IsIn-append_right a (x ∷ xs) ys h = inr (IsIn-append_right a xs ys h)

-- A value reached in two stages.
reached :
    (xs ys : List ℕ) {a b c : ℕ}
    → (b ≡ a) ⊎ IsIn b xs
    → (c ≡ b) ⊎ IsIn c ys
    → (c ≡ a) ⊎ IsIn c (xs ++ ys)
reached xs ys {a} {b} {c} p (inr h) = inr (IsIn-append_right c xs ys h)
reached xs ys (inl e) (inl e') = inl (e' ∙ e)
reached xs ys {a} {b} {c} (inr h) (inl e') = inr (IsIn-append_left c xs ys (rw e' h))

widen :
    (ls : List ℕ) (lo hi lo' hi' : ℕ)
    → lo' ≤ lo
    → hi ≤ hi'
    → All (λ l. (lo ≤ l) × (l ≤ hi)) ls
    → All (λ l. (lo' ≤ l) × (l ≤ hi')) ls
widen [] lo hi lo' hi' p q h = tt
widen (l ∷ ls) lo hi lo' hi' p q h = (omega arith, widen ls lo hi lo' hi' p q h.1)

Counted-append :
    (op : Operation) (xs ys : List ℕ) (a b c : BasicMeasurements)
    → Counted op xs a b
    → Counted op ys b c
    → Counted op (xs ++ ys) a c
Counted-append op xs ys a b c p q = record {
  count = omega (arith, p.count, q.count, length-append xs ys);
  sum = omega (arith, p.sum, q.sum, total-append xs ys);
  least = omega (arith, p.least, q.least);
  most = omega (arith, p.most, q.most);
  bounds = All-append _ xs ys (widen xs _ _ _ _ q.least q.most p.bounds) q.bounds;
  min_reached = reached xs ys p.min_reached q.min_reached;
  max_reached = reached xs ys p.max_reached q.max_reached;
}

-- From counters that are in range, a sequence of reports of any operations adds, for each
-- operation, the number and the sum of its latencies, modulo the counters' ranges, and moves the
-- minimum and the maximum to the least and the greatest latency seen.
pub report_list-Counted :
    (op : Operation) (reports : List (Operation × ℕ)) (m : BasicMeasurements)
    → m.count op < 2 ^ 32
    → m.latency_sum op < 2 ^ 64
    → Counted op (latencies_of op reports) m (report_list m reports)
unfolding report_list
report_list-Counted op [] m c s = record {
  count = omega arith;
  sum = omega arith;
  least = omega arith;
  most = omega arith;
  bounds = tt;
  min_reached = inl refl;
  max_reached = inl refl;
}
report_list-Counted op ((o, l) ∷ reports) m c s =
    let rest = report_list-Counted op reports (report m o l) in
    elim (Bool-cases (op_index op == op_index o)) [
      | inl same ↦
          let first : Counted op (l ∷ []) m (report m o l) =
            rw (op_index-injective o op (ground arith)) (report_self op l m c) in
          rw same (
            Counted-append op (l ∷ []) (latencies_of op reports) m (report m o l) _ first
              (rest (omega (arith, first.count)) (omega (arith, first.sum))))
      | inr other ↦
          let first = report_other op o l m other c s in
          rw other (
            Counted-append op [] (latencies_of op reports) m (report m o l) _ first
              (rest (omega (arith, first.count)) (omega (arith, first.sum))))
    ]
