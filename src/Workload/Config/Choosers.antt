-- ===== src/Workload/Config/Choosers.antt =====
-- What holds of a workload that Init has set up.
use my_ycsb_cpp.Prelude.{ℕ, ◌≡◌, refl, ap, subst, Bool, true, false, [], arith}
use my_ycsb_cpp.Prelude.Int.{ℤ}
use my_ycsb_cpp.Prelude.Float.{Float}
use my_ycsb_cpp.Prelude.Result.{Thrown, exception, ok, require, ok_elim}
use my_ycsb_cpp.Prelude.Bytes.{Bytes, lit}
use my_ycsb_cpp.Utils.Text.{str_to_bool}
use my_ycsb_cpp.Utils.Text.Numbers.{stoi}
use my_ycsb_cpp.Utils.Properties.{Properties, get_property}
use my_ycsb_cpp.Workload.Sources.{
  Sources, Sequence, acked, random_acked, InsertSequence, counter, random,
}
use my_ycsb_cpp.Workload.State.{Workload}
use my_ycsb_cpp.Workload.Builders.{
  in_range, new_sequences, order_flags, new_key_chooser, new_hot_key_chooser, new_scan_len_chooser,
  get_field_len_generator,
}
use my_ycsb_cpp.Workload.Config.{
  init, parse_proportions, parse_sizes, parse_ratio, parse_flags, Flags, hot_start,
}

-- The classes of both sequences are those that the flag stands for.
abbrev pub MatchesOrder : Bool → InsertSequence → Sequence → Type 0
MatchesOrder true (random _) (random_acked _) = Unit
MatchesOrder false (counter _) (acked _) = Unit
MatchesOrder _ _ _ = ⊥

ok_inj : {A : Type 0} {a b : A} → ok a ≡ ok b → a ≡ b
ok_inj h = cc

order_flags_lem :
    (insert_order : Bytes) (flags : Bool × Bool)
    → order_flags insert_order ≡ ok flags
    → flags.0 ≡ true
    → flags.1 ≡ false
unfolding order_flags
order_flags_lem insert_order (false, random_flag) h is_true = cc
order_flags_lem insert_order (true, false) h is_true = refl
order_flags_lem insert_order (true, true) h is_true = ground arith

module _ (fl : Float) (src : Sources fl) where
  pub record IsConsistent (wl : Workload fl src) : Type 0 where
    pub classes :
        MatchesOrder wl.random_inserts wl.insert_key_sequence wl.transaction_insert_key_sequence
    pub one_order : (wl.ordered_inserts ≡ true) → wl.random_inserts ≡ false
    pub hot_ratio : in_range fl src wl.hot_data_ratio ≡ true
    pub warmup_ratio : in_range fl src wl.warmup_ratio ≡ true

  require-ok : (b : Bool) (e : Thrown) → require b e ≡ ok tt → b ≡ true
  require-ok true e h = refl
  require-ok false e h = cc

  new_sequences-MatchesOrder :
      (p : Properties) (b : Bool) (start : ℤ) (count : ℕ) (inserts : fl.F) (r : src.R)
      (made : InsertSequence × Sequence × src.R)
      → new_sequences fl src p b start count inserts r ≡ ok made
      → MatchesOrder b made.0 made.1
  unfolding new_sequences
  new_sequences-MatchesOrder p true start count inserts r made h =
      ok_elim (stoi (get_property p (lit "operationcount") [])) _ h λ op_count _ h.
        subst (λ (m : InsertSequence × Sequence × src.R). MatchesOrder true m.0 m.1) (ok_inj h) tt
  new_sequences-MatchesOrder p false start count inserts r made h =
      subst (λ (m : InsertSequence × Sequence × src.R). MatchesOrder false m.0 m.1) (ok_inj h) tt

  parse_ratio-in_range :
      (text message : Bytes) (ratio : fl.F)
      → parse_ratio fl src text message ≡ ok ratio
      → in_range fl src ratio ≡ true
  unfolding parse_ratio
  parse_ratio-in_range text message ratio h = ok_elim (fl.stod text) _ h λ x _ h.
      ok_elim (require (in_range fl src x) (exception message)) _ h λ _ good h.
        subst (λ y. in_range fl src y ≡ true) (ok_inj h) (require-ok (in_range fl src x) _ good)

  parse_flags_lem :
      (p : Properties) (flags : Flags fl src)
      → parse_flags fl src p ≡ ok flags
      → flags.ordered_inserts ≡ true
      → flags.random_inserts ≡ false
  unfolding parse_flags
  parse_flags_lem p flags h =
      ok_elim (str_to_bool (get_property p (lit "readallfields") (lit "true"))) _ h λ reads _ h.
        ok_elim (str_to_bool (get_property p (lit "writeallfields") (lit "false"))) _ h
          λ writes _ h.
            ok_elim (order_flags (get_property p (lit "insertorder") (lit "hashed"))) _ h
              λ order e h.
                subst (λ (f : Flags fl src). f.ordered_inserts ≡ true → f.random_inserts ≡ false)
                  (ok_inj h)
                  (order_flags_lem (get_property p (lit "insertorder") (lit "hashed")) order e)

  -- A workload that Init returns has both ratios in range, at most one of the two insert orders,
  -- and sequences of the classes that the casts of its transactions assume.
  pub init-IsConsistent :
      (p : Properties) (r : src.R) (wl : Workload fl src) (r' : src.R)
      → init fl src p r ≡ ok (wl, r')
      → IsConsistent wl
  unfolding init
  init-IsConsistent p r wl r' h =
      let request_dist = get_property p (lit "requestdistribution") (lit "uniform") in
      let hot_text = get_property p (lit "hot_data_ratio") (lit "1.0") in
      let warm_text = get_property p (lit "warmup_ratio") (lit "0.0") in
      let scan_dist = get_property p (lit "scanlengthdistribution") (lit "uniform") in
      ok_elim (stoi (get_property p (lit "fieldcount") (lit "10"))) _ h λ field_count _ h.
        ok_elim (get_field_len_generator fl src p r) _ h λ field_len _ h.
          ok_elim (parse_proportions fl src p) _ h λ s _ h.
            ok_elim (parse_sizes fl src p) _ h λ c _ h.
              ok_elim (parse_ratio fl src hot_text _) _ h λ hot_ratio hot_ok h.
                ok_elim (parse_ratio fl src warm_text _) _ h λ warm_ratio warm_ok h.
                  ok_elim (parse_flags fl src p) _ h λ flags ordered h.
                    let random_inserts = flags.random_inserts in
                    ok_elim
                      (new_sequences fl src p random_inserts c.insert_start c.record_count s.inserts
                        field_len.1)
                      _ h
                      λ sequences made h.
                        ok_elim
                          (new_key_chooser fl src p request_dist random_inserts c.record_count
                            s.inserts sequences.1 sequences.2)
                          _ h
                          λ keys _ h.
                            ok_elim
                              (new_hot_key_chooser fl src p request_dist random_inserts
                                c.record_count s.inserts (hot_start fl src c.record_count hot_ratio)
                                sequences.1 keys.1)
                              _ h
                              λ hot _ h.
                                ok_elim
                                  (new_scan_len_chooser fl src scan_dist c.min_scan_len
                                    c.max_scan_len hot.1)
                                  _ h
                                  λ lengths _ h.
                                    subst IsConsistent (ap (λ x. x.0) (ok_inj h)) (record {
                                      classes =
                                          new_sequences-MatchesOrder p random_inserts c.insert_start
                                            c.record_count s.inserts field_len.1 sequences made;
                                      one_order = parse_flags_lem p flags ordered;
                                      hot_ratio = parse_ratio-in_range hot_text _ hot_ratio hot_ok;
                                      warmup_ratio =
                                          parse_ratio-in_range warm_text _ warm_ratio warm_ok;
                                    })
