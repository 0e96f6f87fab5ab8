-- ===== src/Output/RoundTrip/Nested.antt =====
-- Lists, and the induction over nested values.
use mw_dbg_runner.Common.{
  ℕ, zero, suc, ◌≤◌, ◌≡◌, refl, ◌∙◌, ap, arith, false, Bytes, [], ◌∷◌, ◌++◌, append_assoc, length,
  length-append, has_prefix,
}
use mw_dbg_runner.Output.{
  Value, Items, Results, string, tuple, list, values, results, no_values, value, no_results, result,
  to_results, to_results-entries, empty_items,
}
use mw_dbg_runner.Output.Boost.{Boost}
use mw_dbg_runner.Output.Pegtl.{Pegtl, matched}
use mw_dbg_runner.Output.Pegtl.Steps.{
  seq_next, seq_stop, sor_first, sor_second, one_hit, one_miss, string_miss,
}
use mw_dbg_runner.Output.Grammar.Values.{
  cstring, result_list, tuple_rule, list_rule, value_alternatives, value_rule,
}
use mw_dbg_runner.Output.Syntax.{
  show_value, show_items, show_results, show_more_results, IsName, NotEmpty, IsPlain, ItemsPlain,
  ArePlain,
}
use mw_dbg_runner.Output.RoundTrip.Values.{
  Reads, ReadsMore, ReadsResults, variant_elem_matched, variant_elem_failed, cstring-failed,
  more_end, more_next, results_next, read_string, read_tuple,
}

-- The value and the rest of the results are no longer than a result with them.
parts_le :
    (nm shown more : Bytes) {f : ℕ}
    → length (nm ++ b'=' ∷ (shown ++ more)) ≤ f
    → (length shown ≤ f) × (length more ≤ f)
parts_le nm shown more le =
    omega (arith, length-append nm (b'=' ∷ (shown ++ more)), length-append shown more)

module _ (p : Pegtl) (b : Boost) where
  -- The first two alternatives of a value fail at `[`.
  in_brackets :
      (f : ℕ) (l : Items) (shown : Bytes)
      → ((n rest : Bytes)
          → (n' : Bytes) × (list_rule p b
                (value_rule p b f)
                (empty_items, n)
                (b'[' ∷ (shown ++ b']' ∷ rest))
              ≡ matched (l, n') rest))
      → Reads (value_rule p b (suc f)) (b'[' ∷ (shown ++ b']' ∷ [])) (list l)
  unfolding value_rule value_alternatives tuple_rule
  in_brackets f l shown reads d n rest =
      let (n', e) = reads n rest in
      (
        n',
        sor_second p _ _ (d, n) _
            (variant_elem_failed [] string (cstring p b) d n _
              (cstring-failed p b [] n b'[' _ refl))
            (sor_second p _ _ _ _
              (variant_elem_failed [] (λ es. tuple (to_results es)) (tuple_rule p b _) _ n _
                (seq_stop p _ _ ([], n) _ (one_miss p b'{' b'[' ([], n) _ refl)))
              (variant_elem_matched empty_items list (list_rule p b _) _ n _ (rw append_assoc e))),
      )

  bracket_miss :
      (nm : Bytes) (more : Bytes)
      → IsName nm
      → has_prefix (b'[' ∷ b']' ∷ []) (b'[' ∷ (nm ++ more)) ≡ false
  unfolding has_prefix
  bracket_miss [] more h = absurd h
  bracket_miss (c ∷ nm) more h = ground arith

  read_results :
      (f : ℕ) (nm : Bytes) (v : Value) (rs : Results)
      → IsName nm
      → ReadsResults p b f (result nm v rs)
      → Reads
          (value_rule p b (suc f))
          (b'[' ∷ (show_results (result nm v rs) ++ b']' ∷ []))
          (list (results (result nm v rs)))
  unfolding list_rule show_value
  read_results f nm v rs name reads =
      in_brackets f (results (result nm v rs)) (show_results (result nm v rs)) λ n rest.
        let (n', e) = reads n b']' rest refl in
        (
          n',
          sor_second p _ _ (empty_items, n) _
                (string_miss p _ (empty_items, n) _ (rw append_assoc (bracket_miss nm _ name)))
                (sor_first p _ _ (empty_items, n) _
                  (seq_next p _ _ (empty_items, n) _ (one_hit p b'[' (empty_items, n) _)
                    (seq_next p _ _ (empty_items, n) _
                      (variant_elem_matched [] (λ es. results (to_results es)) (result_list p b _)
                        empty_items n _ e)
                      (one_hit p b']' _ rest))))
              ∙ ap (λ (x : Results). matched (results x, n') rest)
                  (to_results-entries (result nm v rs)),
        )

  read_no_values :
      (f : ℕ) → Reads (value_rule p b (suc f)) (b'[' ∷ b']' ∷ []) (list (values no_values))
  unfolding list_rule has_prefix
  read_no_values f =
      in_brackets f (values no_values) []
        λ n rest. (n, sor_first p _ _ (empty_items, n) _ (p.string_lem _ _ (empty_items, n) _))

  mutual
    unfolding show_value IsPlain

    pub Reads-value :
        (v : Value) (f : ℕ)
        → IsPlain v
        → length (show_value v) ≤ f
        → Reads (value_rule p b f) (show_value v) v
    Reads-value (string s) zero h le = absurd (omega arith)
    Reads-value (string s) (suc f) h le = read_string p b f s h
    Reads-value (tuple rs) zero h le = absurd (omega arith)
    Reads-value (tuple rs) (suc f) h le =
        read_tuple p b f rs
          (reads_results rs f h.0 h.1 (omega (arith, length-append (show_results rs) (b'}' ∷ []))))
    Reads-value (list l) zero h le = absurd (omega arith)
    Reads-value (list l) (suc f) h le =
        Reads-items l f h (omega (arith, length-append (show_items l) (b']' ∷ [])))

    Reads-items :
        (l : Items) (f : ℕ)
        → ItemsPlain l
        → length (show_items l) ≤ f
        → Reads (value_rule p b (suc f)) (b'[' ∷ (show_items l ++ b']' ∷ [])) (list l)
    Reads-items (values no_values) f h le = read_no_values f
    Reads-items (values (value v vs)) f h le = absurd h
    Reads-items (results no_results) f h le = absurd h.0
    Reads-items (results (result nm v rs)) f h le =
        read_results f nm v rs h.1.0 (reads_results (result nm v rs) f h.0 h.1 le)

    reads_results :
        (rs : Results) (f : ℕ)
        → NotEmpty rs
        → ArePlain rs
        → length (show_results rs) ≤ f
        → ReadsResults p b f rs
    reads_results no_results f ne h le = absurd ne
    reads_results (result nm v rs) f ne (name, plain, h) le =
        results_next p b f nm v rs name
          (Reads-value v f plain (parts_le nm (show_value v) (show_more_results rs) le).0)
          (reads_more rs f h (parts_le nm (show_value v) (show_more_results rs) le).1)

    pub reads_more :
        (rs : Results) (f : ℕ)
        → ArePlain rs
        → length (show_more_results rs) ≤ f
        → ReadsMore p b f rs
    reads_more no_results f h le = more_end p b f
    reads_more (result nm v rs) f (name, plain, h) le =
        more_next p b f nm v rs name
          (Reads-value v f plain
            (parts_le nm (show_value v) (show_more_results rs) (omega arith)).0)
          (reads_more rs f h (parts_le nm (show_value v) (show_more_results rs) (omega arith)).1)

  -- A plain value is read back from its print, whatever stands behind it, on fuel of at least the
  -- length of the print; the rule stops right behind the print.
  pub value_rule-show_value :
      (v : Value) (f : ℕ) (d : Value) (n rest : Bytes)
      → IsPlain v
      → length (show_value v) ≤ f
      → (n' : Bytes) × (value_rule p b f (d, n) (show_value v ++ rest) ≡ matched (v, n') rest)
  value_rule-show_value v f d n rest plain le = Reads-value v f plain le d n rest
