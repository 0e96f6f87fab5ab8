-- ===== src/Output/RoundTrip/Values.antt =====
-- A plain value is read back from its print, whatever follows it.
use mw_dbg_runner.Common.{
  ℕ, suc, ◌≡◌, refl, sym, ◌∙◌, ap, false, Bytes, List, [], ◌∷◌, ◌++◌, append_assoc, append-nil,
  ◌==◌,
}
use mw_dbg_runner.Output.{
  Entry, Value, Results, string, tuple, no_results, result, entries, to_results, to_results-entries,
  empty_value, empty_entry,
}
use mw_dbg_runner.Output.Boost.{Boost}
use mw_dbg_runner.Output.Pegtl.{Pegtl, matched, failed, Consumes}
use mw_dbg_runner.Output.Pegtl.Steps.{
  seq_next, seq_stop, sor_first, sor_second, star_more, star_end, act_failed, one_hit, one_miss,
}
use mw_dbg_runner.Output.Pegtl.Consumption.{one-Consumes, seq-Consumes, Keeps-of_Consumes}
use mw_dbg_runner.Output.Grammar.{
  Rule, refocus, member, variant_elem, push_back, set_variable, set_value,
}
use mw_dbg_runner.Output.Grammar.Values.{
  cstring, variable, result_rule, result_list, tuple_rule, value_alternatives, value_rule,
}
use mw_dbg_runner.Output.Grammar.Consumption.{
  push_back-Consumes, result_rule-Consumes, value_rule-Consumes,
}
use mw_dbg_runner.Output.Syntax.{quoted, show_value, show_results, show_more_results, IsName}
use mw_dbg_runner.Output.RoundTrip.Strings.{NoBackslash, cstring-quoted, variable-name}

module _ {T U : Type 0} where
  pub member_matched :
      (get : T → U) (put : U → T → T) (a : Rule U) (t : T) (n i : Bytes) {u : U} {n' r : Bytes}
      → a (get t, n) i ≡ matched (u, n') r
      → member get put a (t, n) i ≡ matched (put u t, n') r
  unfolding member
  member_matched get put a t n i h = ap (refocus (λ u. put u t)) h

  pub variant_elem_matched :
      (fresh : U) (inject : U → T) (a : Rule U) (t : T) (n i : Bytes) {u : U} {n' r : Bytes}
      → a (fresh, n) i ≡ matched (u, n') r
      → variant_elem fresh inject a (t, n) i ≡ matched (inject u, n') r
  unfolding variant_elem
  variant_elem_matched fresh inject a t n i h = ap (refocus inject) h

  pub variant_elem_failed :
      (fresh : U) (inject : U → T) (a : Rule U) (t : T) (n i : Bytes) {u : U} {n' : Bytes}
      → a (fresh, n) i ≡ failed (u, n')
      → variant_elem fresh inject a (t, n) i ≡ failed (inject u, n')
  unfolding variant_elem
  variant_elem_failed fresh inject a t n i h = ap (refocus inject) h

pub push_back_matched :
    {U : Type 0} (fresh : U) (a : Rule U) (ts : List U) (n i : Bytes) {u : U} {n' r : Bytes}
    → a (fresh, n) i ≡ matched (u, n') r
    → push_back fresh a (ts, n) i ≡ matched (ts ++ u ∷ [], n') r
unfolding push_back
push_back_matched fresh a ts n i h = ap (refocus (λ u. ts ++ u ∷ [])) h

-- The rule reads the value off the front of any input, and leaves some last variable name.
abbrev pub Reads : {T : Type 0} → Rule T → Bytes → T → Type 0
Reads {T} a shown v =
    (d : T) (n rest : Bytes) → (n' : Bytes) × (a (d, n) (shown ++ rest) ≡ matched (v, n') rest)

module _ (p : Pegtl) (b : Boost) where
  module _ (rule : Rule Value) (f : ℕ) where
    pub result_rule-Reads :
        (nm : Bytes) (v : Value)
        → IsName nm
        → Reads rule (show_value v) v
        → (n rest : Bytes)
        → (n' : Bytes) × (result_rule p b rule
              (empty_entry, n)
              (nm ++ b'=' ∷ (show_value v ++ rest))
            ≡ matched (record { variable = nm; value_ = v }, n') rest)
    unfolding result_rule
    result_rule-Reads nm v name reads n rest =
        let (n', e) = reads empty_value nm rest in
        (
          n',
          seq_next p _ _ (empty_entry, n) _
              (member_matched Entry.variable set_variable (variable p b) empty_entry n _
                (variable-name p b nm [] n _ name))
              (seq_next p _ _ _ _ (one_hit p b'=' _ _)
                (member_matched Entry.value_ set_value rule _ nm _ e)),
        )

  pub cstring-failed :
      (d n : Bytes) (c : ℕ) (i : Bytes)
      → (c == b'"') ≡ false
      → cstring p b (d, n) (c ∷ i) ≡ failed (d, n)
  unfolding cstring
  cstring-failed d n c i h =
      act_failed p _ _ (d, n) (c ∷ i) (seq_stop p _ _ (d, n) _ (one_miss p b'"' c (d, n) i h))

  -- The input does not go on with a comma.
  abbrev pub NoComma : Bytes → Type 0
  NoComma [] = Unit
  NoComma (c ∷ rest) = (c == b',') ≡ false

  no_comma : {S : Type 0} (s : S) (i : Bytes) → NoComma i → p.one _ (b',' ∷ []) s i ≡ failed s
  no_comma s [] h = p.one_lem _ _ s []
  no_comma s (c ∷ i) h = one_miss p b',' c s i h

  -- A comma and a named result, which `result_list` repeats.
  abbrev pub comma_result : Rule Value → Rule (List Entry)
  comma_result rule = p.seq _ (p.one _ (b',' ∷ [])) (push_back empty_entry (result_rule p b rule))

  comma_result-Consumes : (f : ℕ) → Consumes (comma_result (value_rule p b f))
  comma_result-Consumes f = seq-Consumes p _ _ (one-Consumes p _) (
      Keeps-of_Consumes _
        (push_back-Consumes _ _ (result_rule-Consumes p b _ (value_rule-Consumes p b f))))

  abbrev pub ReadsMore : ℕ → Results → Type 0
  ReadsMore f rs =
      (es : List Entry) (n rest : Bytes)
      → NoComma rest
      → (n' : Bytes) × (p.star _ (comma_result (value_rule p b f)) (es, n)
            (show_more_results rs ++ rest)
          ≡ matched (es ++ entries rs, n') rest)

  abbrev pub ReadsResults : ℕ → Results → Type 0
  ReadsResults f rs =
      (n : Bytes) (close : ℕ) (rest : Bytes)
      → (close == b',') ≡ false
      → (n' : Bytes) × (result_list p b (value_rule p b f) ([], n) (show_results rs ++ close ∷ rest)
          ≡ matched (entries rs, n') (close ∷ rest))

  regroup :
      (nm shown more rest : Bytes)
      → (nm ++ b'=' ∷ (shown ++ more)) ++ rest ≡ nm ++ b'=' ∷ (shown ++ (more ++ rest))
  regroup nm shown more rest = simp append_assoc

  pub more_end : (f : ℕ) → ReadsMore f no_results
  unfolding show_value
  more_end f es n rest h = (
    n,
    star_end p _ (es, n) _ (comma_result-Consumes f)
          (seq_stop p _ _ (es, n) _ (no_comma (es, n) rest h))
        ∙ ap (λ (x : List Entry). matched (x, n) rest) (sym (append-nil es)),
  )

  pub more_next :
      (f : ℕ) (nm : Bytes) (v : Value) (rs : Results)
      → IsName nm
      → Reads (value_rule p b f) (show_value v) v
      → ReadsMore f rs
      → ReadsMore f (result nm v rs)
  unfolding show_value
  more_next f nm v rs name reads more es n rest h =
      let tail = show_more_results rs ++ rest in
      let (n₁, e₁) = result_rule-Reads (value_rule p b f) f nm v name reads n tail in
      let entry : Entry = record { variable = nm; value_ = v } in
      let (n₂, e₂) = more (es ++ entry ∷ []) n₁ rest h in
      (
        n₂,
        star_more p _ (es, n) _ (comma_result-Consumes f)
            (seq_next p _ _ (es, n) _ (one_hit p b',' (es, n) _)
              (push_back_matched empty_entry (result_rule p b (value_rule p b f)) es n _
                (rw (regroup nm (show_value v) (show_more_results rs) rest) e₁)))
            (e₂
              ∙ ap (λ (x : List Entry). matched (x, n₂) rest)
                  (append_assoc es (entry ∷ []) (entries rs))),
      )

  pub results_next :
      (f : ℕ) (nm : Bytes) (v : Value) (rs : Results)
      → IsName nm
      → Reads (value_rule p b f) (show_value v) v
      → ReadsMore f rs
      → ReadsResults f (result nm v rs)
  unfolding result_list show_value
  results_next f nm v rs name reads more n close rest h =
      let tail = show_more_results rs ++ close ∷ rest in
      let (n₁, e₁) = result_rule-Reads (value_rule p b f) f nm v name reads n tail in
      let entry : Entry = record { variable = nm; value_ = v } in
      let (n₂, e₂) = more (entry ∷ []) n₁ (close ∷ rest) h in
      (
        n₂,
        p.list_lem _ (push_back empty_entry (result_rule p b (value_rule p b f))) _ ([], n) _
            ∙ seq_next p _ _ ([], n) _
                (push_back_matched empty_entry (result_rule p b (value_rule p b f)) [] n _
                  (rw (regroup nm (show_value v) (show_more_results rs) (close ∷ rest)) e₁))
                e₂,
      )

  pub read_string :
      (f : ℕ) (s : Bytes) → NoBackslash s → Reads (value_rule p b (suc f)) (quoted s) (string s)
  unfolding value_rule value_alternatives
  read_string f s h d n rest = (
    n,
    sor_first p _ _ (d, n) _
        (variant_elem_matched [] string (cstring p b) d n _ (cstring-quoted p b s [] n rest h)),
  )

  pub read_tuple :
      (f : ℕ) (rs : Results)
      → ReadsResults f rs
      → Reads (value_rule p b (suc f)) (b'{' ∷ (show_results rs ++ b'}' ∷ [])) (tuple rs)
  unfolding value_rule value_alternatives tuple_rule
  read_tuple f rs reads d n rest =
      let (n', e) = reads n b'}' rest refl in
      (
        n',
        sor_second p _ _ (d, n) _
              (variant_elem_failed [] string (cstring p b) d n _ (cstring-failed [] n b'{' _ refl))
              (sor_first p _ _ _ _ (
                variant_elem_matched [] (λ es. tuple (to_results es)) (tuple_rule p b _) _ n _
                  (seq_next p _ _ ([], n) _ (one_hit p b'{' ([], n) _)
                    (seq_next p _ _ ([], n) _ (rw append_assoc e) (one_hit p b'}' _ rest)))))
            ∙ ap (λ (x : Results). matched (tuple x, n') rest) (to_results-entries rs),
      )
