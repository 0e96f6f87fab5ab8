-- ===== src/Output/Grammar/Consumption.antt =====
-- The rules of the grammar (src/mw/gdb/mi2/output.cpp) use up input.
use mw_dbg_runner.Common.{ℕ, zero, suc, Bytes, [], ◌∷◌}
use mw_dbg_runner.Output.{Value}
use mw_dbg_runner.Output.Boost.{Boost}
use mw_dbg_runner.Output.Pegtl.{Pegtl, Outcome, matched, failed, raised, Shorter, Consumes}
use mw_dbg_runner.Output.Pegtl.Consumption
use mw_dbg_runner.Output.Pegtl.Consumption.{AtMost, Keeps, Keeps-of_Consumes}
use mw_dbg_runner.Output.Pegtl.Quiet.{Quiet, QuietBelow}
use mw_dbg_runner.Output.Grammar.{State, Rule, refocus, member, variant_elem, push_back}
use mw_dbg_runner.Output.Grammar.Values.{
  cstring_body, cstring, variable, inherited_name, result_rule, anonym_result_rule, result_list,
  value_list, tuple_rule, list_rule, value_alternatives, value_rule,
}

module _ {T U : Type 0} (put : U → T) where
  refocus-Shorter : (i : Bytes) (o : Outcome (State U)) → Shorter i o → Shorter i (refocus put o)
  refocus-Shorter i (matched (u, n) r) h = h
  refocus-Shorter i (failed (u, n)) h = tt
  refocus-Shorter i (raised e) h = tt

  refocus-AtMost : (i : Bytes) (o : Outcome (State U)) → AtMost i o → AtMost i (refocus put o)
  refocus-AtMost i (matched (u, n) r) h = h
  refocus-AtMost i (failed (u, n)) h = tt
  refocus-AtMost i (raised e) h = tt

  refocus-Quiet : (o : Outcome (State U)) → Quiet o → Quiet (refocus put o)
  refocus-Quiet (matched (u, n) r) h = tt
  refocus-Quiet (failed (u, n)) h = tt
  refocus-Quiet (raised e) h = h

module _ {T U : Type 0} (get : T → U) (put : U → T → T) (a : Rule U) where
  pub member-Consumes : Consumes a → Consumes (member get put a)
  unfolding member
  member-Consumes h (t, n) i = refocus-Shorter (λ u. put u t) i (a (get t, n) i) (h (get t, n) i)

  pub member-Keeps : Keeps a → Keeps (member get put a)
  unfolding member
  member-Keeps h (t, n) i = refocus-AtMost (λ u. put u t) i (a (get t, n) i) (h (get t, n) i)

  pub member-Quiet : (k : ℕ) → QuietBelow k a → QuietBelow k (member get put a)
  unfolding member
  member-Quiet k h (t, n) i lt = refocus-Quiet (λ u. put u t) (a (get t, n) i) (h (get t, n) i lt)

module _ {T U : Type 0} (fresh : U) (inject : U → T) (a : Rule U) where
  pub variant_elem-Consumes : Consumes a → Consumes (variant_elem fresh inject a)
  unfolding variant_elem
  variant_elem-Consumes h (t, n) i = refocus-Shorter inject i (a (fresh, n) i) (h (fresh, n) i)

  pub variant_elem-Quiet : (k : ℕ) → QuietBelow k a → QuietBelow k (variant_elem fresh inject a)
  unfolding variant_elem
  variant_elem-Quiet k h (t, n) i lt = refocus-Quiet inject (a (fresh, n) i) (h (fresh, n) i lt)

module _ {U : Type 0} (fresh : U) (a : Rule U) where
  pub push_back-Consumes : Consumes a → Consumes (push_back fresh a)
  unfolding push_back
  push_back-Consumes h (t, n) i = refocus-Shorter _ i (a (fresh, n) i) (h (fresh, n) i)

  pub push_back-Quiet : (k : ℕ) → QuietBelow k a → QuietBelow k (push_back fresh a)
  unfolding push_back
  push_back-Quiet k h (t, n) i lt = refocus-Quiet _ (a (fresh, n) i) (h (fresh, n) i lt)

module _ (p : Pegtl) (b : Boost) where
  pub escaped-Consumes :
      Consumes (p.sor (State Bytes) (p.string _ (92 ∷ b'"' ∷ [])) (p.not_one _ b'"'))
  escaped-Consumes =
      Consumption.sor-Consumes p _ _ (Consumption.string-Consumes p 92 (b'"' ∷ []))
        (Consumption.not_one-Consumes p b'"')

  pub cstring_body-Keeps : Keeps (cstring_body p b)
  unfolding cstring_body
  cstring_body-Keeps = Consumption.star-Keeps p _ escaped-Consumes

  pub cstring-Consumes : Consumes (cstring p b)
  unfolding cstring
  cstring-Consumes = Consumption.act-Consumes p _ _ (
      Consumption.seq-Consumes p _ _ (Consumption.one-Consumes p _) (
        Consumption.seq-Keeps p _ _ cstring_body-Keeps
          (Keeps-of_Consumes _ (Consumption.one-Consumes p _))))

  pub variable-Consumes : Consumes (variable p b)
  unfolding variable
  variable-Consumes =
      Consumption.act-Consumes p _ _
        (Consumption.plus-Consumes p _ (Consumption.not_one-Consumes p b'='))

  pub inherited_name-Keeps : Keeps (inherited_name p b)
  unfolding inherited_name
  inherited_name-Keeps = Consumption.act-Keeps p _ _ (Consumption.success-Keeps p)

  bracketed-Consumes :
      {T : Type 0} (first last : Bytes) (a : Rule T)
      → Consumes a
      → Consumes (p.seq _ (p.one _ first) (p.seq _ a (p.one _ last)))
  bracketed-Consumes first last a h =
      Consumption.seq-Consumes p _ _ (Consumption.one-Consumes p first) (
        Keeps-of_Consumes _ (
          Consumption.seq-Consumes p _ _ h (Keeps-of_Consumes _ (Consumption.one-Consumes p last))))

  module _ (v : Rule Value) (c : Consumes v) where
    pub result_rule-Consumes : Consumes (result_rule p b v)
    unfolding result_rule
    result_rule-Consumes =
        Consumption.seq-Consumes p _ _ (member-Consumes _ _ _ variable-Consumes) (
          Keeps-of_Consumes _ (
            Consumption.seq-Consumes p _ _ (Consumption.one-Consumes p _)
              (member-Keeps _ _ _ (Keeps-of_Consumes _ c))))

    pub anonym_result_rule-Consumes : Consumes (anonym_result_rule p b v)
    unfolding anonym_result_rule
    anonym_result_rule-Consumes =
        Consumption.seq-Consumes_right p _ _ (member-Keeps _ _ _ inherited_name-Keeps)
          (member-Consumes _ _ _ c)

    pub result_list-Consumes : Consumes (result_list p b v)
    unfolding result_list
    result_list-Consumes =
        Consumption.list-Consumes p _ _ (push_back-Consumes _ _ result_rule-Consumes)
          (Consumption.one-Consumes p _)

    pub value_list-Consumes : Consumes (value_list p b v)
    unfolding value_list
    value_list-Consumes =
        Consumption.list-Consumes p _ _ (push_back-Consumes _ _ c) (Consumption.one-Consumes p _)

    value_alternatives-Consumes : Consumes (value_alternatives p b v)
    unfolding value_alternatives tuple_rule list_rule
    value_alternatives-Consumes =
        Consumption.sor-Consumes p _ _ (variant_elem-Consumes _ _ _ cstring-Consumes) (
          Consumption.sor-Consumes p _ _
            (variant_elem-Consumes _ _ _ (bracketed-Consumes _ _ _ result_list-Consumes))
            (variant_elem-Consumes _ _ _ (
              Consumption.sor-Consumes p _ _ (Consumption.string-Consumes p b'[' (b']' ∷ [])) (
                Consumption.sor-Consumes p _ _
                  (bracketed-Consumes _ _ _ (variant_elem-Consumes _ _ _ result_list-Consumes))
                  (bracketed-Consumes _ _ _ (variant_elem-Consumes _ _ _ value_list-Consumes))))))

  -- A value that is matched takes up at least one character.
  pub value_rule-Consumes : (f : ℕ) → Consumes (value_rule p b f)
  unfolding value_rule
  value_rule-Consumes zero = λ s i. tt
  value_rule-Consumes (suc f) =
      value_alternatives-Consumes (value_rule p b f) (value_rule-Consumes f)
