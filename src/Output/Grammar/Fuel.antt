-- ===== src/Output/Grammar/Fuel.antt =====
-- The fuel of `value_rule` is enough when it exceeds the length of the input.
use mw_dbg_runner.Common.{ℕ, zero, suc, arith, Bytes}
use mw_dbg_runner.Output.{Value}
use mw_dbg_runner.Output.Boost.{Boost}
use mw_dbg_runner.Output.Pegtl.{Pegtl, Consumes}
use mw_dbg_runner.Output.Pegtl.Consumption
use mw_dbg_runner.Output.Pegtl.Consumption.{Keeps-of_Consumes}
use mw_dbg_runner.Output.Pegtl.Quiet
use mw_dbg_runner.Output.Pegtl.Quiet.{QuietBelow}
use mw_dbg_runner.Output.Grammar.{Rule}
use mw_dbg_runner.Output.Grammar.Values.{
  cstring_body, cstring, variable, inherited_name, result_rule, anonym_result_rule, result_list,
  value_list, tuple_rule, list_rule, value_alternatives, value_rule,
}
use mw_dbg_runner.Output.Grammar.Consumption.{
  member-Quiet, variant_elem-Quiet, push_back-Quiet, push_back-Consumes, escaped-Consumes,
  cstring_body-Keeps, variable-Consumes, member-Consumes, member-Keeps, inherited_name-Keeps,
  result_rule-Consumes, result_list-Consumes, value_list-Consumes, value_rule-Consumes,
  variant_elem-Consumes,
}

module _ (p : Pegtl) (b : Boost) where
  pub cstring-Quiet : (n : ℕ) → QuietBelow n (cstring p b)
  unfolding cstring cstring_body
  cstring-Quiet n = Quiet.act-Quiet p n _ _ (
      Quiet.seq-Quiet p n _ _ (Quiet.one-Quiet p n _)
        (Keeps-of_Consumes _ (Consumption.one-Consumes p _))
        (Quiet.seq-Quiet p n _ _
          (Quiet.star-Quiet p n _ (escaped-Consumes p b)
            (Quiet.sor-Quiet p n _ _ (Quiet.string-Quiet p n _) (Quiet.not_one-Quiet p n _)))
          (cstring_body-Keeps p b) (Quiet.one-Quiet p n _)))

  variable-Quiet : (n : ℕ) → QuietBelow n (variable p b)
  unfolding variable
  variable-Quiet n =
      Quiet.act-Quiet p n _ _
        (Quiet.plus-Quiet p n _ (Consumption.not_one-Consumes p b'=') (Quiet.not_one-Quiet p n _))

  inherited_name-Quiet : (n : ℕ) → QuietBelow n (inherited_name p b)
  unfolding inherited_name
  inherited_name-Quiet n = Quiet.act-Quiet p n _ _ (Quiet.success-Quiet p n)

  -- A sequence in brackets asks of its body one character less.
  bracketed-Quiet :
      {T : Type 0} (n : ℕ) (first last : Bytes) (a : Rule T)
      → Consumes a
      → QuietBelow n a
      → QuietBelow (suc n) (p.seq _ (p.one _ first) (p.seq _ a (p.one _ last)))
  bracketed-Quiet n first last a c h =
      Quiet.seq-Quiet_shorter p n _ _ (Quiet.one-Quiet p (suc n) first)
        (Consumption.one-Consumes p first)
        (Quiet.seq-Quiet p n _ _ h (Keeps-of_Consumes a c) (Quiet.one-Quiet p n last))

  module _ (n : ℕ) (v : Rule Value) (c : Consumes v) (quiet : QuietBelow n v) where
    pub result_rule-Quiet : QuietBelow n (result_rule p b v)
    unfolding result_rule
    result_rule-Quiet =
        Quiet.seq-Quiet p n _ _ (member-Quiet _ _ _ n (variable-Quiet n))
          (Keeps-of_Consumes _ (member-Consumes _ _ _ (variable-Consumes p b)))
          (Quiet.seq-Quiet p n _ _ (Quiet.one-Quiet p n _)
            (Keeps-of_Consumes _ (Consumption.one-Consumes p _)) (member-Quiet _ _ _ n quiet))

    pub anonym_result_rule-Quiet : QuietBelow n (anonym_result_rule p b v)
    unfolding anonym_result_rule
    anonym_result_rule-Quiet =
        Quiet.seq-Quiet p n _ _ (member-Quiet _ _ _ n (inherited_name-Quiet n))
          (member-Keeps _ _ _ (inherited_name-Keeps p b)) (member-Quiet _ _ _ n quiet)

    result_list-Quiet : QuietBelow n (result_list p b v)
    unfolding result_list
    result_list-Quiet =
        Quiet.list-Quiet p n _ _ (push_back-Consumes _ _ (result_rule-Consumes p b v c))
          (Consumption.one-Consumes p _) (push_back-Quiet _ _ n result_rule-Quiet)
          (Quiet.one-Quiet p n _)

    value_list-Quiet : QuietBelow n (value_list p b v)
    unfolding value_list
    value_list-Quiet =
        Quiet.list-Quiet p n _ _ (push_back-Consumes _ _ c) (Consumption.one-Consumes p _)
          (push_back-Quiet _ _ n quiet) (Quiet.one-Quiet p n _)

    value_alternatives-Quiet : QuietBelow (suc n) (value_alternatives p b v)
    unfolding value_alternatives tuple_rule list_rule
    value_alternatives-Quiet =
        let rs = result_list-Consumes p b v c in
        let vs = value_list-Consumes p b v c in
        Quiet.sor-Quiet p (suc n) _ _ (variant_elem-Quiet _ _ _ _ (cstring-Quiet (suc n))) (
          Quiet.sor-Quiet p (suc n) _ _
            (variant_elem-Quiet _ _ _ _ (bracketed-Quiet n _ _ _ rs result_list-Quiet))
            (variant_elem-Quiet _ _ _ _ (
              Quiet.sor-Quiet p (suc n) _ _ (Quiet.string-Quiet p (suc n) _) (
                Quiet.sor-Quiet p (suc n) _ _
                  (bracketed-Quiet n _ _ _ (variant_elem-Consumes _ _ _ rs)
                    (variant_elem-Quiet _ _ _ n result_list-Quiet))
                  (bracketed-Quiet n _ _ _ (variant_elem-Consumes _ _ _ vs)
                    (variant_elem-Quiet _ _ _ n value_list-Quiet))))))

  -- On an input shorter than its fuel the recursion ends before the fuel does.
  pub value_rule-Quiet : (f : ℕ) → QuietBelow f (value_rule p b f)
  unfolding value_rule
  value_rule-Quiet zero = λ s i lt. absurd (omega arith)
  value_rule-Quiet (suc f) =
      value_alternatives-Quiet f (value_rule p b f) (value_rule-Consumes p b f) (value_rule-Quiet f)
