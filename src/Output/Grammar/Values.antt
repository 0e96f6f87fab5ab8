-- ===== src/Output/Grammar/Values.antt =====
-- The rules for strings, results, tuples, lists and values (src/mw/gdb/mi2/output.cpp).
use mw_dbg_runner.Common.{ℕ, zero, suc, Bytes, List, [], ◌∷◌}
use mw_dbg_runner.Error.{out_of_fuel}
use mw_dbg_runner.Output.{
  Entry, Value, Items, tuple, list, values, results, to_values, to_results, empty_value,
  empty_items, empty_entry,
}
use mw_dbg_runner.Output
use mw_dbg_runner.Output.Boost.{Boost}
use mw_dbg_runner.Output.Pegtl.{Pegtl, raised}
use mw_dbg_runner.Output.Grammar.{
  Rule, member, variant_elem, push_back, unquote, set_variable, set_value,
}

module _ (p : Pegtl) (b : Boost) where
  -- A run of `\"` and of characters other than `"`.
  unfoldable pub cstring_body : Rule Bytes
  cstring_body = p.star _ (p.sor _ (p.string _ (92 ∷ b'"' ∷ [])) (p.not_one _ b'"'))

  unfoldable pub cstring : Rule Bytes
  cstring =
      p.act _ (λ t (d, n). (unquote b t, n))
        (p.seq _ (p.one _ (b'"' ∷ [])) (p.seq _ cstring_body (p.one _ (b'"' ∷ []))))

  -- All characters up to the next `=`.
  unfoldable pub variable : Rule Bytes
  variable = p.act _ (λ t (d, n). (t, t)) (p.plus _ (p.not_one _ b'='))

  unfoldable pub inherited_name : Rule Bytes
  inherited_name = p.act _ (λ t (d, n). (n, n)) (p.success _)

  module _ (value_rule : Rule Value) where
    unfoldable pub result_rule : Rule Entry
    result_rule =
        p.seq _ (member Entry.variable set_variable variable)
          (p.seq _ (p.one _ (b'=' ∷ [])) (member Entry.value_ set_value value_rule))

    unfoldable pub anonym_result_rule : Rule Entry
    anonym_result_rule =
        p.seq _ (member Entry.variable set_variable inherited_name)
          (member Entry.value_ set_value value_rule)

    unfoldable pub result_list : Rule (List Entry)
    result_list = p.list _ (push_back empty_entry result_rule) (p.one _ (b',' ∷ []))

    unfoldable pub value_list : Rule (List Value)
    value_list = p.list _ (push_back empty_value value_rule) (p.one _ (b',' ∷ []))

    unfoldable pub tuple_rule : Rule (List Entry)
    tuple_rule = p.seq _ (p.one _ (b'{' ∷ [])) (p.seq _ result_list (p.one _ (b'}' ∷ [])))

    unfoldable pub list_rule : Rule Items
    list_rule = p.sor _ (p.string _ (b'[' ∷ b']' ∷ [])) (
        p.sor _
          (p.seq _ (p.one _ (b'[' ∷ [])) (
            p.seq _ (variant_elem [] (λ es. results (to_results es)) result_list)
              (p.one _ (b']' ∷ []))))
          (p.seq _ (p.one _ (b'[' ∷ [])) (
            p.seq _ (variant_elem [] (λ vs. values (to_values vs)) value_list)
              (p.one _ (b']' ∷ [])))))

    -- One unfolding of `value_rule`.
    unfoldable pub value_alternatives : Rule Value
    value_alternatives = p.sor _ (variant_elem [] Output.string cstring) (
        p.sor _ (variant_elem [] (λ es. tuple (to_results es)) tuple_rule)
          (variant_elem empty_items list list_rule))

  -- The grammar is recursive: each level of nesting takes a unit of fuel.
  unfoldable pub value_rule : ℕ → Rule Value
  value_rule zero = λ s i. raised out_of_fuel
  value_rule (suc f) = value_alternatives (value_rule f)
