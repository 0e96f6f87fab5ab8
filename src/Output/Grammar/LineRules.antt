-- ===== src/Output/Grammar/LineRules.antt =====
-- The rules for a whole line (src/mw/gdb/mi2/output.cpp) throw nothing on enough fuel.
use mw_dbg_runner.Common.{ℕ, Bytes, [], ◌∷◌}
use mw_dbg_runner.Error.{ResultClass}
use mw_dbg_runner.Output.{empty_entry, Value}
use mw_dbg_runner.Output.Boost.{Boost}
use mw_dbg_runner.Output.Pegtl.{Pegtl, Consumes}
use mw_dbg_runner.Output.Pegtl.Consumption
use mw_dbg_runner.Output.Pegtl.Consumption.{AtMost, Keeps, Keeps-of_Consumes}
use mw_dbg_runner.Output.Pegtl.Quiet
use mw_dbg_runner.Output.Pegtl.Quiet.{Quiet, QuietBelow}
use mw_dbg_runner.Output.Grammar.{State, Rule, push_back, member}
use mw_dbg_runner.Output.Grammar.Values.{result_rule, anonym_result_rule}
use mw_dbg_runner.Output.Grammar.Consumption.{
  member-Quiet, push_back-Quiet, push_back-Consumes, member-Keeps, result_rule-Consumes,
  anonym_result_rule-Consumes,
}
use mw_dbg_runner.Output.Grammar.Fuel.{result_rule-Quiet, anonym_result_rule-Quiet}
use mw_dbg_runner.Output.Grammar.Records.{
  result_class, async_class_rule, async_output_type, end_of_line, async_results, async_output_rule,
  record_round, record_results, result_record_rule,
}

module _ (p : Pegtl) (b : Boost) where
  -- A comma and what follows it.
  pub after_comma-Consumes :
      {T : Type 0} (a : Rule T) → Consumes a → Consumes (p.seq _ (p.one _ (b',' ∷ [])) a)
  after_comma-Consumes a c =
      Consumption.seq-Consumes p _ _ (Consumption.one-Consumes p _) (Keeps-of_Consumes _ c)

  after_comma-Quiet :
      {T : Type 0} (n : ℕ) (a : Rule T)
      → QuietBelow n a
      → QuietBelow n (p.seq _ (p.one _ (b',' ∷ [])) a)
  after_comma-Quiet n a q =
      Quiet.seq-Quiet p n _ _ (Quiet.one-Quiet p n _)
        (Keeps-of_Consumes _ (Consumption.one-Consumes p _)) q

  end_of_line-Quiet : {T : Type 0} (n : ℕ) → QuietBelow n (end_of_line p b {T = T})
  unfolding end_of_line
  end_of_line-Quiet n =
      Quiet.seq-Quiet p n _ _ (Quiet.opt-Quiet p n _ (Quiet.one-Quiet p n _))
        (Consumption.opt-Keeps p _ (Keeps-of_Consumes _ (Consumption.one-Consumes p _)))
        (Quiet.eof-Quiet p n)

  module _ (n : ℕ) (v : Rule Value) (c : Consumes v) (q : QuietBelow n v) where
    async_results-Quiet : QuietBelow n (async_results p b v)
    unfolding async_results
    async_results-Quiet =
        Quiet.star-Quiet p n _
          (after_comma-Consumes _ (push_back-Consumes _ _ (result_rule-Consumes p b v c)))
          (after_comma-Quiet n _ (push_back-Quiet _ _ n (result_rule-Quiet p b n v c q)))

    async_results-Keeps : Keeps (async_results p b v)
    unfolding async_results
    async_results-Keeps =
        Consumption.star-Keeps p _
          (after_comma-Consumes _ (push_back-Consumes _ _ (result_rule-Consumes p b v c)))

    named-Consumes : Consumes (push_back empty_entry (result_rule p b v))
    named-Consumes = push_back-Consumes _ _ (result_rule-Consumes p b v c)

    pub unnamed-Consumes : Consumes (push_back empty_entry (anonym_result_rule p b v))
    unnamed-Consumes = push_back-Consumes _ _ (anonym_result_rule-Consumes p b v c)

    pub record_round-Consumes : Consumes (record_round p b v)
    unfolding record_round
    record_round-Consumes = after_comma-Consumes _ (
        Consumption.seq-Consumes p _ _ named-Consumes
          (Consumption.star-Keeps p _ (after_comma-Consumes _ unnamed-Consumes)))

    record_round-Quiet : QuietBelow n (record_round p b v)
    unfolding record_round
    record_round-Quiet = after_comma-Quiet n _ (
        Quiet.seq-Quiet p n _ _ (push_back-Quiet _ _ n (result_rule-Quiet p b n v c q))
          (Keeps-of_Consumes _ named-Consumes)
          (Quiet.star-Quiet p n _ (after_comma-Consumes _ unnamed-Consumes)
            (after_comma-Quiet n _ (push_back-Quiet _ _ n (anonym_result_rule-Quiet p b n v c q)))))

    record_results-Quiet : QuietBelow n (record_results p b v)
    unfolding record_results
    record_results-Quiet = Quiet.star-Quiet p n _ record_round-Consumes record_round-Quiet

    record_results-Keeps : Keeps (record_results p b v)
    unfolding record_results
    record_results-Keeps = Consumption.star-Keeps p _ record_round-Consumes

    -- A rule for a field of the line, which keeps the input, before what is left of the line.
    field-Quiet :
        {T U : Type 0} (get : T → U) (put : U → T → T) (a : Rule U) (rest : Rule T)
        → QuietBelow n a
        → Keeps a
        → QuietBelow n rest
        → QuietBelow n (p.seq _ (member get put a) rest)
    field-Quiet get put a rest h k r =
        Quiet.seq-Quiet p n _ _ (member-Quiet get put a n h) (member-Keeps get put a k) r

    pub async_output_rule-Quiet : QuietBelow n (async_output_rule p b v)
    unfolding async_output_rule async_output_type async_class_rule
    async_output_rule-Quiet =
        field-Quiet _ _ _ _ (Quiet.act-Quiet p n _ _ (Quiet.one-Quiet p n _))
          (Consumption.act-Keeps p _ _ (Keeps-of_Consumes _ (Consumption.one-Consumes p _)))
          (field-Quiet _ _ _ _
            (Quiet.act-Quiet p n _ _
              (Quiet.plus-Quiet p n _ (Consumption.ranges-Consumes p _) (Quiet.ranges-Quiet p n _)))
            (Consumption.act-Keeps p _ _ (
              Keeps-of_Consumes _
                (Consumption.plus-Consumes p _ (Consumption.ranges-Consumes p _))))
            (field-Quiet _ _ _ _ async_results-Quiet async_results-Keeps (end_of_line-Quiet n)))

    keyword-Quiet :
        (w : Bytes) (f : Bytes → State ResultClass → State ResultClass)
        → QuietBelow n (p.act _ f (p.string _ w))
    keyword-Quiet w f = Quiet.act-Quiet p n f _ (Quiet.string-Quiet p n w)

    keyword-Consumes :
        (c : ℕ) (w : Bytes) (f : Bytes → State ResultClass → State ResultClass)
        → Consumes (p.act _ f (p.string _ (c ∷ w)))
    keyword-Consumes c w f = Consumption.act-Consumes p f _ (Consumption.string-Consumes p c w)

    result_class-Quiet : QuietBelow n (result_class p b)
    unfolding result_class
    result_class-Quiet = Quiet.sor-Quiet p n _ _ (keyword-Quiet _ _) (
        Quiet.sor-Quiet p n _ _ (keyword-Quiet _ _) (
          Quiet.sor-Quiet p n _ _ (keyword-Quiet _ _)
            (Quiet.sor-Quiet p n _ _ (keyword-Quiet _ _) (keyword-Quiet _ _))))

    result_class-Keeps : Keeps (result_class p b)
    unfolding result_class
    result_class-Keeps = Keeps-of_Consumes _ (
        Consumption.sor-Consumes p _ _ (keyword-Consumes _ _ _) (
          Consumption.sor-Consumes p _ _ (keyword-Consumes _ _ _) (
            Consumption.sor-Consumes p _ _ (keyword-Consumes _ _ _)
              (Consumption.sor-Consumes p _ _ (keyword-Consumes _ _ _) (keyword-Consumes _ _ _)))))

    pub result_record_rule-Quiet : QuietBelow n (result_record_rule p b v)
    unfolding result_record_rule
    result_record_rule-Quiet =
        Quiet.seq-Quiet p n _ _ (Quiet.one-Quiet p n _)
          (Keeps-of_Consumes _ (Consumption.one-Consumes p _))
          (field-Quiet _ _ _ _ result_class-Quiet result_class-Keeps
            (field-Quiet _ _ _ _ record_results-Quiet record_results-Keeps (end_of_line-Quiet n)))
