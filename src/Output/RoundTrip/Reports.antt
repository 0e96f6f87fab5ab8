-- ===== src/Output/RoundTrip/Reports.antt =====
-- A record with one result, such as `^done,bkpt={…}`, is read back (src/mw/gdb/mi2/output.cpp,
-- `parse_record`).
use mw_dbg_runner.Common.{
  ℕ, ◌+◌, ◌≤◌, ◌≡◌, refl, ap, arith, Bool, true, false, Bytes, List, [], ◌∷◌, ◌++◌, length,
  length-append, Option, none, some,
}
use mw_dbg_runner.Error.{ResultClass, done, ok}
use mw_dbg_runner.Output.{Entry, Value, ResultOutput, empty_entry}
use mw_dbg_runner.Output.Boost.{Boost}
use mw_dbg_runner.Output.Pegtl.{Pegtl, matched, failed}
use mw_dbg_runner.Output.Pegtl.Steps.{
  seq_next, seq_stop, star_more, star_end, opt_some, opt_none, one_hit, one_miss,
}
use mw_dbg_runner.Output.Grammar.Values.{value_rule, result_rule}
use mw_dbg_runner.Output.Grammar.Consumption.{value_rule-Consumes}
use mw_dbg_runner.Output.Grammar.Fuel.{value_rule-Quiet}
use mw_dbg_runner.Output.Grammar.LineRules.{
  record_round-Consumes, unnamed-Consumes, after_comma-Consumes,
}
use mw_dbg_runner.Output.Grammar.Records.{
  Line, result_class, record_round, record_results, result_record_rule, with_token, parse_record,
  fresh_output, finish,
}
use mw_dbg_runner.Output.Syntax.{show_value, IsName, IsPlain}
use mw_dbg_runner.Output.RoundTrip.Values.{member_matched, push_back_matched, result_rule-Reads}
use mw_dbg_runner.Output.RoundTrip.Nested.{Reads-value}
use mw_dbg_runner.Output.RoundTrip.Lines.{
  line_end, read_token-to_string, read_token-none, end_of_line-line_end,
}
use mw_dbg_runner.Output.RoundTrip.Async.{show_token, Fits}
use mw_dbg_runner.Output.RoundTrip.Answers.{class_text, result_class-text}

module _ (p : Pegtl) (b : Boost) where
  -- How gdb writes a record with one result.
  abbrev pub show_result : Bytes → Value → Bool → Bytes
  show_result nm v cr = b',' ∷ (nm ++ b'=' ∷ (show_value v ++ line_end cr))

  abbrev pub show_report : Option ℕ → ResultClass → Bytes → Value → Bool → Bytes
  show_report tk k nm v cr = show_token tk ++ b'^' ∷ (class_text k ++ show_result nm v cr)

  abbrev pub report_of : ResultClass → Bytes → Value → ResultOutput
  report_of k nm v = record { class_ = k; results = record { variable = nm; value_ = v } ∷ [] }

  module _ (f : ℕ) where
    comma-line_end :
        {S : Type 0} (s : S) (cr : Bool) → p.one _ (b',' ∷ []) s (line_end cr) ≡ failed s
    comma-line_end s true = one_miss p b',' 13 s [] refl
    comma-line_end s false = p.one_lem _ _ s []

    record_round-result :
        (nm : Bytes) (v : Value) (cr : Bool) (n : Bytes)
        → IsName nm
        → IsPlain v
        → length (show_value v) ≤ f
        → (n' : Bytes) × (record_round p b (value_rule p b f) ([], n) (show_result nm v cr)
            ≡ matched (record { variable = nm; value_ = v } ∷ [], n') (line_end cr))
    unfolding record_round
    record_round-result nm v cr n name plain le =
        let (n', e) =
          result_rule-Reads p b (value_rule p b f) f nm v name (Reads-value p b v f plain le) n
            (line_end cr) in
        let es : List Entry = record { variable = nm; value_ = v } ∷ [] in
        (
          n',
          seq_next p _ _ ([], n) _ (one_hit p b',' ([], n) _)
              (seq_next p _ _ ([], n) _
                (push_back_matched empty_entry (result_rule p b (value_rule p b f)) [] n _ e)
                (star_end p _ (es, n') _
                  (after_comma-Consumes p b _
                    (unnamed-Consumes p b f _ (value_rule-Consumes p b f) (value_rule-Quiet p b f)))
                  (seq_stop p _ _ (es, n') _ (comma-line_end (es, n') cr)))),
        )

    record_results-result :
        (nm : Bytes) (v : Value) (cr : Bool) (n : Bytes)
        → IsName nm
        → IsPlain v
        → length (show_value v) ≤ f
        → (n' : Bytes) × (record_results p b (value_rule p b f) ([], n) (show_result nm v cr)
            ≡ matched (record { variable = nm; value_ = v } ∷ [], n') (line_end cr))
    unfolding record_results record_round
    record_results-result nm v cr n name plain le =
        let (n', e) = record_round-result nm v cr n name plain le in
        let es : List Entry = record { variable = nm; value_ = v } ∷ [] in
        let consumes =
          record_round-Consumes p b f _ (value_rule-Consumes p b f) (value_rule-Quiet p b f) in
        (
          n',
          star_more p _ ([], n) _ consumes e
              (star_end p _ (es, n') _ consumes
                (seq_stop p _ _ (es, n') _ (comma-line_end (es, n') cr))),
        )

    result_record_rule-result :
        (k : ResultClass) (nm : Bytes) (v : Value) (cr : Bool) (n : Bytes)
        → IsName nm
        → IsPlain v
        → length (show_value v) ≤ f
        → (n' : Bytes) × (result_record_rule p b
              (value_rule p b f)
              (fresh_output p b, n)
              (b'^' ∷ (class_text k ++ show_result nm v cr))
            ≡ matched (report_of k nm v, n') [])
    unfolding result_record_rule
    result_record_rule-result k nm v cr n name plain le =
        let (n', e) = record_results-result nm v cr n name plain le in
        (
          n',
          seq_next p _ _ (fresh_output p b, n) _ (one_hit p b'^' (fresh_output p b, n) _)
              (seq_next p _ _ _ _
                (member_matched ResultOutput.class_ _ (result_class p b) _ n _
                  (result_class-text p b k done n _))
                (seq_next p _ _ _ _
                  (member_matched ResultOutput.results _ (record_results p b _) _ n _ e)
                  (end_of_line-line_end p b _ cr))),
        )

  report_le :
      (tk : Option ℕ) (k : ResultClass) (nm : Bytes) (v : Value) (cr : Bool)
      → length (show_value v) ≤ length (show_report tk k nm v cr) + 1
  report_le tk k nm v cr = omega (
    arith,
    length-append (show_token tk) (b'^' ∷ (class_text k ++ show_result nm v cr)),
    length-append (class_text k) (show_result nm v cr),
    length-append nm (b'=' ∷ (show_value v ++ line_end cr)),
    length-append (show_value v) (line_end cr),
  )

  -- A record of any class with one result, whose value is plain, with a token below 2^64 or none and
  -- with or without a carriage return, is parsed into its token, its class and that one result,
  -- whatever the last variable name was.
  pub parse_record-show_report :
      (tk : Option ℕ) (k : ResultClass) (nm : Bytes) (v : Value) (cr : Bool) (n : Bytes)
      → Fits tk
      → IsName nm
      → IsPlain v
      → (n' : Bytes) × (parse_record p b n (show_report tk k nm v cr)
          ≡ (ok (some (record { token = tk; object = report_of k nm v })), n'))
  unfolding parse_record with_token
  parse_record-show_report none k nm v cr n ht name plain =
      let (n', e) =
        result_record_rule-result (length (show_report none k nm v cr) + 1) k nm v cr n name plain
          (report_le none k nm v cr) in
      (
        n',
        ap (finish p b (λ (l : Line ResultOutput). l) n) (
            seq_next p _ _ _ _ (opt_none p _ _ _ (read_token-none p b _ n _ refl))
              (member_matched Line.object _ _ _ n _ e)),
      )
  parse_record-show_report (some tk) k nm v cr n ht name plain =
      let (n', e) =
        result_record_rule-result (length (show_report (some tk) k nm v cr) + 1) k nm v cr n name
          plain (report_le (some tk) k nm v cr) in
      (
        n',
        ap (finish p b (λ (l : Line ResultOutput). l) n) (
            seq_next p _ _ _ _ (opt_some p _ _ _ (read_token-to_string p b tk _ n _ ht refl))
              (member_matched Line.object _ _ _ n _ e)),
      )
