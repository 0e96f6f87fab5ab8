-- ===== src/Output/RoundTrip/Answers.antt =====
-- A record without results, the answer to a command, is read back (src/mw/gdb/mi2/output.cpp,
-- `parse_record`).
use mw_dbg_runner.Common.{
  ℕ, ◌+◌, ◌≡◌, refl, ap, Bool, true, false, Bytes, codes, [], ◌∷◌, ◌++◌, length, has_prefix, Option,
  none, some,
}
use mw_dbg_runner.Error.{ResultClass, done, running, connected, error, exit, ok}
use mw_dbg_runner.Output.{ResultOutput}
use mw_dbg_runner.Output.Boost.{Boost}
use mw_dbg_runner.Output.Pegtl.{Pegtl, matched, failed}
use mw_dbg_runner.Output.Pegtl.Steps.{
  seq_next, seq_stop, sor_first, sor_second, star_end, opt_some, opt_none, act_matched, act_failed,
  one_hit, one_miss, string_miss,
}
use mw_dbg_runner.Output.Grammar.Values.{value_rule}
use mw_dbg_runner.Output.Grammar.Consumption.{value_rule-Consumes}
use mw_dbg_runner.Output.Grammar.Fuel.{value_rule-Quiet}
use mw_dbg_runner.Output.Grammar.LineRules.{record_round-Consumes}
use mw_dbg_runner.Output.Grammar.Records.{
  Line, keyword, result_class, record_round, record_results, result_record_rule, with_token,
  parse_record, fresh_output, finish,
}
use mw_dbg_runner.Output.RoundTrip.Values.{member_matched}
use mw_dbg_runner.Output.RoundTrip.Lines.{
  line_end, read_token-to_string, read_token-none, end_of_line-line_end,
}
use mw_dbg_runner.Output.RoundTrip.Async.{show_token, Fits}

-- How gdb writes the class of a record.
unfoldable pub class_text : ResultClass → Bytes
class_text done = codes "done"
class_text running = codes "running"
class_text connected = codes "connected"
class_text error = codes "error"
class_text exit = codes "exit"

module _ (p : Pegtl) (b : Boost) where
  keyword-hit :
      (k : ResultClass) (d : ResultClass) (n rest : Bytes)
      → keyword p b (class_text k) k (d, n) (class_text k ++ rest) ≡ matched (k, n) rest
  unfolding class_text has_prefix
  keyword-hit done d n rest =
      act_matched p _ _ (d, n) (codes "done") rest (p.string_lem _ (codes "done") (d, n) _)
  keyword-hit running d n rest =
      act_matched p _ _ (d, n) (codes "running") rest (p.string_lem _ (codes "running") (d, n) _)
  keyword-hit connected d n rest =
      act_matched p _ _ (d, n) (codes "connected") rest
        (p.string_lem _ (codes "connected") (d, n) _)
  keyword-hit error d n rest =
      act_matched p _ _ (d, n) (codes "error") rest (p.string_lem _ (codes "error") (d, n) _)
  keyword-hit exit d n rest =
      act_matched p _ _ (d, n) (codes "exit") rest (p.string_lem _ (codes "exit") (d, n) _)

  keyword-miss :
      (w : Bytes) (k d : ResultClass) (n i : Bytes)
      → has_prefix w i ≡ false
      → keyword p b w k (d, n) i ≡ failed (d, n)
  keyword-miss w k d n i h = act_failed p _ _ (d, n) i (string_miss p w (d, n) i h)

  pub result_class-text :
      (k d : ResultClass) (n rest : Bytes)
      → result_class p b (d, n) (class_text k ++ rest) ≡ matched (k, n) rest
  unfolding result_class class_text has_prefix
  result_class-text done d n rest = sor_first p _ _ (d, n) _ (keyword-hit done d n rest)
  result_class-text running d n rest =
      sor_second p _ _ (d, n) _ (keyword-miss (codes "done") done d n _ refl)
        (sor_first p _ _ (d, n) _ (keyword-hit running d n rest))
  result_class-text connected d n rest =
      sor_second p _ _ (d, n) _ (keyword-miss (codes "done") done d n _ refl)
        (sor_second p _ _ (d, n) _ (keyword-miss (codes "running") running d n _ refl)
          (sor_first p _ _ (d, n) _ (keyword-hit connected d n rest)))
  result_class-text error d n rest =
      sor_second p _ _ (d, n) _ (keyword-miss (codes "done") done d n _ refl)
        (sor_second p _ _ (d, n) _ (keyword-miss (codes "running") running d n _ refl)
          (sor_second p _ _ (d, n) _ (keyword-miss (codes "connected") connected d n _ refl)
            (sor_first p _ _ (d, n) _ (keyword-hit error d n rest))))
  result_class-text exit d n rest =
      sor_second p _ _ (d, n) _ (keyword-miss (codes "done") done d n _ refl)
        (sor_second p _ _ (d, n) _ (keyword-miss (codes "running") running d n _ refl)
          (sor_second p _ _ (d, n) _ (keyword-miss (codes "connected") connected d n _ refl)
            (sor_second p _ _ (d, n) _ (keyword-miss (codes "error") error d n _ refl)
              (keyword-hit exit d n rest))))

  module _ (f : ℕ) where
    record_round-line_end :
        (n : Bytes) (cr : Bool)
        → record_round p b (value_rule p b f) ([], n) (line_end cr) ≡ failed ([], n)
    unfolding record_round
    record_round-line_end n true = seq_stop p _ _ ([], n) _ (one_miss p b',' 13 ([], n) [] refl)
    record_round-line_end n false = seq_stop p _ _ ([], n) _ (p.one_lem _ _ ([], n) [])

    record_results-line_end :
        (n : Bytes) (cr : Bool)
        → record_results p b (value_rule p b f) ([], n) (line_end cr)
          ≡ matched ([], n) (line_end cr)
    unfolding record_results
    record_results-line_end n cr =
        star_end p _ ([], n) _
          (record_round-Consumes p b f _ (value_rule-Consumes p b f) (value_rule-Quiet p b f))
          (record_round-line_end n cr)

    abbrev answer_of : ResultClass → ResultOutput
    answer_of k = record { class_ = k; results = [] }

    result_record_rule-show :
        (k : ResultClass) (n : Bytes) (cr : Bool)
        → result_record_rule p b
            (value_rule p b f)
            (fresh_output p b, n)
            (b'^' ∷ (class_text k ++ line_end cr))
          ≡ matched (answer_of k, n) []
    unfolding result_record_rule
    result_record_rule-show k n cr =
        seq_next p _ _ (fresh_output p b, n) _ (one_hit p b'^' (fresh_output p b, n) _)
          (seq_next p _ _ _ _
            (member_matched ResultOutput.class_ _ (result_class p b) _ n _
              (result_class-text k done n _))
            (seq_next p _ _ _ _
              (member_matched ResultOutput.results _ (record_results p b _) _ n _
                (record_results-line_end n cr))
              (end_of_line-line_end p b _ cr)))

  abbrev pub show_answer : Option ℕ → ResultClass → Bool → Bytes
  show_answer tk k cr = show_token tk ++ b'^' ∷ (class_text k ++ line_end cr)

  -- A record without results, of any class, with a token below 2^64 or none and with or without a
  -- carriage return, is parsed into its token and its class; the last variable name stays.
  pub parse_record-show_answer :
      (tk : Option ℕ) (k : ResultClass) (cr : Bool) (n : Bytes)
      → Fits tk
      → parse_record p b n (show_answer tk k cr)
        ≡ (ok (some (record { token = tk; object = record { class_ = k; results = [] } })), n)
  unfolding parse_record with_token
  parse_record-show_answer none k cr n ht = ap (finish p b (λ (l : Line ResultOutput). l) n) (
      seq_next p _ _ _ _ (opt_none p _ _ _ (read_token-none p b _ n _ refl)) (
        member_matched Line.object _ _ _ n _
          (result_record_rule-show (length (show_answer none k cr) + 1) k n cr)))
  parse_record-show_answer (some tk) k cr n ht = ap (finish p b (λ (l : Line ResultOutput). l) n) (
      seq_next p _ _ _ _ (opt_some p _ _ _ (read_token-to_string p b tk _ n _ ht refl)) (
        member_matched Line.object _ _ _ n _
          (result_record_rule-show (length (show_answer (some tk) k cr) + 1) k n cr)))
