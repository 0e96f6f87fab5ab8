-- ===== src/Output/RoundTrip/Misses.antt =====
-- Lines that are of another kind are passed on (src/mw/gdb/mi2/output.cpp, `parse_stream_output` and
-- `parse_async_output`), with the last variable name as it was.
use mw_dbg_runner.Common.{◌++◌, ℕ, ◌≡◌, refl, ◌∙◌, ap, false, Bytes, codes, ◌∷◌, none, some}
use mw_dbg_runner.Error.{ok}
use mw_dbg_runner.Output.{StreamRecord, AsyncOutput}
use mw_dbg_runner.Output.Boost.{Boost}
use mw_dbg_runner.Output.Pegtl.{Pegtl, failed, one_of}
use mw_dbg_runner.Output.Pegtl.Steps.{seq_next, seq_stop, opt_some, act_failed}
use mw_dbg_runner.Output.Grammar.{Rule, refocus, member}
use mw_dbg_runner.Output.Grammar.Values.{value_rule}
use mw_dbg_runner.Output.Grammar.Records.{
  Line, stream_record_type, stream_output, async_output_type, async_output_rule, with_token,
  parse_stream_output, parse_async_output, fresh_async, finish,
}
use mw_dbg_runner.Output.RoundTrip.Lines.{read_token-to_string}
use mw_dbg_runner.Output.RoundTrip.Async.{Fits, show_token}

member_failed :
    {T U : Type 0} (get : T → U) (put : U → T → T) (a : Rule U) (t : T) (n i : Bytes) {u : U}
    {n' : Bytes}
    → a (get t, n) i ≡ failed (u, n')
    → member get put a (t, n) i ≡ failed (put u t, n')
unfolding member
member_failed get put a t n i h = ap (refocus (λ u. put u t)) h

module _ (p : Pegtl) (b : Boost) where
  one_of_miss :
      {S : Type 0} (cs : Bytes) (c : ℕ) (s : S) (i : Bytes)
      → one_of cs c ≡ false
      → p.one _ cs s (c ∷ i) ≡ failed s
  one_of_miss cs c s i h = p.one_lem _ cs s (c ∷ i) ∙ rw h refl

  pub parse_stream_output-miss :
      (c : ℕ) (i n : Bytes)
      → one_of (codes "~@&") c ≡ false
      → parse_stream_output p b n (c ∷ i) ≡ (ok none, n)
  unfolding parse_stream_output stream_output stream_record_type
  parse_stream_output-miss c i n h = ap (finish p b (λ (r : StreamRecord). r) n) (
      seq_stop p _ _ _ _ (
        member_failed StreamRecord.type _ _ _ n _
          (act_failed p _ _ _ _ (one_of_miss (codes "~@&") c _ i h))))

  async_output_rule-miss :
      (f c : ℕ) (i n : Bytes)
      → one_of (codes "*+=") c ≡ false
      → async_output_rule p b (value_rule p b f) (fresh_async p b, n) (c ∷ i)
        ≡ failed (fresh_async p b, n)
  unfolding async_output_rule async_output_type
  async_output_rule-miss f c i n h = seq_stop p _ _ _ _ (
      member_failed AsyncOutput.type _ _ _ n _
        (act_failed p _ _ _ _ (one_of_miss (codes "*+=") c _ i h)))

  -- A token and `^` are no asynchronous output.
  pub parse_async_output-miss :
      (tk : ℕ) (i n : Bytes)
      → Fits (some tk)
      → parse_async_output p b n (show_token (some tk) ++ b'^' ∷ i) ≡ (ok none, n)
  unfolding parse_async_output with_token
  parse_async_output-miss tk i n h = ap (finish p b (λ (l : Line AsyncOutput). l) n) (
      seq_next p _ _ _ _ (opt_some p _ _ _ (read_token-to_string p b tk _ n _ h refl))
        (member_failed Line.object _ _ _ n _ (async_output_rule-miss _ b'^' _ n refl)))
