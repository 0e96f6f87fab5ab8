-- ===== src/Output/RoundTrip/Async.antt =====
-- Whole lines of asynchronous output, with and without a token.
use mw_dbg_runner.Common.{
  refl, ◌∙◌, true, ℕ, ◌+◌, ◌≤◌, ◌<◌, ◌≡◌, ap, arith, Bool, Bytes, [], ◌∷◌, ◌++◌, length,
  length-append, Option, none, some,
}
use mw_dbg_runner.Error.{Result, ok}
use mw_dbg_runner.Numbers.{decimal, to_string, u64_mod}
use mw_dbg_runner.Output.{Results, entries, AsyncType, exec, status, AsyncOutput}
use mw_dbg_runner.Output.Boost.{Boost}
use mw_dbg_runner.Output.Pegtl.{Pegtl, matched, one_of}
use mw_dbg_runner.Output.Pegtl.Steps.{seq_next, opt_some, opt_none}
use mw_dbg_runner.Output.Grammar.Values.{value_rule}
use mw_dbg_runner.Output.Grammar.Records.{
  Line, digits, async_type, async_output_rule, with_token, parse_async_output, fresh_async, finish,
}
use mw_dbg_runner.Output.Syntax.{show_more_results, ArePlain}
use mw_dbg_runner.Output.RoundTrip.Values.{member_matched}
use mw_dbg_runner.Output.RoundTrip.Lines.{
  StopsAt, line_end, read_token-to_string, read_token-none, IsClass, IsAsyncChar, show_async,
  async_of, async_output_rule-show,
}

abbrev pub show_token : Option ℕ → Bytes
show_token none = []
show_token (some tk) = to_string decimal tk

abbrev pub Fits : Option ℕ → Type 0
Fits none = Unit
Fits (some tk) = tk < u64_mod

-- What the characters in front of asynchronous output are taken for.
pub data Marks : ℕ → AsyncType → Type 0 where
  star_exec : Marks b'*' exec
  plus_status : Marks b'+' status
  equals_status : Marks b'=' status

Marks-async_type :
    (k : ℕ) (t : AsyncType)
    → Marks k t
    → (one_of (b'*' ∷ b'+' ∷ b'=' ∷ []) k ≡ true) × (async_type (k ∷ []) exec ≡ t)
Marks-async_type k t star_exec = (refl, refl)
Marks-async_type k t plus_status = (refl, refl)
Marks-async_type k t equals_status = (refl, refl)

module _ (p : Pegtl) (b : Boost) where
  type-StopsAt : (k : ℕ) (rest : Bytes) → IsAsyncChar p b k → StopsAt digits (k ∷ rest)
  type-StopsAt k rest h = ground arith

  async_line :
      (tk : Option ℕ) (k : ℕ) (cls : Bytes) (rs : Results) (cr : Bool) (f : ℕ) (n : Bytes)
      → Fits tk
      → IsAsyncChar p b k
      → IsClass p b cls
      → ArePlain rs
      → length (show_more_results rs) ≤ f
      → (n' : Bytes) × (with_token p b
            (async_output_rule p b (value_rule p b f))
            (record { token = none; object = fresh_async p b }, n)
            (show_token tk ++ show_async p b k cls rs cr)
          ≡ matched (record { token = tk; object = async_of p b k cls rs }, n') [])
  unfolding with_token
  async_line none k cls rs cr f n ht hk hc plain le =
      let (n', e) = async_output_rule-show p b k cls rs cr f n hk hc plain le in
      (
        n',
        seq_next p _ _ _ _ (opt_none p _ _ _ (read_token-none p b _ n _ (type-StopsAt k [] hk)))
            (member_matched Line.object _ _ _ n _ e),
      )
  async_line (some tk) k cls rs cr f n ht hk hc plain le =
      let (n', e) = async_output_rule-show p b k cls rs cr f n hk hc plain le in
      (
        n',
        seq_next p _ _ _ _
            (opt_some p _ _ _ (read_token-to_string p b tk _ n _ ht (type-StopsAt k [] hk)))
            (member_matched Line.object _ _ _ n _ e),
      )

  line_le :
      (tk : Option ℕ) (k : ℕ) (cls : Bytes) (rs : Results) (cr : Bool)
      → length (show_more_results rs) ≤ length (show_token tk ++ show_async p b k cls rs cr) + 1
  line_le tk k cls rs cr = omega (
    arith,
    length-append (show_token tk) (show_async p b k cls rs cr),
    length-append cls (show_more_results rs ++ line_end cr),
    length-append (show_more_results rs) (line_end cr),
  )

  -- A line of asynchronous output is parsed, its type being what the action makes of the character.
  pub parse_async_output-line :
      (tk : Option ℕ) (k : ℕ) (cls : Bytes) (rs : Results) (cr : Bool) (n : Bytes)
      → Fits tk
      → IsAsyncChar p b k
      → IsClass p b cls
      → ArePlain rs
      → (n' : Bytes) × (parse_async_output p b n (show_token tk ++ show_async p b k cls rs cr)
          ≡ (ok (some (record { token = tk; object = async_of p b k cls rs })), n'))
  unfolding parse_async_output
  parse_async_output-line tk k cls rs cr n ht hk hc plain =
      let shown = show_token tk ++ show_async p b k cls rs cr in
      let (n', e) =
        async_line tk k cls rs cr (length shown + 1) n ht hk hc plain (line_le tk k cls rs cr) in
      (n', ap (finish p b (λ (l : Line AsyncOutput). l) n) e)

  -- A line of asynchronous output is parsed into its token, type, class and results, whatever the last
  -- variable name was: for a token below 2^64 or none, a class of letters, digits and dashes, and
  -- results whose values are plain; a carriage return may end it. Of the type characters `*` gives
  -- exec and `+` status; `=`, which stands for a notice, gives status too.
  pub parse_async_output-show_async :
      (tk : Option ℕ) (k : ℕ) (t : AsyncType) (cls : Bytes) (rs : Results) (cr : Bool) (n : Bytes)
      → Fits tk
      → Marks k t
      → IsClass p b cls
      → ArePlain rs
      → (n' : Bytes) × (parse_async_output p b n (show_token tk ++ show_async p b k cls rs cr) ≡ (
        ok (
            some (record {
              token = tk;
              object = record { type = t; class_ = cls; results = entries rs };
            })),
        n',
      ))
  parse_async_output-show_async tk k t cls rs cr n ht mark hc plain =
      let (hk, kind) = Marks-async_type k t mark in
      let (n', e) = parse_async_output-line tk k cls rs cr n ht hk hc plain in
      let line_of : AsyncType → Result (Option (Line AsyncOutput)) × Bytes = λ x. (
        ok (
            some (record {
              token = tk;
              object = record { type = x; class_ = cls; results = entries rs };
            })),
        n',
      ) in
      (n', e ∙ ap line_of kind)
