-- ===== src/Output/Grammar/Errors.antt =====
-- What the parse functions of src/mw/gdb/mi2/output.cpp can throw: nothing but the `parser_error`
-- of a token that is no 64-bit number.
use mw_dbg_runner.Common.{
  ℕ, ◌+◌, ◌<◌, ◌≡◌, refl, arith, Bool, Bytes, length, ◌≤◌, Bool-cases, inl, inr,
}
use mw_dbg_runner.Error.{Result, ok, err, parser_error}
use mw_dbg_runner.Numbers.{Base, stoull, my_stoull, as_parser_error}
use mw_dbg_runner.Output.Boost.{Boost}
use mw_dbg_runner.Output.Pegtl.{
  Pegtl, Outcome, matched, failed, raised, PegRule, and_then, optional,
}
use mw_dbg_runner.Output.Pegtl.Consumption
use mw_dbg_runner.Output.Pegtl.Consumption.{AtMost, Keeps, Keeps-of_Consumes}
use mw_dbg_runner.Output.Pegtl.Quiet
use mw_dbg_runner.Output.Pegtl.Quiet.{Quiet, QuietBelow}
use mw_dbg_runner.Output.Grammar.{State, Rule, member}
use mw_dbg_runner.Output.Grammar.Consumption.{member-Quiet, value_rule-Consumes}
use mw_dbg_runner.Output.Grammar.Fuel.{value_rule-Quiet}
use mw_dbg_runner.Output.Grammar.Records.{
  Line, set_token, digits, take_token, token_outcome, async_output_rule, result_record_rule,
  expect_token, read_token, with_token, finish, value_of, parse_async_output_for,
  parse_async_output, parse_record_for, parse_record,
}
use mw_dbg_runner.Output.Grammar.LineRules.{async_output_rule-Quiet, result_record_rule-Quiet}

-- Only a `parser_error` is thrown.
abbrev pub OnlyParserError : {S : Type 0} → Outcome S → Type 0
OnlyParserError (matched s r) = Unit
OnlyParserError (failed s) = Unit
OnlyParserError (raised e) = e ≡ parser_error

abbrev pub ThrowsParserError : {A : Type 0} → Result A → Type 0
ThrowsParserError (ok a) = Unit
ThrowsParserError (err e) = e ≡ parser_error

as_parser_error-OnlyParserError : (r : Result ℕ) → ThrowsParserError (as_parser_error r)
as_parser_error-OnlyParserError (ok n) = tt
as_parser_error-OnlyParserError (err e) = refl

my_stoull-OnlyParserError : (k : Base) (s : Bytes) → ThrowsParserError (my_stoull k s)
unfolding my_stoull
my_stoull-OnlyParserError k s = as_parser_error-OnlyParserError (stoull k s)

module _ {S : Type 0} where
  Quiet-OnlyParserError : (o : Outcome S) → Quiet o → OnlyParserError o
  Quiet-OnlyParserError (matched s r) h = tt
  Quiet-OnlyParserError (failed s) h = tt
  Quiet-OnlyParserError (raised e) h = absurd h

  and_then-OnlyParserError :
      (n : ℕ) (i : Bytes) (o : Outcome S) (b : PegRule S)
      → length i < n
      → OnlyParserError o
      → AtMost i o
      → QuietBelow n b
      → OnlyParserError (and_then o b)
  and_then-OnlyParserError n i (matched s r) b lt h k q =
      Quiet-OnlyParserError (b s r) (q s r (omega arith))
  and_then-OnlyParserError n i (failed s) b lt h k q = tt
  and_then-OnlyParserError n i (raised e) b lt h k q = h

  optional-OnlyParserError :
      (i : Bytes) (o : Outcome S) → OnlyParserError o → OnlyParserError (optional o i)
  optional-OnlyParserError i (matched s r) h = tt
  optional-OnlyParserError i (failed s) h = tt
  optional-OnlyParserError i (raised e) h = h

module _ {T : Type 0} (g : ℕ → T → T × Bool) where
  token_outcome-OnlyParserError :
      (v : Result ℕ) (s : State T) (r : Bytes)
      → ThrowsParserError v
      → OnlyParserError (token_outcome g v s r)
  token_outcome-OnlyParserError (ok v) (t, n) r h = elim (Bool-cases (g v t).1) [
    | inl e ↦ rw e tt
    | inr e ↦ rw e tt
  ]
  token_outcome-OnlyParserError (err e) s r h = h

  token_outcome-AtMost :
      (v : Result ℕ) (s : State T) (i r : Bytes)
      → length r ≤ length i
      → AtMost i (token_outcome g v s r)
  token_outcome-AtMost (ok v) (t, n) i r h = elim (Bool-cases (g v t).1) [
    | inl e ↦ rw e h
    | inr e ↦ rw e tt
  ]
  token_outcome-AtMost (err e) s i r h = tt

  take_token-OnlyParserError :
      (i : Bytes) (o : Outcome (State T)) → Quiet o → OnlyParserError (take_token g i o)
  take_token-OnlyParserError i (matched s r) h =
      token_outcome-OnlyParserError _ s r (my_stoull-OnlyParserError _ _)
  take_token-OnlyParserError i (failed s) h = tt
  take_token-OnlyParserError i (raised e) h = absurd h

  take_token-AtMost : (i : Bytes) (o : Outcome (State T)) → AtMost i o → AtMost i (take_token g i o)
  take_token-AtMost i (matched s r) h = token_outcome-AtMost _ s i r h
  take_token-AtMost i (failed s) h = tt
  take_token-AtMost i (raised e) h = tt

module _ (p : Pegtl) (b : Boost) where
  digits-Quiet : {T : Type 0} (n : ℕ) → QuietBelow {S = State T} n (p.plus _ (p.ranges _ digits))
  digits-Quiet n =
      Quiet.plus-Quiet p n _ (Consumption.ranges-Consumes p _) (Quiet.ranges-Quiet p n _)

  digits-Keeps : {T : Type 0} → Keeps {S = State T} (p.plus _ (p.ranges _ digits))
  digits-Keeps =
      Keeps-of_Consumes _ (Consumption.plus-Consumes p _ (Consumption.ranges-Consumes p _))

  module _ {T : Type 0} where
    -- A token that is expected, and a line behind it.
    expected-OnlyParserError :
        (n tk : ℕ) (a : Rule T) (s : State T) (i : Bytes)
        → length i < n
        → QuietBelow n a
        → OnlyParserError (p.seq _ (expect_token p b tk) a s i)
    unfolding expect_token
    expected-OnlyParserError n tk a s i lt q = rw (p.seq_lem _ (expect_token p b tk) a s i) (
        and_then-OnlyParserError n i _ a lt
          (take_token-OnlyParserError _ i _ (digits-Quiet n s i lt))
          (take_token-AtMost _ i _ (digits-Keeps s i)) q)

    with_token-OnlyParserError :
        (n : ℕ) (a : Rule T) (s : State (Line T)) (i : Bytes)
        → length i < n
        → QuietBelow n a
        → OnlyParserError (with_token p b a s i)
    unfolding with_token read_token
    with_token-OnlyParserError n a s i lt q =
        rw (p.seq_lem _ (p.opt _ (read_token p b)) (member Line.object _ a) s i) (
          and_then-OnlyParserError n i _ (member Line.object _ a) lt
            (rw (p.opt_lem _ (read_token p b) s i) (
              optional-OnlyParserError i _
                (take_token-OnlyParserError set_token i _ (digits-Quiet n s i lt))))
            (Consumption.opt-Keeps p _
              (λ s' i'. take_token-AtMost set_token i' _ (digits-Keeps s' i')) s i)
            (member-Quiet _ _ a n q))

  finish-ThrowsParserError :
      {T A : Type 0} (get : T → A) (n : Bytes) (o : Outcome (State T))
      → OnlyParserError o
      → ThrowsParserError (finish p b get n o).0
  finish-ThrowsParserError get n (matched (t, n') r) h = tt
  finish-ThrowsParserError get n (failed (t, n')) h = tt
  finish-ThrowsParserError get n (raised e) h = h

  -- The rule for a line runs on fuel that exceeds its length.
  module _ (i : Bytes) where
    async_line-Quiet : QuietBelow (length i + 1) (async_output_rule p b (value_of p b i))
    async_line-Quiet =
        async_output_rule-Quiet p b (length i + 1) _ (value_rule-Consumes p b (length i + 1))
          (value_rule-Quiet p b (length i + 1))

    record_line-Quiet : QuietBelow (length i + 1) (result_record_rule p b (value_of p b i))
    record_line-Quiet =
        result_record_rule-Quiet p b (length i + 1) _ (value_rule-Consumes p b (length i + 1))
          (value_rule-Quiet p b (length i + 1))

  -- On every line the four functions that read a token return, or throw a `parser_error` and
  -- nothing else: the fuel of the model never runs out.
  pub parse_throws :
      (n i : Bytes) (tk : ℕ)
      → ThrowsParserError (parse_record p b n i).0
        × ThrowsParserError (parse_record_for p b tk n i).0
        × ThrowsParserError (parse_async_output p b n i).0
        × ThrowsParserError (parse_async_output_for p b tk n i).0
  unfolding parse_record parse_record_for parse_async_output parse_async_output_for
  parse_throws n i tk = (
    finish-ThrowsParserError _ n _
        (with_token-OnlyParserError (length i + 1) _ _ i (omega arith) (record_line-Quiet i)),
    finish-ThrowsParserError _ n _
        (expected-OnlyParserError (length i + 1) tk _ _ i (omega arith) (record_line-Quiet i)),
    finish-ThrowsParserError _ n _
        (with_token-OnlyParserError (length i + 1) _ _ i (omega arith) (async_line-Quiet i)),
    finish-ThrowsParserError _ n _
        (expected-OnlyParserError (length i + 1) tk _ _ i (omega arith) (async_line-Quiet i)),
  )
