-- ===== src/Gdb/NumberedTests.antt =====
-- The theorems on the setting of a break point at concrete answers of gdb.
use mw_dbg_runner.Common.{
  arith, bytes_eq, All, ◌≡◌, ◌≢◌, refl, true, false, Bytes, codes, lit, [], ◌∷◌, some, none, pos,
}
use mw_dbg_runner.Error.{ok, done, error}
use mw_dbg_runner.Numbers.{
  my_stoull, stoull, stoi, strto, digit_value, skip_space, skip_sign, skip_prefix, starts_digit,
  scan,
}
use mw_dbg_runner.Output.{Results, no_results, result, string, tuple, entries, as_string}
use mw_dbg_runner.Output.Syntax.{IsPlain, show_value}
use mw_dbg_runner.Output.Boost.{boost}
use mw_dbg_runner.Output.Pegtl.{one_of}
use mw_dbg_runner.Output.Pegtl.Engine.{engine}
use mw_dbg_runner.Output.RoundTrip.Answers.{show_answer}
use mw_dbg_runner.Output.RoundTrip.Reports.{show_result, show_report}
use mw_dbg_runner.Types.{find, find_if}
use mw_dbg_runner.Types.Breakpoints.{Breakpoint, parse_breakpoint, breakpoint_addr}
use mw_dbg_runner.Interpreter.Session.{Session}
use mw_dbg_runner.Interpreter.Lines.{reply, no_newline-IsLine}
use mw_dbg_runner.Interpreter.Commands.{next_token}
use mw_dbg_runner.Interpreter.Replies.{view, heard}
use mw_dbg_runner.Interpreter.Runs.{ending_in}
use mw_dbg_runner.Debug.Act.{give}
use mw_dbg_runner.Debug.BreakPoint.{BreakPoint, break_at_function}
use mw_dbg_runner.Gdb.State.{World}
use mw_dbg_runner.Gdb.Numbering.{insert}
use mw_dbg_runner.Gdb.Setup.{init_bp}
use mw_dbg_runner.Gdb.Numbered.{IsQuiet, Answers, init_bp-numbered}
use mw_dbg_runner.Gdb.Samples.{silent, one_reply, no_text, session, host}

abbrev W : Type 0
W = World one_reply (Unit {0}) (Unit {0})

abbrev at_main : BreakPoint W
at_main = break_at_function (λ _ _ _. give tt) (codes "main")

abbrev answer_with : Bytes → Bytes
answer_with line = reply (ending_in silent engine boost no_text [] line) (codes " ") []

abbrev refusal : Bytes
refusal = answer_with (show_answer engine boost (some 4) error false)

abbrev fields : Results
fields = result (codes "number") (string (codes "2")) (
    result (codes "type") (string (codes "breakpoint")) (
      result (codes "disp") (string (codes "keep")) (
        result (codes "addr") (string (codes "40")) (
          result (codes "enabled") (string (codes "y"))
            (result (codes "times") (string (codes "0")) no_results)))))

abbrev second : Breakpoint
second = record {
  number = pos 2;
  type = codes "breakpoint";
  catch_type = none;
  disp = codes "keep";
  enabled = true;
  addr = 64;
  func = none;
  filename = none;
  fullname = none;
  line = none;
  thread_groups = none;
  at = none;
  pending = none;
  evaluated_by = none;
  thread = none;
  task = none;
  cond = none;
  ignore = none;
  enable = none;
  traceframe_usage = none;
  static_tracepoint_marker_string_id = none;
  mask = none;
  pass = none;
  original_location = none;
  times = pos 0;
  installed = none;
  what = none;
}

parsed_second : parse_breakpoint (entries fields) ≡ ok second
unfolding parse_breakpoint breakpoint_addr find find_if lit bytes_eq as_string stoi stoull strto
    digit_value skip_space skip_sign skip_prefix starts_digit scan my_stoull
parsed_second = refl

no_backslash : (s : Bytes) → one_of s 92 ≡ false → All (λ c. c ≢ 92) s
no_backslash [] h = tt
no_backslash (c ∷ s) h = ((λ e. ground (arith, e)), no_backslash s (ground arith))

no_sign :
    (s : Bytes)
    → one_of s b'=' ≡ false
    → one_of s b']' ≡ false
    → All (λ d. (d ≢ b'=') × (d ≢ b']')) s
no_sign [] h h' = tt
no_sign (c ∷ s) h h' =
    (((λ e. ground (arith, e)), (λ e. ground (arith, e))), no_sign s (ground arith) (ground arith))

fields-IsPlain : IsPlain (tuple fields)
unfolding IsPlain
fields-IsPlain = (
  tt,
  (
    no_sign (codes "number") refl refl,
    no_backslash (codes "2") refl,
    (
      no_sign (codes "type") refl refl,
      no_backslash (codes "breakpoint") refl,
      (
        no_sign (codes "disp") refl refl,
        no_backslash (codes "keep") refl,
        (
          no_sign (codes "addr") refl refl,
          no_backslash (codes "40") refl,
          (
            no_sign (codes "enabled") refl refl,
            no_backslash (codes "y") refl,
            (no_sign (codes "times") refl refl, no_backslash (codes "0") refl, tt),
          ),
        ),
      ),
    ),
  ),
)

at_main-IsQuiet : IsQuiet at_main
unfolding IsQuiet break_at_function
at_main-IsQuiet = ((λ _ _ _ _. refl), (λ _ _ _ _. refl))

abbrev acceptance : Bytes
acceptance = answer_with (show_report engine boost (some 4) done (lit "bkpt") (tuple fields) false)

-- The map holds the number 1 before, and the numbers 1 and 2 after.
init_bp-numbered_example :
    (st' : Session (Unit {0})) × (init_bp engine boost no_text one_reply silent
        (Unit {0})
        1
        at_main
        (session, (acceptance, host))
      ≡ (ok tt, (st', ([], record host { break_point_map = (pos 1, 0) ∷ (pos 2, 1) ∷ [] }))))
    × (view st' ≡ (tt, ([], (next_token 4, []))))
unfolding Answers heard insert show_value lit
init_bp-numbered_example =
    init_bp-numbered engine boost no_text one_reply silent (Unit {0}) 1 at_main session acceptance
      host [] (codes " ") [] [] tt fields false second (omega arith) at_main-IsQuiet fields-IsPlain
      (no_newline-IsLine (show_result engine boost (lit "bkpt") (tuple fields) false) refl)
      parsed_second (no_newline-IsLine (codes " ") refl, tt, refl, (acceptance, refl, refl))
