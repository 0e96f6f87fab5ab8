-- ===== src/Interpreter/RunTests.antt =====
-- The theorems on commands at a concrete reply and concrete contents.
use mw_dbg_runner.Common.{
  ap, arith, bytes_eq, ℕ, ◌+◌, ◌≡◌, refl, true, false, Bytes, codes, List, [], ◌∷◌, ◌++◌, some,
}
use mw_dbg_runner.Error.{running, done, ok}
use mw_dbg_runner.Output.{ResultOutput, as_string, no_results, result, string}
use mw_dbg_runner.Output.Syntax.{IsPlain, show_value, ArePlain, show_more_results}
use mw_dbg_runner.Output.Boost.{boost}
use mw_dbg_runner.Output.Pegtl.Engine.{engine}
use mw_dbg_runner.Output.RoundTrip.Reports.{show_result, show_report, report_of}
use mw_dbg_runner.Types.{find, find_if}
use mw_dbg_runner.Types.Access.{string_at}
use mw_dbg_runner.Types.Contents.{hex_bytes}
use mw_dbg_runner.Interpreter.Data.{contents_text}
use mw_dbg_runner.Interpreter.MemoryText.{hex_bytes-contents_text}
use mw_dbg_runner.Interpreter.Session.{set_out, Session, Listeners, Pipes}
use mw_dbg_runner.Interpreter.Lines.{reply, no_newline-IsLine}
use mw_dbg_runner.Interpreter.Commands.{next_token, run_command, run_answer}
use mw_dbg_runner.Interpreter.Replies.{
  view, IsAnswer, show_report-IsAnswer, Notice, IsNotice, notice_text, heard,
}
use mw_dbg_runner.Interpreter.Stop.{wait_for_stop}
use mw_dbg_runner.Interpreter.Commanded.{left_by, run_command-next_token}
use mw_dbg_runner.Interpreter.Work.{prompt}
use mw_dbg_runner.Interpreter.Communicate.{communicate, text_of, communicate-text_of}
use mw_dbg_runner.Interpreter.Queries.{run_answer-answered}
use mw_dbg_runner.Interpreter.Runs.{ending_in, answered, run_command-answered}

-- A function that counts the notices.
abbrev counter : Listeners ℕ
counter = record { on_console = λ _ s. ok s; on_log = λ _ s. ok s; on_async = λ _ s. ok (s + 1) }

abbrev notice : Notice
notice = record {
  sign = b'*';
  class_ = codes "running";
  results = result (codes "id") (string (codes "all")) no_results;
  carriage = false;
}

abbrev waiting : Session ℕ
waiting = record {
  listener = 0;
  in_buf = [];
  out_buf = [];
  fwd = [];
  debug = false;
  token_gen = 6;
  pending_asyncs = [];
  last_var_name = [];
}

-- A debugger that takes every text and has one reply.
abbrev one_reply : Pipes
one_reply = record { Process = Bytes; write = λ _ p. some p; read_until = λ _ _ p. (true, (p, [])) }

abbrev text : Bytes
text = reply (answered counter engine boost (λ _. []) (notice ∷ []) 6 running false) (codes " ") []

notice-IsNotice : IsNotice engine boost notice
unfolding IsNotice ArePlain show_more_results
notice-IsNotice = (
  refl,
  (refl, (refl, (refl, (refl, (refl, (refl, (refl, tt))))))),
  (
    ((omega arith, omega arith), ((omega arith, omega arith), tt)),
    (omega arith, (omega arith, (omega arith, tt))),
    tt,
  ),
  no_newline-IsLine (notice_text engine boost notice) refl,
)

run_command-answered_example :
    (st' : Session ℕ) × (run_command engine boost
        (λ _. [])
        one_reply
        counter
        (codes "-exec-run")
        running
        waiting
        text
      ≡ (ok tt, (st', [])))
    × (view st' ≡ (1, ([], (next_token 6, []))))
unfolding heard
run_command-answered_example =
    run_command-answered counter engine boost (λ _. []) one_reply (codes "-exec-run") running
      (notice ∷ []) false (codes " ") [] waiting text (λ e. cc) (omega arith) (omega arith, tt)
      (notice-IsNotice, tt) refl refl refl

abbrev written : List ℕ
written = 0 ∷ 171 ∷ 255 ∷ []

hex_bytes-contents_text_example : hex_bytes (contents_text written) ≡ written
hex_bytes-contents_text_example =
    hex_bytes-contents_text written (omega arith, (omega arith, (omega arith, tt)))

run_command-next_token_example :
    ((left_by engine boost
        (λ _. [])
        one_reply
        counter
        waiting
        text
        (run_command engine boost (λ _. []) one_reply counter (codes "-exec-run") running)).1
      ≡ (false, 7))
    × ((left_by engine boost
          (λ _. [])
          one_reply
          counter
          waiting
          text
          (run_answer engine boost
            (λ _. [])
            one_reply
            counter
            (codes "-exec-run")
            (λ (rc : ResultOutput). ok rc))).1
        ≡ (false, 7))
    × ((left_by engine boost
          (λ _. [])
          one_reply
          counter
          waiting
          text
          (wait_for_stop engine boost (λ _. []) one_reply counter)).1
        ≡ (false, 6))
unfolding next_token
run_command-next_token_example =
    run_command-next_token engine boost (λ _. []) one_reply counter waiting text (codes "-exec-run")
      running (λ (rc : ResultOutput). ok rc)

abbrev two_lines : Pipes
two_lines = record {
  Process = Bytes;
  write = λ _ p. some p;
  read_until = λ _ _ p. (true, (codes "one" ++ 10 ∷ codes "two", p));
}

text_of_lines : codes "one" ++ 10 ∷ codes "two" ≡ text_of (codes "one" ∷ []) (codes "two")
unfolding text_of
text_of_lines = refl

communicate-text_of_example :
    communicate two_lines (codes "not sent") prompt waiting []
    ≡ (ok (codes "one" ∷ codes "two" ∷ []), (set_out [] waiting, []))
communicate-text_of_example =
    communicate-text_of two_lines (codes "not sent") prompt (codes "one" ∷ []) (codes "two") waiting
      [] (no_newline-IsLine (codes "one") refl, tt) (no_newline-IsLine (codes "two") refl) refl
      (ap (λ s. (true, (s, []))) text_of_lines)

-- The value of an expression.
abbrev value_line : Bytes
value_line = show_report engine boost (some 6) done (codes "id") (string (codes "all")) false

abbrev value_text : Bytes
value_text =
    reply (ending_in counter engine boost (λ _. []) (notice ∷ []) value_line) (codes " ") []

value_line-IsAnswer :
    IsAnswer engine boost value_line 6
      (report_of engine boost done (codes "id") (string (codes "all")))
unfolding IsPlain show_value
value_line-IsAnswer =
    show_report-IsAnswer engine boost 6 done (codes "id") (string (codes "all")) false (omega arith)
      ((omega arith, omega arith), ((omega arith, omega arith), tt))
      (omega arith, (omega arith, (omega arith, tt)))
      (no_newline-IsLine (show_result engine boost (codes "id") (string (codes "all")) false) refl)

-- The value is read as a text.
run_answer-answered_example :
    (st' : Session ℕ) × (run_answer engine boost
        (λ _. [])
        one_reply
        counter
        (codes "-var-evaluate-expression v")
        (λ (rc : ResultOutput). string_at rc.results (codes "id"))
        waiting
        value_text
      ≡ (ok (codes "all"), (st', [])))
    × (view st' ≡ (1, ([], (next_token 6, []))))
unfolding heard find find_if as_string bytes_eq
run_answer-answered_example =
    run_answer-answered counter engine boost (λ _. []) one_reply
      (codes "-var-evaluate-expression v")
      (λ (rc : ResultOutput). string_at rc.results (codes "id")) (notice ∷ []) value_line
      (report_of engine boost done (codes "id") (string (codes "all"))) (codes " ") [] waiting
      value_text value_line-IsAnswer (no_newline-IsLine (codes " ") refl) (notice-IsNotice, tt) refl
      refl refl
