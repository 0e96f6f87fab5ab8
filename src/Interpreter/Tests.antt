-- ===== src/Interpreter/Tests.antt =====
-- The theorems on the interpreter at concrete replies.
use mw_dbg_runner.Common.{
  arith, ℕ, ◌≡◌, ◌≢◌, refl, true, false, Bytes, codes, lit, has_prefix, List, [], ◌∷◌, ◌++◌, Option,
  some, All, ◌⊎◌, ◌↔◌,
}
use mw_dbg_runner.Error.{Error, done, ok, err, interpreter_error}
use mw_dbg_runner.Output.{Entry, string, ResultOutput}
use mw_dbg_runner.Output.Boost.{boost}
use mw_dbg_runner.Output.Pegtl.Engine.{engine}
use mw_dbg_runner.Types.Find.{entry}
use mw_dbg_runner.Interpreter.Session.{Session, Listeners}
use mw_dbg_runner.Interpreter.Checks.{no_record, expect_class}
use mw_dbg_runner.Interpreter.Stop.{record_stop, no_stop}
use mw_dbg_runner.Interpreter.Stops.{expect_class_iff, Accepts, record_stop_lem, reason_entry}
use mw_dbg_runner.Interpreter.Work.{run_lines}
use mw_dbg_runner.Interpreter.Lines.{IsReplyLine, reply}
use mw_dbg_runner.Interpreter.Ending.{ReadsOn, Ended, ListenersEnd, HandlerEnds, run_lines-Ended}
use mw_dbg_runner.Interpreter.Tokens.{prepare_all, prepare_all-fresh}
use mw_dbg_runner.Interpreter.Loop.{out_of, run_lines-out}

abbrev done_record : ResultOutput
done_record = record { class_ = done; results = [] }

abbrev own_token : Option ℕ
own_token = some 5

expect_class_iff_example :
    (expect_class 5 done (codes "5^done") own_token done_record tt ≡ ok (tt {0}))
    ↔ ((own_token ≡ some 5) × Accepts done done_record)
expect_class_iff_example = expect_class_iff 5 done (codes "5^done") own_token done_record tt

abbrev thread_entry : Entry
thread_entry = entry (codes "thread-id") (string (codes "1"))

thread_entry-ne : codes "thread-id" ≢ lit "reason"
unfolding lit
thread_entry-ne = cc

record_stop_lem_example :
    record_stop ([] ++ reason_entry (codes "breakpoint-hit") ∷ thread_entry ∷ []) no_stop
    ≡ ok (record { reason = codes "breakpoint-hit"; content = thread_entry ∷ [] })
record_stop_lem_example =
    record_stop_lem (codes "breakpoint-hit") [] (thread_entry ∷ []) no_stop tt (thread_entry-ne, tt)

-- Functions that keep nothing.
abbrev silent : Listeners (Unit {0})
silent = record { on_console = λ _ s. ok s; on_log = λ _ s. ok s; on_async = λ _ s. ok s }

abbrev one_line : List Bytes
one_line = codes "5^done" ∷ []

abbrev session : Session (Unit {0})
session = record {
  listener = tt;
  in_buf = [];
  out_buf = reply one_line (codes " ") (codes "&");
  fwd = [];
  debug = false;
  token_gen = 6;
  pending_asyncs = [];
  last_var_name = [];
}

one_line-IsReplyLine : All IsReplyLine one_line
unfolding has_prefix
one_line-IsReplyLine = (((cc, (cc, (cc, (cc, (cc, (cc, tt)))))), refl), tt)

run_lines-out_example :
    (out_of (run_lines engine boost (λ _. []) silent (expect_class 5 done) true session)
      ≡ codes "&")
    ⊎ ((run_lines engine boost (λ _. []) silent (expect_class 5 done) true session).0
        ≡ err interpreter_error)
run_lines-out_example =
    run_lines-out silent engine boost (λ _. []) (expect_class 5 done) true one_line (codes " ")
      (codes "&") session (cc, tt) one_line-IsReplyLine refl

silent-ListenersEnd : ListenersEnd silent
silent-ListenersEnd = ((λ x s q. cc), (λ x s q. cc), (λ x s q. cc))

no_record-HandlerEnds : HandlerEnds {S = Unit {0}} no_record
unfolding no_record
no_record-HandlerEnds line tk sr s q = cc

run_lines-Ended_example :
    Ended (run_lines engine boost (λ _. []) silent no_record false session).0
    × ((e : Error) (at : Session (Unit {0}))
        → ReadsOn engine boost
            (λ _. [])
            silent
            no_record
            silent-ListenersEnd
            no_record-HandlerEnds
            e
            at)
run_lines-Ended_example =
    run_lines-Ended engine boost (λ _. []) silent no_record silent-ListenersEnd
      no_record-HandlerEnds false session

abbrev two_texts : List Bytes
two_texts = codes "-break-list" ∷ codes "-break-delete 1" ∷ []

prepare_all-fresh_example : Session.token_gen (prepare_all two_texts session) ≢ session.token_gen
prepare_all-fresh_example =
    prepare_all-fresh two_texts session (omega arith) (omega arith) (omega arith)
