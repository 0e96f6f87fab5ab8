-- ===== src/Interpreter/Commanded.antt =====
-- The counter of tokens after the commands of interpreter.cpp (`_work(_token_gen++, …)`).
use mw_dbg_runner.Common.{◌≡◌, refl, ◌∙◌, ap, true, false, [], Bytes}
use mw_dbg_runner.Error.{Result, ok, err, Error, ResultClass}
use mw_dbg_runner.Output.{ResultOutput}
use mw_dbg_runner.Output.Boost.{Boost}
use mw_dbg_runner.Output.Pegtl.{Pegtl}
use mw_dbg_runner.Interpreter.Session.{Session, Listeners, Pipes}
use mw_dbg_runner.Interpreter.Work.{work_impl}
use mw_dbg_runner.Interpreter.Checks.{expect_class, expect_result, no_record}
use mw_dbg_runner.Interpreter.Commands.{
  Run, next_token, prepare, run_command, run_answer, keep_record, blank_output,
}
use mw_dbg_runner.Interpreter.Stop.{
  attach, widen, answer, wait_for_stop, then_own, stop_listener, no_stop,
}
use mw_dbg_runner.Interpreter.Counter.{Kept, kept, work_impl-kept}

answer-kept :
    {S A : Type 0} (io : Pipes) (x : Result (Unit {0}) × (Session (S × A) × Pipes.Process io))
    → kept ((answer io x).1.0) ≡ kept (x.1.0)
answer-kept io (ok _, (st, proc)) = refl
answer-kept io (err e, (st, proc)) = refl

module _ (p : Pegtl) (b : Boost) (what : Error → Bytes) (io : Pipes) {S : Type 0} (l : Listeners S)
    (st : Session S) (proc : Pipes.Process io) where
  -- What a computation of the interpreter leaves, whether it returns or throws.
  abbrev pub left_by : {A : Type 0} → Run p b what io l A → Kept
  left_by run = kept ((run st proc).1.0)

  run_command-kept :
      (text : Bytes) (rc : ResultClass)
      → left_by (run_command p b what io l text rc) ≡ kept (prepare text st)
  unfolding run_command
  run_command-kept text rc =
      work_impl-kept l p b what (expect_class st.token_gen rc) true io (prepare text st) proc

  run_answer-kept :
      {A : Type 0} (text : Bytes) (read : ResultOutput → Result A)
      → left_by (run_answer p b what io l text read) ≡ kept (prepare text st)
  unfolding run_answer
  run_answer-kept text read =
      let h = expect_result st.token_gen keep_record in
      let ready = attach blank_output (prepare text st) in
      answer-kept io (work_impl p b what (widen l) h true io ready proc)
      ∙ work_impl-kept (widen l) p b what h true io ready proc

  wait_for_stop-kept : left_by (wait_for_stop p b what io l) ≡ kept (record st { in_buf = [] })
  unfolding wait_for_stop
  wait_for_stop-kept =
      let listen = record (widen l) { on_async = then_own l.on_async stop_listener } in
      let ready = attach no_stop (record st { in_buf = [] }) in
      answer-kept io (work_impl p b what listen no_record false io ready proc)
      ∙ work_impl-kept listen p b what no_record false io ready proc

  -- Whatever gdb answers, and whether it returns or throws: a command uses up exactly one token, be
  -- its record read or only checked; waiting for a stop uses up none. None of them turns the echo of
  -- the replies on or off.
  pub run_command-next_token :
      {A : Type 0} (text : Bytes) (rc : ResultClass) (read : ResultOutput → Result A)
      → ((left_by (run_command p b what io l text rc)).1 ≡ (st.debug, next_token st.token_gen))
        × ((left_by (run_answer p b what io l text read)).1 ≡ (st.debug, next_token st.token_gen))
        × ((left_by (wait_for_stop p b what io l)).1 ≡ (st.debug, st.token_gen))
  unfolding prepare
  run_command-next_token text rc read = (
    ap (λ (k : Kept). k.1) (run_command-kept text rc),
    ap (λ (k : Kept). k.1) (run_answer-kept text read),
    ap (λ (k : Kept). k.1) wait_for_stop-kept,
  )
