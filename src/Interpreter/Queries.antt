-- ===== src/Interpreter/Queries.antt =====
-- A query that gdb answers (src/mw/gdb/mi2/interpreter.cpp, `_work` with a function): its record is
-- read.
use mw_dbg_runner.Common.{◌≡◌, refl, ◌∙◌, ap, true, Bytes, List, [], ◌∷◌, ◌++◌, some, All, map}
use mw_dbg_runner.Error.{Result, ok, Error, >>=-eq-ok, ok-inj}
use mw_dbg_runner.Numbers.{decimal, to_string}
use mw_dbg_runner.Output.{AsyncOutput, ResultOutput}
use mw_dbg_runner.Output.Boost.{Boost}
use mw_dbg_runner.Output.Pegtl.{Pegtl}
use mw_dbg_runner.Interpreter.Session.{Session, Listeners, Pipes}
use mw_dbg_runner.Interpreter.Work.{prompt}
use mw_dbg_runner.Interpreter.Lines.{IsLine, reply}
use mw_dbg_runner.Interpreter.Checks.{check_token, expect_result}
use mw_dbg_runner.Interpreter.Stop.{attach, detach, widen, answer}
use mw_dbg_runner.Interpreter.Stops.{check_token_iff}
use mw_dbg_runner.Interpreter.Commands.{
  prepare, next_token, keep_record, blank_output, read_answer, run_answer,
}
use mw_dbg_runner.Interpreter.Replies.{View, view, Notice, output_of, IsNotice, IsAnswer, heard}
use mw_dbg_runner.Interpreter.Runs.{ending_in, work_impl-answered}

module _ {S : Type 0} (l : Listeners S) where
  -- The functions connected before hear the same, and the state of the command stays.
  heard-widen :
      {A : Type 0} (as_ : List AsyncOutput) (s₀ : S) (a : A) {s : S}
      → heard l as_ s₀ ≡ ok s
      → heard (widen l) as_ (s₀, a) ≡ ok (s, a)
  unfolding heard
  heard-widen [] s₀ a h = ap (λ x. ok (x, a)) (ok-inj h)
  heard-widen (x ∷ later) s₀ a h =
      let (s1, first, h') = >>=-eq-ok (l.on_async x s₀) _ h in rw first (heard-widen later s1 a h')

  module _ (p : Pegtl) (b : Boost) (what : Error → Bytes) where
    -- A query whose text gdb takes and answers by any number of notices, a record with its token, and
    -- the prompt, gives what the query reads from that record, a result or an exception, if the
    -- functions connected do not throw. They have heard the notices in order, the buffer is left
    -- behind the line of the prompt, the counter has moved on by one, and the same functions wait for
    -- tokens.
    pub run_answer-answered :
        {A : Type 0} (io : Pipes) (text : Bytes) (read : ResultOutput → Result A)
        (notices : List Notice) (line : Bytes) (sr : ResultOutput) (after rest : Bytes)
        (st : Session S) (proc : Pipes.Process io) {proc' proc'' : Pipes.Process io} {s : S}
        → IsAnswer p b line st.token_gen sr
        → IsLine after
        → All (IsNotice p b) notices
        → heard l (map (output_of p b) notices) st.listener ≡ ok s
        → io.write (to_string decimal st.token_gen ++ text ++ 10 ∷ []) proc ≡ some proc'
        → io.read_until prompt st.out_buf proc'
          ≡ (true, (reply (ending_in l p b what notices line) after rest, proc''))
        → (st' : Session S) × (run_answer p b what io l text read st proc
            ≡ (read sr, (st', proc'')))
          × (view st' ≡ (s, (rest, (next_token st.token_gen, st.pending_asyncs))))
    unfolding run_answer prepare expect_result ending_in
    run_answer-answered io text read notices line sr after rest st proc {proc'} {proc''} {s}
          good_line ha good hs w r =
        let tk = st.token_gen in
        let own : check_token tk (some tk) ≡ ok tt = (check_token_iff tk (some tk)).1 refl in
        let (st', run, seen) =
          work_impl-answered (widen l) p b what (expect_result tk keep_record) io text notices line
            sr after rest (attach blank_output st) proc {s' = (s, sr)} good_line ha good
            (heard-widen (map (output_of p b) notices) st.listener blank_output hs) (rw own refl) w
            r in
        (
          detach st',
          ap (λ x. read_answer p b what io l read (answer io x)) run
              ∙ ap (λ (v : View (S × ResultOutput)). (read v.0.1, (detach st', proc''))) seen,
          ap (λ (v : View (S × ResultOutput)). (v.0.0, v.1)) seen,
        )
