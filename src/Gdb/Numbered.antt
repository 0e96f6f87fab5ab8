-- ===== src/Gdb/Numbered.antt =====
-- The setting of a break point (`_init_bps` in src/mw/gdb/process.cpp), from the line with which gdb
-- answers `-break-insert`.
use mw_dbg_runner.Common.{
  arith, ℕ, ◌<◌, ◌≡◌, refl, ◌∙◌, ap, Bool, true, Bytes, lit, bytes_eq, List, [], ◌∷◌, ◌++◌, some,
  All, map, ℤ,
}
use mw_dbg_runner.Error.{
  Error, Result, ok, err, crashed, unexpected_result_class, ResultClass, done, running, connected,
  error, exit,
}
use mw_dbg_runner.Numbers.{decimal, to_string, u64_mod}
use mw_dbg_runner.Output.{Results, tuple, entries, ResultOutput, as_tuple}
use mw_dbg_runner.Output.Boost.{Boost}
use mw_dbg_runner.Output.Pegtl.{Pegtl}
use mw_dbg_runner.Output.Syntax.{IsName, IsPlain}
use mw_dbg_runner.Output.RoundTrip.Reports.{show_result, show_report, report_of}
use mw_dbg_runner.Types.Breakpoints.{Breakpoint, parse_breakpoint}
use mw_dbg_runner.Interpreter.Session.{Session, Listeners, Pipes}
use mw_dbg_runner.Interpreter.Work.{prompt}
use mw_dbg_runner.Interpreter.Lines.{IsLine, reply}
use mw_dbg_runner.Interpreter.Checks.{same_class}
use mw_dbg_runner.Interpreter.Commands.{next_token, when_done, run_query}
use mw_dbg_runner.Interpreter.Breaks.{break_insert, break_insert_text, inserted}
use mw_dbg_runner.Interpreter.Replies.{
  view, Notice, output_of, IsNotice, IsAnswer, heard, show_report-IsAnswer,
}
use mw_dbg_runner.Interpreter.Runs.{ending_in}
use mw_dbg_runner.Interpreter.Queries.{run_answer-answered}
use mw_dbg_runner.Debug.BreakPoint.{BreakPoint}
use mw_dbg_runner.Gdb.Numbering.{insert}
use mw_dbg_runner.Gdb.State.{World, Host, on_session}
use mw_dbg_runner.Gdb.Setup.{init_bp, with_condition}

-- A break point that is told where it was set leaves the state alone.
unfoldable pub IsQuiet : {W : Type 0} → BreakPoint W → Type 0
IsQuiet {W} bp =
    ((addr : ℕ) (file : Bytes) (line : ℤ) (w : W) → bp.set_at addr file line w ≡ (ok tt, w))
    × ((addr : ℕ) (name : Bytes) (cnt : ℤ) (w : W) → bp.set_multiple addr name cnt w ≡ (ok tt, w))

-- What becomes of a break point that gdb answers by a record without results.
unfoldable pub by_class : ResultClass → Result (Unit {0})
by_class done = err crashed
by_class error = ok tt
by_class running = err (unexpected_result_class done running [])
by_class connected = err (unexpected_result_class done connected [])
by_class exit = err (unexpected_result_class done exit [])

-- The same for the exception of the command.
unfoldable without_results : ResultClass → Result (List Breakpoint)
without_results done = ok []
without_results rc = err (unexpected_result_class done rc [])

bkpt-IsName : IsName (lit "bkpt")
unfolding lit
bkpt-IsName = (
  (omega arith, omega arith),
  ((omega arith, omega arith), ((omega arith, omega arith), ((omega arith, omega arith), tt))),
)

when_done-breakpoint :
    (rs : Results) (found : Breakpoint)
    → parse_breakpoint (entries rs) ≡ ok found
    → when_done
        (λ r. inserted r.results)
        (record {
          class_ = done;
          results = record { variable = lit "bkpt"; value_ = tuple rs } ∷ [];
        })
      ≡ ok (found ∷ [])
unfolding when_done inserted same_class as_tuple lit bytes_eq
when_done-breakpoint rs found h = rw h refl

module _ (p : Pegtl) (b : Boost) (what : Error → Bytes) (io : Pipes) {S : Type 0} (l : Listeners S)
    (M : Type 0) where
  abbrev pub W : Type 0
  W = World io S M

  -- gdb takes the text that sets the break point, and answers by notices, a line and the prompt, after
  -- which the functions connected keep `s`.
  unfoldable pub Answers :
      BreakPoint W
      → Session S
      → Pipes.Process io
      → List Notice
      → Bytes
      → Bytes
      → Bytes
      → Pipes.Process io
      → S
      → Type 0
  Answers bp st proc notices line after rest proc'' s =
      IsLine after
      × All (IsNotice p b) notices
      × (heard l (map (output_of p b) notices) st.listener ≡ ok s)
      × ((proc' : Pipes.Process io) × (io.write
              (to_string decimal st.token_gen
                ++ break_insert_text bp.identifier (with_condition bp.condition)
                ++ 10 ∷ [])
              proc
            ≡ some proc')
          × (io.read_until prompt st.out_buf proc'
              ≡ (true, (reply (ending_in l p b what notices line) after rest, proc''))))

  module _ (index : ℕ) (bp : BreakPoint W) (st : Session S) (proc : Pipes.Process io)
      (host : Host M) (notices : List Notice) (after rest : Bytes) (proc'' : Pipes.Process io)
      (s : S) where
    abbrev insertion : W → Result (List Breakpoint) × W
    insertion =
        on_session p b what io l
          (break_insert p b what io l bp.identifier (with_condition bp.condition))

    insertion-answered :
        (line : Bytes) (sr : ResultOutput)
        → IsAnswer p b line st.token_gen sr
        → Answers bp st proc notices line after rest proc'' s
        → (st' : Session S) × (insertion (st, (proc, host))
            ≡ (when_done (λ r. inserted r.results) sr, (st', (proc'', host))))
          × (view st' ≡ (s, (rest, (next_token st.token_gen, st.pending_asyncs))))
    unfolding Answers break_insert run_query
    insertion-answered line sr good_line (ha, good, hs, (proc', w, r)) =
        let text = break_insert_text bp.identifier (with_condition bp.condition) in
        let (st', run, seen) =
          run_answer-answered l p b what io text (when_done (λ rc. inserted rc.results)) notices
            line sr after rest st proc good_line ha good hs w r in
        (st', ap (λ x. (x.0, (x.1.0, (x.1.1, host)))) run, seen)

    abbrev numbered : Breakpoint → Host M
    numbered found = record host {
      break_point_map = insert found.number index host.break_point_map;
    }

    init_bp-found :
        (found : Breakpoint) (st' : Session S)
        → IsQuiet bp
        → insertion (st, (proc, host)) ≡ (ok (found ∷ []), (st', (proc'', host)))
        → init_bp p b what io l M index bp (st, (proc, host))
          ≡ (ok tt, (st', (proc'', numbered found)))
    unfolding init_bp IsQuiet
    init_bp-found found st' (at_one, _) h = rw (h, at_one _ _ _ _) refl

    -- A break point that gdb answers by its `bkpt` is entered in the map under the number that gdb gave
    -- it, and nothing else of the run changes, if being told where it was set leaves the state alone.
    -- The command has used up its token, and the buffer is left behind the prompt. The token is below
    -- 2^64, gdb takes the text that sets the break point, its `bkpt` is plain, without a newline, and
    -- parses, and the functions connected do not throw.
    pub init_bp-numbered :
        (rs : Results) (cr : Bool) (found : Breakpoint)
        → st.token_gen < u64_mod
        → IsQuiet bp
        → IsPlain (tuple rs)
        → IsLine (show_result p b (lit "bkpt") (tuple rs) cr)
        → parse_breakpoint (entries rs) ≡ ok found
        → Answers bp st proc notices
            (show_report p b (some st.token_gen) done (lit "bkpt") (tuple rs) cr)
            after
            rest
            proc''
            s
        → (st' : Session S) × (init_bp p b what io l M index bp (st, (proc, host))
            ≡ (ok tt, (st', (proc'', numbered found))))
          × (view st' ≡ (s, (rest, (next_token st.token_gen, st.pending_asyncs))))
    init_bp-numbered rs cr found fits quiet plain one_line parsed answers =
        let sr = report_of p b done (lit "bkpt") (tuple rs) in
        let line = show_report p b (some st.token_gen) done (lit "bkpt") (tuple rs) cr in
        let good_line =
          show_report-IsAnswer p b st.token_gen done (lit "bkpt") (tuple rs) cr fits bkpt-IsName
            plain one_line in
        let (st', run, seen) = insertion-answered line sr good_line answers in
        let known =
          ap (λ (x : Result (List Breakpoint)). (x, (st', (proc'', host))))
            (when_done-breakpoint rs found parsed) in
        (st', init_bp-found found st' quiet (run ∙ known), seen)
