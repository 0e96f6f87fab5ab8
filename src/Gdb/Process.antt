-- ===== src/Gdb/Process.antt =====
-- A run of a program under gdb (`_run_impl` in src/mw/gdb/process.cpp).
use mw_dbg_runner.Common.{ℕ, Bool, true, false, Bytes, List}
use mw_dbg_runner.Error.{Error}
use mw_dbg_runner.Output.Boost.{Boost}
use mw_dbg_runner.Output.Pegtl.{Pegtl}
use mw_dbg_runner.Interpreter.Session.{Listeners, Pipes}
use mw_dbg_runner.Interpreter.Stop.{read_header}
use mw_dbg_runner.Interpreter.Environment.{exec_arguments, file_exec_and_symbols}
use mw_dbg_runner.Interpreter.Target.{target_select_remote}
use mw_dbg_runner.Interpreter.Info.{gdb_exit}
use mw_dbg_runner.Debug.Act.{Act, give, ◌>>=◌}
use mw_dbg_runner.Debug.BreakPoint.{BreakPoint}
use mw_dbg_runner.Gdb.Setup.{Settings, is_empty, init_bps, start}
use mw_dbg_runner.Gdb.Stops.{handle_bps}
use mw_dbg_runner.Gdb.State.{World, on_session}

module _ (p : Pegtl) (b : Boost) (what : Error → Bytes) (io : Pipes) {S : Type 0} (l : Listeners S)
    (stale : Bytes → Bytes → Bytes) (M : Type 0) where
  abbrev W : Type 0
  W = World io S M

  abbrev Doing : Type 0 → Type 0
  Doing A = Act W A

  abbrev skip_if : Bool → Doing (Unit {0}) → Doing (Unit {0})
  skip_if true m = give tt
  skip_if false m = m

  -- `_read_info` reads the header, of which it only writes to the log.
  unfoldable pub read_info : Doing (Unit {0})
  read_info = do _ ← on_session p b what io l (read_header p b what io l); give tt

  unfoldable pub run_impl : ℕ → Settings → List (BreakPoint W) → Doing (Unit {0})
  run_impl fuel s bps = do
    _ ← read_info
    _ ←
        skip_if (is_empty s.program)
          (on_session p b what io l (file_exec_and_symbols p b what io l s.program))
    _ ← skip_if (is_empty s.args) (on_session p b what io l (exec_arguments p b what io l s.args))
    _ ←
        skip_if (is_empty s.remote)
          (do _ ← on_session p b what io l (target_select_remote p b what io l s.remote); give tt)
    _ ← init_bps p b what io l M 0 bps
    _ ← start p b what io l M s
    _ ← handle_bps p b what io l stale M fuel bps
    on_session p b what io l (gdb_exit p b what io l)
