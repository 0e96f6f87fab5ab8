-- ===== src/Gdb/State.antt =====
-- The state of a run under gdb: the session with the debugger, the pipes, and the members of
-- `gdb::process` that a run changes (include/mw/debug/process.hpp, include/mw/gdb/process.hpp).
use mw_dbg_runner.Common.{ℕ, Bool, true, Bytes, List, ℤ}
use mw_dbg_runner.Error.{Error, Result}
use mw_dbg_runner.Output.Boost.{Boost}
use mw_dbg_runner.Output.Pegtl.{Pegtl}
use mw_dbg_runner.Interpreter.Session.{Session, Listeners, Pipes}
use mw_dbg_runner.Interpreter.Commands.{Run}
use mw_dbg_runner.Debug.Act.{Act}

-- `break_point_map` has the numbers that gdb gave and the break points, which are named by their
-- positions in `_break_points`; it is in the order of the numbers.
-- `kept` is what the break points themselves keep.
pub record Host (M : Type 0) : Type 0 where
  pub exited : Bool
  pub exit_code : ℤ
  pub break_point_map : List (ℤ × ℕ)
  pub kept : M

unfoldable pub set_exit_code : {M : Type 0} → ℤ → Host M → Host M
set_exit_code code host = record host { exited = true; exit_code = code }

module _ (io : Pipes) (S M : Type 0) where
  abbrev pub World : Type 0
  World = Session S × (Pipes.Process io × Host M)

  abbrev pub host_of : World → Host M
  host_of w = w.1.1

  abbrev pub with_host : Host M → World → World
  with_host h (st, (proc, _)) = (st, (proc, h))

module _ (p : Pegtl) (b : Boost) (what : Error → Bytes) (io : Pipes) {S : Type 0} (l : Listeners S)
    {M : Type 0} where
  abbrev beside_host :
      {A : Type 0} → Host M → Result A × (Session S × Pipes.Process io) → Result A × World io S M
  beside_host host (r, (st, proc)) = (r, (st, (proc, host)))

  -- A command of the interpreter leaves the members of the process alone.
  abbrev pub on_session : {A : Type 0} → Run p b what io l A → Act (World io S M) A
  on_session run (st, (proc, host)) = beside_host host (run st proc)
