-- ===== src/Interpreter/Catches.antt =====
-- The commands on catchpoints (src/mw/gdb/mi2/interpreter.cpp).
use mw_dbg_runner.Common.{Bool, Bytes, codes, lit, ◌++◌, Option}
use mw_dbg_runner.Error.{Error}
use mw_dbg_runner.Output.Boost.{Boost}
use mw_dbg_runner.Output.Pegtl.{Pegtl}
use mw_dbg_runner.Types.Breakpoints.{Breakpoint}
use mw_dbg_runner.Interpreter.Session.{Listeners, Pipes}
use mw_dbg_runner.Interpreter.Locations.{part}
use mw_dbg_runner.Interpreter.Commands.{Run, when, run_query}
use mw_dbg_runner.Interpreter.Breaks.{breakpoint_at}

module _ (p : Pegtl) (b : Boost) (what : Error → Bytes) (io : Pipes) {S : Type 0}
    (l : Listeners S) where
  abbrev caught : Bytes → Run p b what io l Breakpoint
  caught text = run_query p b what io l text (breakpoint_at (lit "bkpt"))

  unfoldable pub catch_load : Bytes → Bool → Bool → Run p b what io l Breakpoint
  catch_load regexp temporary disabled = caught (
      codes "-catch-load " ++ when temporary (codes "-t ") ++ when disabled (codes "-d ") ++ regexp)

  unfoldable pub catch_unload : Bytes → Bool → Bool → Run p b what io l Breakpoint
  catch_unload regexp temporary disabled = caught (
      codes "-catch-unload "
      ++ when temporary (codes "-t ")
      ++ when disabled (codes "-d ")
      ++ regexp)

  unfoldable pub catch_assert : Option Bytes → Bool → Bool → Run p b what io l Breakpoint
  catch_assert condition temporary disabled = caught (
      codes "-catch-assert"
      ++ part condition (λ c. codes " -c " ++ c)
      ++ when temporary (codes " -t")
      ++ when disabled (codes " -d"))

  unfoldable pub catch_exception : Option Bytes → Bool → Bool → Run p b what io l Breakpoint
  catch_exception condition temporary disabled = caught (
      codes "-catch-exception"
      ++ part condition (λ c. codes " -c " ++ c)
      ++ when temporary (codes " -t")
      ++ when disabled (codes " -d"))
