-- ===== src/Interpreter/Exec.antt =====
-- The commands that run the program (src/mw/gdb/mi2/interpreter.cpp).
use mw_dbg_runner.Common.{Bool, Bytes, codes, lit, [], ◌++◌, Option, ℤ, pos, negsuc, zero, suc}
use mw_dbg_runner.Error.{running, Error}
use mw_dbg_runner.Numbers.{int_to_string}
use mw_dbg_runner.Output.Boost.{Boost}
use mw_dbg_runner.Output.Pegtl.{Pegtl}
use mw_dbg_runner.Types.Frames.{Frame, parse_frame}
use mw_dbg_runner.Interpreter.Session.{Listeners, Pipes}
use mw_dbg_runner.Interpreter.Locations.{LinespecLocation, ExplicitLocation, AddressLocation, part}
use mw_dbg_runner.Interpreter.Commands.{Run, space, when, run_command, run_query}
use mw_dbg_runner.Interpreter.Options.{loc_str_linespec, loc_str_explicit, loc_str_address}
use mw_dbg_runner.Interpreter.Reading.{tuple_at}

abbrev backwards : Bool → Bytes
backwards reverse = when reverse (codes " --reverse")

abbrev everything : Bool → Bytes
everything all = when all (codes " --all")

-- `if (thread_group) text += " --thread-group " + std::to_string(thread_group);`
abbrev pub of_group : ℤ → Bytes
of_group (pos zero) = []
of_group (pos (suc n)) = codes " --thread-group " ++ int_to_string (pos (suc n))
of_group (negsuc n) = codes " --thread-group " ++ int_to_string (negsuc n)

module _ (p : Pegtl) (b : Boost) (what : Error → Bytes) (io : Pipes) {S : Type 0}
    (l : Listeners S) where
  abbrev start : Bytes → Run p b what io l (Unit {0})
  start text = run_command p b what io l text running

  unfoldable pub exec_continue : Bool → Bool → Run p b what io l (Unit {0})
  exec_continue reverse all = start (codes "-exec-continue" ++ backwards reverse ++ everything all)

  unfoldable pub exec_continue_group : Bool → ℤ → Run p b what io l (Unit {0})
  exec_continue_group reverse thread_group =
      start (codes "-exec-continue" ++ backwards reverse ++ of_group thread_group)

  unfoldable pub exec_finish : Bool → Run p b what io l (Unit {0})
  exec_finish reverse = start (codes "-exec-finish" ++ backwards reverse)

  unfoldable pub exec_interrupt : Bool → Run p b what io l (Unit {0})
  exec_interrupt all = start (codes "-exec-interrupt" ++ everything all)

  unfoldable pub exec_interrupt_group : ℤ → Run p b what io l (Unit {0})
  exec_interrupt_group thread_group = start (codes "-exec-interrupt" ++ of_group thread_group)

  unfoldable pub exec_jump : Bytes → Run p b what io l (Unit {0})
  exec_jump location = start (codes "-exec-jump " ++ location)

  unfoldable pub exec_jump_linespec : LinespecLocation → Run p b what io l (Unit {0})
  exec_jump_linespec ls = exec_jump (loc_str_linespec ls)

  unfoldable pub exec_jump_explicit : ExplicitLocation → Run p b what io l (Unit {0})
  exec_jump_explicit el = exec_jump (loc_str_explicit el)

  unfoldable pub exec_jump_address : AddressLocation → Run p b what io l (Unit {0})
  exec_jump_address al = exec_jump (loc_str_address al)

  unfoldable pub exec_next : Bool → Run p b what io l (Unit {0})
  exec_next reverse = start (codes "-exec-next" ++ backwards reverse)

  unfoldable pub exec_next_instruction : Bool → Run p b what io l (Unit {0})
  exec_next_instruction reverse = start (codes "-exec-next-instruction" ++ backwards reverse)

  unfoldable pub exec_return : Option Bytes → Run p b what io l Frame
  exec_return val =
      run_query p b what io l (codes "-exec-return" ++ part val (λ v. space ++ v))
        (tuple_at parse_frame (lit "frame"))

  unfoldable pub exec_run : Bool → Bool → Run p b what io l (Unit {0})
  exec_run start_ all =
      start (codes "-exec-run" ++ when start_ (codes " --start") ++ everything all)

  -- The option has no dashes and is written for the group 0 too.
  unfoldable pub exec_run_group : Bool → ℤ → Run p b what io l (Unit {0})
  exec_run_group start_ thread_group = start (
      codes "-exec-run"
      ++ when start_ (codes " --start")
      ++ codes " thread-group "
      ++ int_to_string thread_group)

  unfoldable pub exec_step : Bool → Run p b what io l (Unit {0})
  exec_step reverse = start (codes "-exec-step" ++ backwards reverse)

  unfoldable pub exec_step_instruction : Bool → Run p b what io l (Unit {0})
  exec_step_instruction reverse = start (codes "-exec-step-instruction" ++ backwards reverse)

  unfoldable pub exec_until : Bytes → Run p b what io l (Unit {0})
  exec_until location = start (codes "-exec-until " ++ location)

  unfoldable pub exec_until_linespec : LinespecLocation → Run p b what io l (Unit {0})
  exec_until_linespec ls = exec_until (loc_str_linespec ls)

  unfoldable pub exec_until_explicit : ExplicitLocation → Run p b what io l (Unit {0})
  exec_until_explicit el = exec_until (loc_str_explicit el)

  unfoldable pub exec_until_address : AddressLocation → Run p b what io l (Unit {0})
  exec_until_address al = exec_until (loc_str_address al)

  -- It waits for a record of class `running`.
  unfoldable pub enable_frame_filters : Run p b what io l (Unit {0})
  enable_frame_filters = start (codes "-enable-frame-filters")
