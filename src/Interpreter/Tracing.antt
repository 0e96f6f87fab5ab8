-- ===== src/Interpreter/Tracing.antt =====
-- The commands on tracepoints (src/mw/gdb/mi2/interpreter.cpp).
use mw_dbg_runner.Common.{ℕ, Bool, Bytes, codes, lit, List, [], ◌++◌, Option, none, ℤ}
use mw_dbg_runner.Error.{done, Result, ok, err, Error, ◌>>=◌}
use mw_dbg_runner.Numbers.{decimal, to_string, int_to_string}
use mw_dbg_runner.Output.{ResultOutput}
use mw_dbg_runner.Output.Boost.{Boost}
use mw_dbg_runner.Output.Pegtl.{Pegtl}
use mw_dbg_runner.Types.Trace.{
  FoundTracepoint, parse_found_tracepoint, TraceframeCollection, parse_traceframe_collection,
  TraceVariable, parse_trace_variable, TraceStatus, parse_trace_status,
}
use mw_dbg_runner.Interpreter.Session.{Listeners, Pipes}
use mw_dbg_runner.Interpreter.Locations.{part}
use mw_dbg_runner.Interpreter.Commands.{Run, space, when, run_command, run_query}
use mw_dbg_runner.Interpreter.Reading.{all_of, entries_at, behind_blanks}

-- A value-initialised `trace_variable`.
abbrev pub blank_variable : TraceVariable
blank_variable = record { name = []; initial = 0; current = none }

abbrev variables : ResultOutput → Result (List TraceVariable)
variables rc = do
  vars ← entries_at parse_trace_variable (lit "body") rc
  ok (behind_blanks blank_variable vars)

-- The options stand behind one another without a space.
unfoldable pub collected_text : Option Bytes → Option Bytes → Option Bytes → Bool → Bytes
collected_text var_pval comp_pval regformat memory_contents =
    codes "-trace-find line "
    ++ part var_pval (λ v. codes "--var-print-values " ++ v)
    ++ part comp_pval (λ v. codes "--comp-print-valuess " ++ v)
    ++ part regformat (λ v. codes "--registers-format " ++ v)
    ++ when memory_contents (codes "--memory-contents")

-- `return boost::none` after a command.
abbrev found_none : {A : Type 0} → Result (Unit {0}) × A → Result (Option FoundTracepoint) × A
found_none (ok _, rest) = (ok none, rest)
found_none (err e, rest) = (err e, rest)

module _ (p : Pegtl) (b : Boost) (what : Error → Bytes) (io : Pipes) {S : Type 0}
    (l : Listeners S) where
  abbrev run : Bytes → Run p b what io l (Unit {0})
  run text = run_command p b what io l text done

  abbrev query : {A : Type 0} → Bytes → (ResultOutput → Result A) → Run p b what io l A
  query = run_query p b what io l

  abbrev found : Bytes → Run p b what io l (Option FoundTracepoint)
  found text = query (codes "-trace-find " ++ text) (all_of parse_found_tracepoint)

  unfoldable pub trace_find_none : Run p b what io l (Option FoundTracepoint)
  trace_find_none st proc = found_none (run (codes "-trace-find none") st proc)

  unfoldable pub trace_find : Bytes → Run p b what io l (Option FoundTracepoint)
  trace_find str = found str

  unfoldable pub trace_find_by_frame : ℤ → Run p b what io l (Option FoundTracepoint)
  trace_find_by_frame frame = found (codes "frame-number " ++ int_to_string frame)

  unfoldable pub trace_find_number : ℤ → Run p b what io l (Option FoundTracepoint)
  trace_find_number number = found (codes "tracepoint-number " ++ int_to_string number)

  unfoldable pub trace_find_at : ℕ → Run p b what io l (Option FoundTracepoint)
  trace_find_at addr = found (codes "pc " ++ to_string decimal addr)

  unfoldable pub trace_find_inside : ℕ → ℕ → Run p b what io l (Option FoundTracepoint)
  trace_find_inside start end =
      found (codes "pc-inside-range " ++ to_string decimal start ++ space ++ to_string decimal end)

  unfoldable pub trace_find_outside : ℕ → ℕ → Run p b what io l (Option FoundTracepoint)
  trace_find_outside start end =
      found (codes "pc-outside-range " ++ to_string decimal start ++ space ++ to_string decimal end)

  unfoldable pub trace_find_line : ℕ → Option Bytes → Run p b what io l (Option FoundTracepoint)
  trace_find_line line file =
      found (codes "line " ++ part file (λ f. f ++ codes ":") ++ to_string decimal line)

  unfoldable pub trace_define_variable : Bytes → Option Bytes → Run p b what io l (Unit {0})
  trace_define_variable name value =
      run (codes "-trace-define-variable " ++ name ++ part value (λ v. space ++ v))

  -- The command sent is `-trace-find line`.
  unfoldable pub trace_frame_collected :
      Option Bytes → Option Bytes → Option Bytes → Bool → Run p b what io l TraceframeCollection
  trace_frame_collected var_pval comp_pval regformat memory_contents =
      query (collected_text var_pval comp_pval regformat memory_contents)
        (all_of parse_traceframe_collection)

  unfoldable pub trace_list_variables : Run p b what io l (List TraceVariable)
  trace_list_variables = query (codes "-trace-list-variable") variables

  unfoldable pub trace_save : Bytes → Bool → Run p b what io l (Unit {0})
  trace_save filename remote = run (codes "-trace-save " ++ when remote (codes "-r ") ++ filename)

  unfoldable pub trace_start : Run p b what io l (Unit {0})
  trace_start = run (codes "-trace-start")

  unfoldable pub trace_status : Run p b what io l TraceStatus
  trace_status = query (codes "-trace-status") (all_of parse_trace_status)

  unfoldable pub trace_stop : Run p b what io l (Unit {0})
  trace_stop = run (codes "-trace-stop")
