-- ===== src/Interpreter/Frames.antt =====
-- The commands on the stack (src/mw/gdb/mi2/interpreter.cpp).
use mw_dbg_runner.Common.{ℕ, Bool, Bytes, codes, lit, List, [], ◌++◌, Option, none}
use mw_dbg_runner.Error.{done, Result, ok, Error, ◌>>=◌, traverse}
use mw_dbg_runner.Numbers.{decimal, to_string, stoull}
use mw_dbg_runner.Output.{
  Entry, Items, results, values, value_list, entries, ResultOutput, as_string, as_tuple, as_list,
}
use mw_dbg_runner.Output.Boost.{Boost}
use mw_dbg_runner.Output.Pegtl.{Pegtl}
use mw_dbg_runner.Types.{find}
use mw_dbg_runner.Types.Frames.{Arg, parse_arg, Frame, parse_frame}
use mw_dbg_runner.Interpreter.Session.{Listeners, Pipes}
use mw_dbg_runner.Interpreter.Commands.{Run, when, run_command, run_query}
use mw_dbg_runner.Interpreter.Options.{PrintValues, print_code, range_text}
use mw_dbg_runner.Interpreter.Reading.{text_at, tuple_at, entries_at}

-- An argument of which only the name is known.
unfoldable pub bare_arg : Entry → Result Arg
bare_arg r = do name ← as_string r.value_; ok (record { name = name; value = []; type = none })

-- The visitor of `stack_list_locals` and `stack_list_variables`.
unfoldable pub visit_args : Items → Result (List Arg)
visit_args (results res) = traverse bare_arg (entries res)
visit_args (values val) = traverse (λ v. as_tuple v >>= parse_arg) (value_list val)

abbrev args_at : Bytes → ResultOutput → Result (List Arg)
args_at id rc = do v ← find rc.results id; lst ← as_list v; visit_args lst

abbrev filters : Bool → Bool → Bytes
filters no_frame_filters skip_unavailable =
    when no_frame_filters (codes "--no-frame-filters ")
    ++ when skip_unavailable (codes "--skip-unavailable ")

module _ (p : Pegtl) (b : Boost) (what : Error → Bytes) (io : Pipes) {S : Type 0}
    (l : Listeners S) where
  abbrev query : {A : Type 0} → Bytes → (ResultOutput → Result A) → Run p b what io l A
  query = run_query p b what io l

  unfoldable pub stacke_info_frame : Run p b what io l Frame
  stacke_info_frame = query (codes "-stack-info-frame") (tuple_at parse_frame (lit "frame"))

  unfoldable pub stack_info_depth : Run p b what io l ℕ
  stack_info_depth =
      query (codes "-stack-info-depth") λ rc. text_at (lit "depth") rc >>= stoull decimal

  unfoldable pub stack_list_arguments :
      PrintValues → Option (ℕ × ℕ) → Bool → Bool → Run p b what io l (List Frame)
  stack_list_arguments print_values frame_range no_frame_filters skip_unavailable =
      query
        (codes "-stack-list-arguments "
          ++ filters no_frame_filters skip_unavailable
          ++ to_string decimal (print_code print_values)
          ++ range_text frame_range)
        (entries_at parse_frame (lit "stack-args"))

  unfoldable pub stack_list_frames : Option (ℕ × ℕ) → Bool → Run p b what io l (List Frame)
  stack_list_frames frame_range no_frame_filters =
      query
        (codes "-stack-list-frames "
          ++ when no_frame_filters (codes " --no-frame-filters")
          ++ range_text frame_range)
        (entries_at parse_frame (lit "stack"))

  unfoldable pub stack_list_locals : PrintValues → Bool → Bool → Run p b what io l (List Arg)
  stack_list_locals print_values no_frame_filters skip_unavailable =
      query
        (codes "-stack-list-locals "
          ++ filters no_frame_filters skip_unavailable
          ++ to_string decimal (print_code print_values))
        (args_at (lit "locals"))

  unfoldable pub stack_list_variables : PrintValues → Bool → Bool → Run p b what io l (List Arg)
  stack_list_variables print_values no_frame_filters skip_unavailable =
      query
        (codes "-stack-list-variables "
          ++ filters no_frame_filters skip_unavailable
          ++ to_string decimal (print_code print_values))
        (args_at (lit "variables"))

  unfoldable pub stack_select_frame : ℕ → Run p b what io l (Unit {0})
  stack_select_frame framenum =
      run_command p b what io l (codes "-stack-select-frame " ++ to_string decimal framenum) done

  unfoldable pub enable_pretty_printing : Run p b what io l (Unit {0})
  enable_pretty_printing = run_command p b what io l (codes "-enable-pretty-printing") done
