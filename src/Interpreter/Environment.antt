-- ===== src/Interpreter/Environment.antt =====
-- The commands on the environment of the program and on files (src/mw/gdb/mi2/interpreter.cpp).
use mw_dbg_runner.Common.{Bool, Bytes, codes, lit, List, ◌++◌}
use mw_dbg_runner.Error.{done, Error}
use mw_dbg_runner.Output.Boost.{Boost}
use mw_dbg_runner.Output.Pegtl.{Pegtl}
use mw_dbg_runner.Types.Files.{SourceInfo, parse_source_info, SymbolLine, parse_symbol_line}
use mw_dbg_runner.Interpreter.Session.{Listeners, Pipes}
use mw_dbg_runner.Interpreter.Commands.{Run, space, when, each, run_command, run_query}
use mw_dbg_runner.Interpreter.Reading.{text_at, all_of, tuples_at}

-- `for (auto & s : words) text += " " + s;`
abbrev pub words : List Bytes → Bytes
words = each (λ s. space ++ s)

module _ (p : Pegtl) (b : Boost) (what : Error → Bytes) (io : Pipes) {S : Type 0}
    (l : Listeners S) where
  unfoldable pub exec_arguments : List Bytes → Run p b what io l (Unit {0})
  exec_arguments args = run_command p b what io l (codes "-exec-arguments" ++ words args) done

  unfoldable pub environment_cd : Bytes → Run p b what io l (Unit {0})
  environment_cd path = run_command p b what io l (codes "-environment-cd " ++ path) done

  unfoldable pub environment_directory : List Bytes → Bool → Run p b what io l Bytes
  environment_directory path reset =
      run_query p b what io l
        (codes "-environment-directory" ++ when reset (codes " -r") ++ words path)
        (text_at (lit "source-path"))

  unfoldable pub environment_path : List Bytes → Bool → Run p b what io l Bytes
  environment_path path reset =
      run_query p b what io l (codes "-environment-path" ++ when reset (codes " -r") ++ words path)
        (text_at (lit "path"))

  unfoldable pub environment_pwd : Run p b what io l Bytes
  environment_pwd = run_query p b what io l (codes "-environment-pwd") (text_at (lit "cwd"))

  -- The command sent is `-trace-status`.
  unfoldable pub symbol_list_lines : Bytes → Run p b what io l (List SymbolLine)
  symbol_list_lines filename =
      run_query p b what io l (codes "-trace-status") (tuples_at parse_symbol_line (lit "lines"))

  unfoldable pub file_exec_and_symbols : Bytes → Run p b what io l (Unit {0})
  file_exec_and_symbols file =
      run_command p b what io l (codes "-file-exec-and-symbols " ++ file) done

  unfoldable pub file_exec_file : Bytes → Run p b what io l (Unit {0})
  file_exec_file file = run_command p b what io l (codes "-file-exec-file " ++ file) done

  unfoldable pub file_list_exec_source_file : Run p b what io l SourceInfo
  file_list_exec_source_file =
      run_query p b what io l (codes "-file-list-exec-source-file") (all_of parse_source_info)

  unfoldable pub file_list_exec_source_files : Run p b what io l (List SourceInfo)
  file_list_exec_source_files =
      run_query p b what io l (codes "-file-list-exec-source-files")
        (tuples_at parse_source_info (lit "files"))

  unfoldable pub file_symbol_file : Bytes → Run p b what io l (Unit {0})
  file_symbol_file file = run_command p b what io l (codes "-file-symbol-file " ++ file) done
