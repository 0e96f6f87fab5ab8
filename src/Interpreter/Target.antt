-- ===== src/Interpreter/Target.antt =====
-- The commands on the target (src/mw/gdb/mi2/interpreter.cpp).
use mw_dbg_runner.Common.{true, false, Bytes, codes, List, [], ◌∷◌, ◌++◌}
use mw_dbg_runner.Error.{done, connected, Result, err, Error}
use mw_dbg_runner.Output.{ResultOutput}
use mw_dbg_runner.Output.Boost.{Boost}
use mw_dbg_runner.Output.Pegtl.{Pegtl}
use mw_dbg_runner.Types.Files.{
  DownloadInfo, parse_download_info, ConnectionNotification, parse_connection_notification,
}
use mw_dbg_runner.Interpreter.Session.{Listeners, Pipes}
use mw_dbg_runner.Interpreter.Checks.{same_class, unexpected_result}
use mw_dbg_runner.Interpreter.Commands.{Run, space, run_command, run_query, run_answer}
use mw_dbg_runner.Interpreter.Environment.{words}
use mw_dbg_runner.Interpreter.Reading.{all_of}

-- Only a record of class `connected` is read.
unfoldable pub when_connected : {A : Type 0} → (ResultOutput → Result A) → ResultOutput → Result A
when_connected read rc = elim (same_class rc.class_ connected) [
  | true ↦ read rc
  | false ↦ err (unexpected_result rc)
]

module _ (p : Pegtl) (b : Boost) (what : Error → Bytes) (io : Pipes) {S : Type 0}
    (l : Listeners S) where
  unfoldable pub target_download : Run p b what io l DownloadInfo
  target_download = run_query p b what io l (codes "-target-download") (all_of parse_download_info)

  unfoldable pub target_select : Bytes → List Bytes → Run p b what io l ConnectionNotification
  target_select type args =
      run_answer p b what io l (codes "-target-select " ++ type ++ words args)
        (when_connected (all_of parse_connection_notification))

  abbrev Select : Type 0
  Select = Run p b what io l ConnectionNotification

  unfoldable pub target_select_core : Bytes → Select
  target_select_core filename = target_select (codes "core") (filename ∷ [])

  unfoldable pub target_select_exec : Bytes → List Bytes → Select
  target_select_exec filename args = target_select (codes "exec") (filename ∷ args)

  unfoldable pub target_select_extended_remote : Bytes → Select
  target_select_extended_remote medium = target_select (codes "extended-remote") (medium ∷ [])

  unfoldable pub target_select_native : Bytes → List Bytes → Select
  target_select_native filename args = target_select (codes "native") (filename ∷ args)

  unfoldable pub target_select_record : Select
  target_select_record = target_select (codes "record") []

  unfoldable pub target_select_record_btrace : Select
  target_select_record_btrace = target_select (codes "record-btrace") []

  unfoldable pub target_select_record_core : Select
  target_select_record_core = target_select (codes "record-core") []

  unfoldable pub target_select_record_full : Select
  target_select_record_full = target_select (codes "record-full") []

  unfoldable pub target_select_remote : Bytes → Select
  target_select_remote medium = target_select (codes "remote") (medium ∷ [])

  unfoldable pub target_select_tfile : Bytes → Select
  target_select_tfile file = target_select (codes "tfile") (file ∷ [])

  unfoldable pub target_file_put : Bytes → Bytes → Run p b what io l (Unit {0})
  target_file_put hostfile targetfile =
      run_command p b what io l (codes "-target-file-put " ++ hostfile ++ space ++ targetfile) done

  unfoldable pub target_file_get : Bytes → Bytes → Run p b what io l (Unit {0})
  target_file_get targetfile hostfile =
      run_command p b what io l (codes "-target-file-get " ++ targetfile ++ space ++ hostfile) done

  unfoldable pub target_file_delete : Bytes → Run p b what io l (Unit {0})
  target_file_delete targetfile =
      run_command p b what io l (codes "-target-file-delete " ++ targetfile) done
