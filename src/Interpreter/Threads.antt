-- ===== src/Interpreter/Threads.antt =====
-- The commands on threads (src/mw/gdb/mi2/interpreter.cpp).
use mw_dbg_runner.Common.{true, false, Bytes, codes, lit, List, [], ◌++◌, Option, ℤ}
use mw_dbg_runner.Error.{done, Result, err, Error, unexpected_result_class}
use mw_dbg_runner.Numbers.{int_to_string}
use mw_dbg_runner.Output.{ResultOutput}
use mw_dbg_runner.Output.Boost.{Boost}
use mw_dbg_runner.Output.Pegtl.{Pegtl}
use mw_dbg_runner.Types.Threads.{
  ThreadState, parse_thread_state, ThreadIdList, parse_thread_id_list, ThreadSelect,
  parse_thread_select, AdaTaskInfo, parse_ada_task_info,
}
use mw_dbg_runner.Interpreter.Session.{Listeners, Pipes}
use mw_dbg_runner.Interpreter.Checks.{same_class}
use mw_dbg_runner.Interpreter.Locations.{part}
use mw_dbg_runner.Interpreter.Commands.{Run, space, run_answer}
use mw_dbg_runner.Interpreter.Reading.{all_of, tuples_at}

-- Where the class is another the exception carries no message of the record.
unfoldable pub when_done_or_class :
    {A : Type 0} → (ResultOutput → Result A) → ResultOutput → Result A
when_done_or_class read rc = elim (same_class rc.class_ done) [
  | true ↦ read rc
  | false ↦ err (unexpected_result_class done rc.class_ [])
]

module _ (p : Pegtl) (b : Boost) (what : Error → Bytes) (io : Pipes) {S : Type 0}
    (l : Listeners S) where
  abbrev query : {A : Type 0} → Bytes → (ResultOutput → Result A) → Run p b what io l A
  query text read = run_answer p b what io l text (when_done_or_class read)

  unfoldable pub thread_info_ : Option ℤ → Run p b what io l ThreadState
  thread_info_ id =
      query (codes "-thread-info" ++ part id (λ n. space ++ int_to_string n))
        (all_of parse_thread_state)

  unfoldable pub thread_list_ids : Run p b what io l ThreadIdList
  thread_list_ids = query (codes "-thread-list-ids") (all_of parse_thread_id_list)

  unfoldable pub thread_select : ℤ → Run p b what io l ThreadSelect
  thread_select id =
      query (codes "-thread-select " ++ int_to_string id) (all_of parse_thread_select)

  unfoldable pub ada_task_info : Option ℤ → Run p b what io l (List AdaTaskInfo)
  ada_task_info task_id =
      query (codes "-ada-task-info" ++ part task_id (λ n. space ++ int_to_string n))
        (tuples_at parse_ada_task_info (lit "body"))
