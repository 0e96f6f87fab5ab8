-- ===== src/Types/Threads.antt =====
-- `parse_result` for threads, thread groups and tasks (src/mw/gdb/mi2/types.cpp).
use mw_dbg_runner.Common.{◌++◌, Option, none, Bytes, lit, bytes_eq, List, ℤ, if◌then◌else◌}
use mw_dbg_runner.Error.{Result, ok, err, ◌>>=◌, traverse, missing_value}
use mw_dbg_runner.Numbers.{decimal, stoi, strto, neg_or_pos}
use mw_dbg_runner.Output.{Entry, Value, as_string, as_tuple}
use mw_dbg_runner.Types.{find, find_if}
use mw_dbg_runner.Types.Access.{
  string_at, int_at, string_if, int_if, when_found, values_of, results_of, or_empty,
}
use mw_dbg_runner.Types.Frames.{Frame, Arg, parse_frame}

-- `parse_result<frame>(v.as_tuple())`
abbrev pub frame_of : Value → Result Frame
frame_of v = as_tuple v >>= parse_frame

pub record Thread : Type 0 where
  pub id : ℤ
  pub target_id : Bytes
  pub frames : List Frame
  pub state : Bytes

unfoldable pub parse_thread : List Entry → Result Thread
parse_thread r = do
  id ← int_at r (lit "id")
  target_id ← string_at r (lit "target-id")
  frames ← when_found (find_if r (lit "frames")) λ v. do vs ← values_of v; traverse frame_of vs
  state ← string_at r (lit "state")
  ok (record { id = id; target_id = target_id; frames = or_empty frames; state = state })

pub record Groups : Type 0 where
  pub id : ℤ
  pub type : Bytes
  pub pid : Option ℤ
  pub exit_code : Option ℤ
  pub num_children : Option ℤ
  pub threads : Option (List Thread)
  pub cores : Option (List ℤ)
  pub executable : Option Bytes

-- `std::atoi`, which throws nothing; beyond the range of `int` it is undefined.
abbrev atoi : Bytes → ℤ
atoi s = neg_or_pos (strto decimal s)

abbrev pub threads_of : Value → Result (List Thread)
threads_of v = values_of v >>= traverse (λ x. as_tuple x >>= parse_thread)

abbrev pub cores_of : Value → Result (List ℤ)
cores_of v = values_of v >>= traverse (λ x. do s ← as_string x; ok (atoi s))

unfoldable pub parse_groups : List Entry → Result Groups
parse_groups r = do
  id ← int_at r (lit "id")
  type ← string_at r (lit "type")
  pid ← int_if r (lit "pid")
  exit_code ← int_if r (lit "exit_code")
  num_children ← int_if r (lit "num_children")
  threads ← when_found (find_if r (lit "threads")) threads_of
  cores ← when_found (find_if r (lit "exit_code")) cores_of
  executable ← string_if r (lit "executable")
  ok (record {
    id = id;
    type = type;
    pid = pid;
    exit_code = exit_code;
    num_children = num_children;
    threads = threads;
    cores = cores;
    executable = executable;
  })

pub data RunState : Type 0 where
  stopped running : RunState

pub record ThreadInfo : Type 0 where
  pub id : ℤ
  pub target_id : Bytes
  pub details : Option Bytes
  pub state : RunState
  pub core : Option ℤ
  pub frame : Option Frame

unfoldable pub parse_thread_info : List Entry → Result ThreadInfo
parse_thread_info r = do
  id ← int_at r (lit "id")
  target_id ← string_at r (lit "target-id")
  state ← string_at r (lit "state")
  details ← string_if r (lit "details")
  core ← int_if r (lit "core")
  frame ← when_found (find_if r (lit "frame")) frame_of
  ok (record {
    id = id;
    target_id = target_id;
    details = details;
    state = if bytes_eq state (lit "stopped") then stopped else running;
    core = core;
    frame = frame;
  })

pub record ThreadState : Type 0 where
  pub threads : List ThreadInfo
  pub current_thread_id : ℤ

unfoldable pub parse_thread_state : List Entry → Result ThreadState
parse_thread_state r = do
  v ← find r (lit "threads")
  vs ← values_of v
  threads ← traverse (λ x. as_tuple x >>= parse_thread_info) vs
  current ← int_at r (lit "current-thread-id")
  ok (record { threads = threads; current_thread_id = current })

pub record ThreadIdList : Type 0 where
  pub thread_ids : List ℤ
  pub current_thread_id : ℤ
  pub number_of_threads : ℤ

-- Each result of the list must be named `thread-id`.
unfoldable pub thread_id : Entry → Result ℤ
thread_id e =
    if bytes_eq e.variable (lit "thread-id")
    then as_string e.value_ >>= stoi decimal
    else err (missing_value (lit "[" ++ e.variable ++ lit " != thread-id]"))

unfoldable pub parse_thread_id_list : List Entry → Result ThreadIdList
parse_thread_id_list r = do
  v ← find r (lit "thread-ids")
  es ← results_of v
  ids ← traverse thread_id es
  current ← int_at r (lit "current-thread-id")
  number ← int_at r (lit "number-of-threads")
  ok (record { thread_ids = ids; current_thread_id = current; number_of_threads = number })

pub record ThreadSelect : Type 0 where
  pub frame : Option Frame
  pub new_thread_id : ℤ
  pub args : List Arg

unfoldable pub parse_thread_select : List Entry → Result ThreadSelect
parse_thread_select r = do
  id ← int_at r (lit "new-thread-id")
  frame ← when_found (find_if r (lit "frame")) frame_of
  args ← when_found (find_if r (lit "args")) λ v. do
    es ← results_of v
    traverse
        (λ e. do
          value ← as_string (Entry.value_ e)
          ok (record { name = Entry.variable e; value = value; type = none }))
        es
  ok (record { frame = frame; new_thread_id = id; args = or_empty args })

pub record AdaTaskInfo : Type 0 where
  pub current : Option Bytes
  pub id : ℤ
  pub task_id : ℤ
  pub thread_id : Option ℤ
  pub parent_id : Option ℤ
  pub priority : ℤ
  pub state : Bytes
  pub name : Bytes

unfoldable pub parse_ada_task_info : List Entry → Result AdaTaskInfo
parse_ada_task_info r = do
  current ← string_if r (lit "current")
  id ← int_at r (lit "id")
  task_id ← int_at r (lit "task-id")
  thread_id ← int_if r (lit "thread-id")
  parent_id ← int_if r (lit "parent-id")
  priority ← int_at r (lit "priority")
  state ← string_at r (lit "state")
  name ← string_at r (lit "name")
  ok (record {
    current = current;
    id = id;
    task_id = task_id;
    thread_id = thread_id;
    parent_id = parent_id;
    priority = priority;
    state = state;
    name = name;
  })
