-- ===== src/Types/Notices.antt =====
-- `parse_result` for the notices of the debugger (src/mw/gdb/mi2/types.cpp).
use mw_dbg_runner.Common.{ℕ, Option, Bytes, lit, List, ℤ, if◌then◌else◌}
use mw_dbg_runner.Error.{Result, ok, ◌>>=◌}
use mw_dbg_runner.Output.{Entry, as_tuple}
use mw_dbg_runner.Types.{find}
use mw_dbg_runner.Types.Access.{string_at, int_at, hex_at, string_if, int_if, has}
use mw_dbg_runner.Types.Breakpoints.{Breakpoint, parse_breakpoint}

pub record ThreadGroupAdded : Type 0 where
  pub id : ℤ

unfoldable pub parse_thread_group_added : List Entry → Result ThreadGroupAdded
parse_thread_group_added r = do id ← int_at r (lit "id"); ok (record { id = id })

pub record ThreadGroupRemoved : Type 0 where
  pub id : ℤ

unfoldable pub parse_thread_group_removed : List Entry → Result ThreadGroupRemoved
parse_thread_group_removed r = do id ← int_at r (lit "id"); ok (record { id = id })

pub record ThreadGroupStarted : Type 0 where
  pub id : ℤ
  pub pid : ℤ

unfoldable pub parse_thread_group_started : List Entry → Result ThreadGroupStarted
parse_thread_group_started r = do
  id ← int_at r (lit "id")
  pid ← int_at r (lit "pid")
  ok (record { id = id; pid = pid })

pub record ThreadGroupExited : Type 0 where
  pub id : ℤ
  pub exited : Option ℤ

unfoldable pub parse_thread_group_exited : List Entry → Result ThreadGroupExited
parse_thread_group_exited r = do
  id ← int_at r (lit "id")
  exited ← int_if r (lit "exited")
  ok (record { id = id; exited = exited })

pub record ThreadCreated : Type 0 where
  pub id : ℤ
  pub gid : ℤ

unfoldable pub parse_thread_created : List Entry → Result ThreadCreated
parse_thread_created r = do
  id ← int_at r (lit "id")
  gid ← int_at r (lit "gid")
  ok (record { id = id; gid = gid })

pub record ThreadExited : Type 0 where
  pub id : ℤ
  pub gid : ℤ

unfoldable pub parse_thread_exited : List Entry → Result ThreadExited
parse_thread_exited r = do
  id ← int_at r (lit "id")
  gid ← int_at r (lit "gid")
  ok (record { id = id; gid = gid })

pub record ThreadSelected : Type 0 where
  pub id : ℤ
  pub gid : ℤ

unfoldable pub parse_thread_selected : List Entry → Result ThreadSelected
parse_thread_selected r = do
  id ← int_at r (lit "id")
  gid ← int_at r (lit "gid")
  ok (record { id = id; gid = gid })

pub record LibraryLoaded : Type 0 where
  pub id : ℤ
  pub host_name : Bytes
  pub target_name : Bytes
  pub symbols_loaded : Option Bytes

unfoldable pub parse_library_loaded : List Entry → Result LibraryLoaded
parse_library_loaded r = do
  id ← int_at r (lit "id")
  host_name ← string_at r (lit "host-name")
  target_name ← string_at r (lit "target-name")
  symbols_loaded ← string_if r (lit "symbols-loaded")
  ok (record {
    id = id;
    host_name = host_name;
    target_name = target_name;
    symbols_loaded = symbols_loaded;
  })

pub data TraceframeChanged : Type 0 where
  changed : ℤ → Bytes → TraceframeChanged
  end_of_trace : TraceframeChanged

unfoldable pub parse_traceframe_changed : List Entry → Result TraceframeChanged
parse_traceframe_changed r = if has r (lit "end") then ok end_of_trace else do
  num ← int_at r (lit "num")
  tracepoint ← string_at r (lit "tracepoint")
  ok (changed num tracepoint)

pub record TsvFrame : Type 0 where
  pub name : Option Bytes
  pub initial : Option Bytes

unfoldable pub parse_tsv_frame : List Entry → Result TsvFrame
parse_tsv_frame r = do
  name ← string_if r (lit "name")
  initial ← string_if r (lit "initial")
  ok (record { name = name; initial = initial })

pub record TsvModified : Type 0 where
  pub name : Bytes
  pub initial : Bytes
  pub current : Option Bytes

unfoldable pub parse_tsv_modified : List Entry → Result TsvModified
parse_tsv_modified r = do
  name ← string_at r (lit "name")
  initial ← string_at r (lit "initial")
  current ← string_if r (lit "current")
  ok (record { name = name; initial = initial; current = current })

pub record BreakpointCreated : Type 0 where
  pub bkpt : Breakpoint

unfoldable pub parse_breakpoint_created : List Entry → Result BreakpointCreated
parse_breakpoint_created r = do
  v ← find r (lit "bkpt")
  es ← as_tuple v
  bkpt ← parse_breakpoint es
  ok (record { bkpt = bkpt })

pub record BreakpointModified : Type 0 where
  pub bkpt : Breakpoint

unfoldable pub parse_breakpoint_modified : List Entry → Result BreakpointModified
parse_breakpoint_modified r = do
  v ← find r (lit "bkpt")
  es ← as_tuple v
  bkpt ← parse_breakpoint es
  ok (record { bkpt = bkpt })

pub record BreakpointDeleted : Type 0 where
  pub number : ℤ

unfoldable pub parse_breakpoint_deleted : List Entry → Result BreakpointDeleted
parse_breakpoint_deleted r = do number ← int_at r (lit "number"); ok (record { number = number })

pub record RecordStarted : Type 0 where
  pub thread_group : ℤ
  pub format : Option Bytes
  pub method : Bytes

unfoldable pub parse_record_started : List Entry → Result RecordStarted
parse_record_started r = do
  thread_group ← int_at r (lit "thread-group")
  format ← string_if r (lit "format")
  method ← string_at r (lit "method")
  ok (record { thread_group = thread_group; format = format; method = method })

pub record RecordStopped : Type 0 where
  pub thread_group : ℤ

unfoldable pub parse_record_stopped : List Entry → Result RecordStopped
parse_record_stopped r = do
  thread_group ← int_at r (lit "thread-group")
  ok (record { thread_group = thread_group })

pub record CmdParamChanged : Type 0 where
  pub param : Bytes
  pub value : Bytes

unfoldable pub parse_cmd_param_changed : List Entry → Result CmdParamChanged
parse_cmd_param_changed r = do
  param ← string_at r (lit "param")
  value ← string_at r (lit "value")
  ok (record { param = param; value = value })

pub record MemoryChanged : Type 0 where
  pub thread_group : ℤ
  pub len : ℤ
  pub addr : ℕ
  pub code : Option Bytes

unfoldable pub parse_memory_changed : List Entry → Result MemoryChanged
parse_memory_changed r = do
  thread_group ← int_at r (lit "thread-group")
  len ← int_at r (lit "len")
  addr ← hex_at r (lit "addr")
  code ← string_if r (lit "code")
  ok (record { thread_group = thread_group; len = len; addr = addr; code = code })
