-- ===== src/Types/Breakpoints.antt =====
-- `parse_result` for errors, breakpoints and watchpoints (src/mw/gdb/mi2/types.cpp).
use mw_dbg_runner.Common.{ℕ, Option, Bool, Bytes, lit, bytes_eq, List, ℤ, if◌then◌else◌}
use mw_dbg_runner.Error.{Result, ok, ◌>>=◌, traverse}
use mw_dbg_runner.Numbers.{hexadecimal, my_stoull}
use mw_dbg_runner.Output.{Entry, as_string}
use mw_dbg_runner.Types.{find_if}
use mw_dbg_runner.Types.Access.{
  string_at, int_at, string_if, int_if, flag_if, when_found, values_of,
}

-- `error_`
pub record ErrorMessage : Type 0 where
  pub msg : Bytes
  pub code : Option Bytes

unfoldable pub parse_error_message : List Entry → Result ErrorMessage
parse_error_message r = do
  msg ← string_at r (lit "msg")
  code ← string_if r (lit "code")
  ok (record { msg = msg; code = code })

pub record Breakpoint : Type 0 where
  pub number : ℤ
  pub type : Bytes
  pub catch_type : Option Bytes
  pub disp : Bytes
  pub enabled : Bool
  pub addr : ℕ
  pub func : Option Bytes
  pub filename : Option Bytes
  pub fullname : Option Bytes
  pub line : Option ℤ
  pub thread_groups : Option (List Bytes)
  pub at : Option Bytes
  pub pending : Option Bytes
  pub evaluated_by : Option Bytes
  pub thread : Option Bytes
  pub task : Option Bytes
  pub cond : Option Bytes
  pub ignore : Option ℤ
  pub enable : Option ℤ
  pub traceframe_usage : Option Bytes
  pub static_tracepoint_marker_string_id : Option Bytes
  pub mask : Option Bytes
  pub pass : Option ℤ
  pub original_location : Option Bytes
  pub times : ℤ
  pub installed : Option Bool
  pub what : Option Bytes

-- `<MULTIPLE>` stands for several addresses.
unfoldable pub breakpoint_addr : Bytes → Result ℕ
breakpoint_addr addr = if bytes_eq addr (lit "<MULTIPLE>") then ok 0 else my_stoull hexadecimal addr

abbrev is_y : Bytes → Bool
is_y s = bytes_eq s (lit "y")

unfoldable pub parse_breakpoint : List Entry → Result Breakpoint
parse_breakpoint r = do
  number ← int_at r (lit "number")
  type ← string_at r (lit "type")
  disp ← string_at r (lit "disp")
  evaluated_by ← string_if r (lit "evaluated-by")
  addr_text ← string_at r (lit "addr")
  addr ← breakpoint_addr addr_text
  enabled ← string_at r (lit "enabled")
  enable ← int_if r (lit "enable")
  times ← int_at r (lit "times")
  catch_type ← string_if r (lit "catch-type")
  func ← string_if r (lit "func")
  filename ← string_if r (lit "filename")
  fullname ← string_if r (lit "fullname")
  at ← string_if r (lit "at")
  pending ← string_if r (lit "pending")
  thread ← string_if r (lit "thread")
  task ← string_if r (lit "task")
  cond ← string_if r (lit "cond")
  traceframe_usage ← string_if r (lit "traceframe-usage")
  static_tracepoint_marker_string_id ← string_if r (lit "static-tracepoint-marker-string-id")
  mask ← string_if r (lit "mask")
  original_location ← string_if r (lit "original-location")
  what ← string_if r (lit "what")
  line ← int_if r (lit "line")
  ignore ← int_if r (lit "ignore")
  pass ← int_if r (lit "pass")
  installed ← flag_if r (lit "installed") is_y
  thread_groups ←
      when_found (find_if r (lit "thread-groups")) λ v. do vs ← values_of v; traverse as_string vs
  ok (record {
    number = number;
    type = type;
    catch_type = catch_type;
    disp = disp;
    enabled = is_y enabled;
    addr = addr;
    func = func;
    filename = filename;
    fullname = fullname;
    line = line;
    thread_groups = thread_groups;
    at = at;
    pending = pending;
    evaluated_by = evaluated_by;
    thread = thread;
    task = task;
    cond = cond;
    ignore = ignore;
    enable = enable;
    traceframe_usage = traceframe_usage;
    static_tracepoint_marker_string_id = static_tracepoint_marker_string_id;
    mask = mask;
    pass = pass;
    original_location = original_location;
    times = times;
    installed = installed;
    what = what;
  })

pub record Watchpoint : Type 0 where
  pub number : ℤ
  pub exp : Bytes

unfoldable pub parse_watchpoint : List Entry → Result Watchpoint
parse_watchpoint r = do
  number ← int_at r (lit "number")
  exp ← string_at r (lit "exp")
  ok (record { number = number; exp = exp })
