-- ===== src/Types/Trace.antt =====
-- `parse_result` for tracepoints, trace frames and trace variables (src/mw/gdb/mi2/types.cpp).
use mw_dbg_runner.Common.{ℕ, ◌%◌, Option, Bool, Bytes, lit, List, [], ◌∷◌, ℤ}
use mw_dbg_runner.Error.{Result, ok, ◌>>=◌}
use mw_dbg_runner.Numbers.{stoll}
use mw_dbg_runner.Output.{Entry, as_string}
use mw_dbg_runner.Types.{find_if}
use mw_dbg_runner.Types.Access.{
  string_at, int_at, size_at, string_if, int_if, size_if, flag_if, when_found, or_empty, is_one,
  tuples_of,
}
use mw_dbg_runner.Types.Frames.{Frame}
use mw_dbg_runner.Types.Threads.{frame_of}
use mw_dbg_runner.Types.Memory.{
  RegisterValue, parse_register_value, MemoryRegion, parse_memory_region,
}

pub record FoundTracepoint : Type 0 where
  pub traceframe : ℤ
  pub tracepoint : ℤ
  pub frame : Option Frame

abbrev found_frame : List Entry → Result FoundTracepoint
found_frame r = do
  traceframe ← int_at r (lit "traceframe")
  tracepoint ← int_at r (lit "tracepoint")
  frame ← when_found (find_if r (lit "frame")) frame_of
  ok (record { traceframe = traceframe; tracepoint = tracepoint; frame = frame })

unfoldable pub parse_found_tracepoint : List Entry → Result (Option FoundTracepoint)
parse_found_tracepoint r = when_found (find_if r (lit "found")) λ _. found_frame r

pub record TraceframeCollection : Type 0 where
  pub explicit_variables : List RegisterValue
  pub computed_expressions : List RegisterValue
  pub registers : List RegisterValue
  pub tvars : List RegisterValue
  pub memory : List MemoryRegion

-- The memory regions are read from `tvars` as well.
unfoldable pub parse_traceframe_collection : List Entry → Result TraceframeCollection
parse_traceframe_collection r = do
  explicit_variables ←
      when_found (find_if r (lit "explicit-variables")) (tuples_of parse_register_value)
  computed_expressions ←
      when_found (find_if r (lit "computed-expressions")) (tuples_of parse_register_value)
  registers ← when_found (find_if r (lit "registers")) (tuples_of parse_register_value)
  tvars ← when_found (find_if r (lit "tvars")) (tuples_of parse_register_value)
  memory ← when_found (find_if r (lit "tvars")) (tuples_of parse_memory_region)
  ok (record {
    explicit_variables = or_empty explicit_variables;
    computed_expressions = or_empty computed_expressions;
    registers = or_empty registers;
    tvars = or_empty tvars;
    memory = or_empty memory;
  })

-- A number assigned to a `std::string`, which keeps the character of that code.
abbrev pub as_char : ℕ → Bytes
as_char n = n % 256 ∷ []

pub record TraceVariable : Type 0 where
  pub name : Bytes
  pub initial : ℕ
  pub current : Option ℤ

unfoldable pub parse_trace_variable : List Entry → Result TraceVariable
parse_trace_variable r = do
  name ← size_at r (lit "name")
  initial ← size_at r (lit "initial")
  current ← when_found (find_if r (lit "current")) λ v. as_string v >>= stoll
  ok (record { name = as_char name; initial = initial; current = current })

pub record TraceStatus : Type 0 where
  pub supported : Bool
  pub running : Option Bool
  pub stop_reason : Option Bytes
  pub stopping_tracepoint : Option ℤ
  pub frames : Option ℕ
  pub frames_created : Option ℕ
  pub buffer_size : Option ℕ
  pub buffer_free : Option ℕ
  pub circular : Option Bool
  pub disconnected : Option Bool
  pub trace_file : Option Bytes

unfoldable pub parse_trace_status : List Entry → Result TraceStatus
parse_trace_status r = do
  supported ← string_at r (lit "supported")
  running ← flag_if r (lit "running") is_one
  stop_reason ← string_if r (lit "stop-reason")
  stopping_tracepoint ← int_if r (lit "stopping-tracepoint")
  frames ← size_if r (lit "frames")
  frames_created ← size_if r (lit "frames-created")
  buffer_size ← size_if r (lit "buffer-size")
  buffer_free ← size_if r (lit "buffer-free")
  circular ← flag_if r (lit "circular") is_one
  disconnected ← flag_if r (lit "disconnected") is_one
  trace_file ← string_if r (lit "trace-file")
  ok (record {
    supported = is_one supported;
    running = running;
    stop_reason = stop_reason;
    stopping_tracepoint = stopping_tracepoint;
    frames = frames;
    frames_created = frames_created;
    buffer_size = buffer_size;
    buffer_free = buffer_free;
    circular = circular;
    disconnected = disconnected;
    trace_file = trace_file;
  })
