-- ===== src/Lib.antt =====
-- mw.dbg-runner, the driver of gdb: its machine interface.
--
-- The program runs a debugger (gdb) behind two pipes, sends it commands, and reads its replies: lines
-- of stream output, of asynchronous output and of records, up to the prompt "(gdb)". The parts and
-- the files that model them:
--
--   Common, Error     lists, bytes, integers; the exceptions, and computations that may throw
--   Numbers           std::stoi, std::stoull, my_stoull, std::to_string on bytes
--   Output            src/mw/gdb/mi2/output.cpp and include/mw/gdb/mi2/output.hpp: the data of a
--                     line (values, tuples, lists, records), the grammar (Output/Grammar), the
--                     functions `to_string` (Output/Display), how gdb writes a value (Output/Syntax)
--                     and the round trips (Output/RoundTrip)
--   Types             src/mw/gdb/mi2/types.cpp and include/mw/gdb/mi2/types.hpp: `find`, `find_if`
--                     and one `parse_...` for each specialisation of `parse_result`, grouped by
--                     subject
--   Interpreter       src/mw/gdb/mi2/interpreter.cpp and interpreter2.cpp: the state
--                     (Interpreter/Session), stream and asynchronous output (Interpreter/Sinks), the
--                     loop `_work_impl` (Interpreter/Work), the checks of a record
--                     (Interpreter/Checks), `wait_for_stop` and `read_header` (Interpreter/Stop), the
--                     locations of breakpoints (Interpreter/Locations), and the commands, whose shapes
--                     are in Interpreter/Commands and whose readers and options in
--                     Interpreter/Reading, Options and Formats: Breaks, Catches, Environment,
--                     Threads, Exec, Frames, Variables, Assembly, Data, Tracing, Target, Info;
--                     src/mw/debug/interpreter_impl.cpp (Interpreter/Communicate)
--   Debug             include/mw/debug: what a debugger offers to a break point (Debug/Frame,
--                     BreakPoint), and computations on the state of the whole program (Debug/Act)
--   Gdb               src/mw/gdb/mi2/frame_impl.cpp: frames (Gdb/Frames, Printing, Values, Bits,
--                     Memory); src/mw/gdb/process.cpp: the state of a run (Gdb/State, Numbering), the
--                     setting of the break points (Gdb/Setup), the loop over the stops (Gdb/Stops) and
--                     a whole run (Gdb/Process)
--   Plugins           src/mw-exitcode.cpp (Plugins/ExitCode) and src/mw-newlib.cpp (Plugins/Newlib:
--                     the flags, the host, and the calls that are passed on to it)
--
-- State is passed explicitly. `last_var_name`, a variable of the parser that outlives a line, is an
-- argument and a result of the parse functions and a field of the session. What the functions
-- connected to the signals keep is the parameter `S` of a session; a function that throws leaves it as
-- it was. Exceptions are values of `Error`; the text of an exception, which is only reported, is the
-- parameter `what`.
--
-- Code that is not part of the repository is a parameter with its documented laws: the combinators of
-- PEGTL (Output/Pegtl, with an implementation in Output/Pegtl/Engine), Boost's string algorithms
-- (Output/Boost), and the pipes of Boost.Process and Asio (Interpreter/Session). The calls of POSIX that
-- the newlib plugin makes, and the constants of its headers, are the parameter `Posix`
-- (Plugins/Newlib/Host). Where a frame assigns a text that the parser still reads, what the parser
-- then finds is undefined; it is the parameter `stale`.
--
-- Fuel: a value is parsed on fuel of one more than the length of its line, since each nested value is
-- shorter; the loop over the lines has one more than the length of the buffer, since each line takes
-- at least one character, and `communicate` has two more. Nothing bounds the number of stops of a
-- program or the length of a text in its memory: `handle_stops` and `get_cstring` have their fuel as
-- an argument.
--
-- Integers: `std::uint64_t` and `int` are read with their bounds; the counter of tokens is kept modulo
-- 2^32; bytes are kept modulo 256. `unsigned long` has 64 bits.
--
-- Not modelled: the spawning of processes, the timers, the logs and the regular expressions on the
-- header of gdb in process.cpp and session.cpp; the variants of the newlib plugin for Windows; the
-- adapters for asynchronous records; the main program, which reads options and loads plugins. The
-- functions that wait for a token, of which the program registers none, only say whether they are
-- finished: they do not throw and keep no state.
pub mod Common
pub mod Error
pub mod Numbers
pub mod Output
pub mod Types
pub mod Interpreter
pub mod Debug
pub mod Gdb
pub mod Plugins
