-- ===== src/Interpreter.antt =====
-- The driver of the debugger (src/mw/gdb/mi2/interpreter.cpp, interpreter2.cpp): its state, the loop
-- over the lines of a reply, the checks of a record, and the commands.
pub mod Session
pub mod Sinks
pub mod Work
pub mod Checks
pub mod Locations
pub mod Commands
pub mod Breaks
pub mod Catches
pub mod Stop
pub mod Stops
pub mod Lines
pub mod Loop
pub mod Ending
pub mod Tokens
mod Tests
pub mod Reading
pub mod Options
pub mod Formats
pub mod Environment
pub mod Threads
pub mod Exec
pub mod Frames
pub mod Variables
pub mod Assembly
pub mod Data
pub mod Tracing
pub mod Target
pub mod Info
pub mod Replies
pub mod Runs
pub mod Queries
mod RunTests
pub mod MemoryText
pub mod Counter
pub mod Communicate
pub mod Commanded
