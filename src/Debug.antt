-- ===== src/Debug.antt =====
-- What a debugger offers to a break point (include/mw/debug/frame.hpp, break_point.hpp): frames,
-- variables, and computations on the state of the program that may throw.
pub mod Act
pub mod Frame
pub mod BreakPoint
pub mod Cstrings
mod Tests
