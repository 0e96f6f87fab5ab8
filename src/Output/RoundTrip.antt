-- ===== src/Output/RoundTrip.antt =====
-- What gdb writes is read back by the grammar of src/mw/gdb/mi2/output.cpp.
pub mod Strings
pub mod Values
pub mod Nested
pub mod Lines
pub mod Async
pub mod Answers
pub mod Misses
pub mod Reports
