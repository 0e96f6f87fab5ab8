-- ===== src/Gdb.antt =====
-- A run of a program under gdb (src/mw/gdb): the frames that a break point works with, and the
-- process that sets the break points and hands the stops to them.
pub mod Values
pub mod Bits
pub mod BitValues
pub mod Memory
pub mod Blocks
pub mod Numbering
pub mod State
pub mod Frames
pub mod Printing
pub mod Setup
pub mod Stops
pub mod Process
pub mod Registers
pub mod Numbered
pub mod Handling
pub mod Samples
mod NumberedTests
mod Tests
