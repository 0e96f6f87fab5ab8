-- ===== src/Types.antt =====
-- Typed data out of results (src/mw/gdb/mi2/types.cpp, include/mw/gdb/mi2/types.hpp): the look-up of
-- a result by its name. The children hold one `parse_result` for each type.
pub mod Access
pub mod Find
pub mod Breakpoints
pub mod Frames
pub mod Threads
pub mod Vars
pub mod Memory
pub mod Contents
pub mod Trace
pub mod Files
pub mod Notices
pub mod RoundTrip
pub mod Faults
mod Tests
use mw_dbg_runner.Common.{Bool, Option, none, some, Bytes, bytes_eq, List, [], ◌∷◌, if◌then◌else◌}
use mw_dbg_runner.Error.{Result, ok, err, missing_value}
use mw_dbg_runner.Output.{Entry, Value}

-- The first result of that name.
unfoldable pub find_if : List Entry → Bytes → Option Value
find_if [] id = none
find_if (e ∷ es) id = if bytes_eq e.variable id then some e.value_ else find_if es id

abbrev or_missing : Bytes → Option Value → Result Value
or_missing id none = err (missing_value id)
or_missing id (some v) = ok v

unfoldable pub find : List Entry → Bytes → Result Value
find es id = or_missing id (find_if es id)
