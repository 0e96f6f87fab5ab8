-- ===== src/Plugins/Newlib.antt =====
-- The break point on `mw_func_stub`, which runs the system calls of newlib on the host
-- (src/mw-newlib.cpp, on a POSIX system).
pub mod Flags
pub mod Host
pub mod Stub
pub mod Loading
