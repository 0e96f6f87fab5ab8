-- ===== src/Plugins.antt =====
-- The break points that the program comes with: src/mw-exitcode.cpp and src/mw-newlib.cpp.
pub mod ExitCode
pub mod Newlib
mod Tests
