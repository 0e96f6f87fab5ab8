-- ===== src/Gdb/Samples.antt =====
-- A run for the tests: a session with a debugger that takes no command.
use mw_dbg_runner.Common.{true, false, Bytes, [], ◌∷◌, none, some, pos}
use mw_dbg_runner.Error.{ok, Error}
use mw_dbg_runner.Interpreter.Session.{Session, Listeners, Pipes}
use mw_dbg_runner.Gdb.State.{World, Host}

abbrev pub silent : Listeners (Unit {0})
silent = record { on_console = λ _ s. ok s; on_log = λ _ s. ok s; on_async = λ _ s. ok s }

abbrev pub closed : Pipes
closed = record { Process = Bytes; write = λ _ p. none; read_until = λ _ _ p. (false, (p, [])) }

-- A debugger that takes every text and has one reply.
abbrev pub one_reply : Pipes
one_reply = record { Process = Bytes; write = λ _ p. some p; read_until = λ _ _ p. (true, (p, [])) }

abbrev pub no_text : Error → Bytes
no_text _ = []

abbrev pub as_is : Bytes → Bytes → Bytes
as_is _ s = s

abbrev pub session : Session (Unit {0})
session = record {
  listener = tt;
  in_buf = [];
  out_buf = [];
  fwd = [];
  debug = false;
  token_gen = 4;
  pending_asyncs = [];
  last_var_name = [];
}

abbrev pub host : Host (Unit {0})
host = record { exited = false; exit_code = pos 0; break_point_map = (pos 1, 0) ∷ []; kept = tt }

abbrev pub world : World closed (Unit {0}) (Unit {0})
world = (session, ([], host))
