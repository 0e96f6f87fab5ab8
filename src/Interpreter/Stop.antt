-- ===== src/Interpreter/Stop.antt =====
-- `wait_for_stop` and `read_header` (interpreter.cpp): the two operations that run without a command
-- and listen to the signals.
use mw_dbg_runner.Common.{
  ℕ, ◌-◌, Bool, true, false, not, ◌&&◌, Bytes, lit, bytes_eq, List, [], ◌∷◌, ◌++◌, length, take,
  drop, replicate, keep,
}
use mw_dbg_runner.Error.{Result, ok, err, ◌>>=◌, Error}
use mw_dbg_runner.Output.{Entry, empty_entry, AsyncType, exec, AsyncOutput}
use mw_dbg_runner.Output.Boost.{Boost}
use mw_dbg_runner.Output.Pegtl.{Pegtl}
use mw_dbg_runner.Types.Access.{string_at}
use mw_dbg_runner.Interpreter.Session.{Session, Listeners, Pipes}
use mw_dbg_runner.Interpreter.Work.{work_impl}
use mw_dbg_runner.Interpreter.Checks.{no_record}

-- `async_result`
pub record AsyncResult : Type 0 where
  pub reason : Bytes
  pub content : List Entry

abbrev pub no_stop : AsyncResult
no_stop = record { reason = []; content = [] }

abbrev pub not_reason : Entry → Bool
not_reason e = not (bytes_eq e.variable (lit "reason"))

-- `std::vector::resize`
unfoldable pub resize : ℕ → List Entry → List Entry
resize n es = take n es ++ replicate (n - length es) empty_entry

-- Writing a range over the beginning of a vector.
unfoldable pub overwrite : List Entry → List Entry → List Entry
overwrite new old = new ++ drop (length new) old

abbrev is_exec : AsyncType → Bool
is_exec exec = true
is_exec _ = false

-- The content is resized to one less than the results, and the results other than the reason are
-- copied over it.
unfoldable pub record_stop : List Entry → AsyncResult → Result AsyncResult
record_stop results pr = do
  reason ← string_at results (lit "reason")
  ok (record {
    reason = reason;
    content =
        overwrite (keep not_reason results) (resize (length results - 1) (AsyncResult.content pr));
  })

-- The function that `wait_for_stop` connects.
unfoldable pub stop_listener : AsyncOutput → AsyncResult → Result AsyncResult
stop_listener ao pr = elim (is_exec ao.type && bytes_eq ao.class_ (lit "stopped")) [
  | true ↦ record_stop ao.results pr
  | false ↦ ok pr
]

module _ {S A : Type 0} where
  -- A session in which one more function is connected, with what it keeps.
  abbrev pub attach : A → Session S → Session (S × A)
  attach a st = record {
    listener = (st.listener, a);
    in_buf = st.in_buf;
    out_buf = st.out_buf;
    fwd = st.fwd;
    debug = st.debug;
    token_gen = st.token_gen;
    pending_asyncs = st.pending_asyncs;
    last_var_name = st.last_var_name;
  }

  abbrev pub detach : Session (S × A) → Session S
  detach st = record {
    listener = st.listener.0;
    in_buf = st.in_buf;
    out_buf = st.out_buf;
    fwd = st.fwd;
    debug = st.debug;
    token_gen = st.token_gen;
    pending_asyncs = st.pending_asyncs;
    last_var_name = st.last_var_name;
  }

  abbrev pub beside : {B : Type 0} → (B → S → Result S) → B → S × A → Result (S × A)
  beside f x (s, a) = do s' ← f x s; ok (s', a)

  -- The functions connected before, with the state of a command left alone.
  abbrev pub widen : Listeners S → Listeners (S × A)
  widen l = record {
    on_console = beside l.on_console;
    on_log = beside l.on_log;
    on_async = beside l.on_async;
  }

  abbrev pub then_own :
      {B : Type 0} → (B → S → Result S) → (B → A → Result A) → B → S × A → Result (S × A)
  then_own f g x (s, a) = do s' ← f x s; a' ← g x a; ok (s', a')

  -- The answer of a finished run: what the command kept.
  abbrev pub answer :
      (io : Pipes)
      → Result (Unit {0}) × (Session (S × A) × Pipes.Process io)
      → Result A × (Session S × Pipes.Process io)
  answer io (ok _, (st, proc)) = (ok st.listener.1, (detach st, proc))
  answer io (err e, (st, proc)) = (err e, (detach st, proc))

-- `value += str; value += '\n';`
abbrev pub header_listener : Bytes → Bytes → Result Bytes
header_listener str value = ok (value ++ str ++ 10 ∷ [])

module _ (p : Pegtl) (b : Boost) (what : Error → Bytes) (io : Pipes) {S : Type 0}
    (l : Listeners S) where
  unfoldable pub wait_for_stop :
      Session S → Pipes.Process io → Result AsyncResult × (Session S × Pipes.Process io)
  wait_for_stop st proc =
      let listen = record (widen l) { on_async = then_own l.on_async stop_listener } in
      answer io (
        work_impl p b what listen no_record false io (attach no_stop (record st { in_buf = [] }))
          proc)

  unfoldable pub read_header :
      Session S → Pipes.Process io → Result Bytes × (Session S × Pipes.Process io)
  read_header st proc =
      let listen = record (widen l) { on_console = then_own l.on_console header_listener } in
      answer io
        (work_impl p b what listen no_record false io (attach [] (record st { in_buf = [] })) proc)
