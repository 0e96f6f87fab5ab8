-- ===== src/Interpreter/Work.antt =====
-- `interpreter::_work_impl`: the input is written, the reply read up to the prompt, and each line of
-- it handed to the parser and on.
use mw_dbg_runner.Common.{
  ℕ, zero, suc, ◌+◌, Bool, true, false, not, ◌&&◌, ◌||◌, Bytes, codes, [], ◌∷◌, ◌++◌, Option, none,
  some, if◌then◌else◌, length,
}
use mw_dbg_runner.Error.{Result, ok, err, Error, interpreter_error, system_error, out_of_fuel}
use mw_dbg_runner.Output.{StreamRecord, AsyncOutput, ResultOutput}
use mw_dbg_runner.Output.Boost.{Boost}
use mw_dbg_runner.Output.Pegtl.{Pegtl}
use mw_dbg_runner.Output.Grammar.Records.{
  Line, parse_stream_output, parse_async_output, parse_record,
}
use mw_dbg_runner.Interpreter.Session.{
  Session, Listeners, Handler, Pipes, forward, set_out, set_name, getline,
}
use mw_dbg_runner.Interpreter.Sinks.{settle, handle_stream_output, handle_async_output}

-- "(gdb)"
abbrev pub prompt : Bytes
prompt = codes "(gdb)"

abbrev pub is_empty : Bytes → Bool
is_empty [] = true
is_empty (c ∷ s) = false

abbrev pub banner : Bytes
banner = codes "***** Interpreter exception ***** : "

-- `if (_debug) _fwd << line;`
abbrev pub echo : {S : Type 0} → Bool → Bytes → Session S → Session S
echo d line st = if d then forward line st else st

-- `what` gives the text of an exception.
module _ (p : Pegtl) (b : Boost) (what : Error → Bytes) {S : Type 0} where
  module _ (l : Listeners S) (handle_record : Handler S) where
    -- The three attempts at a line, the last first.
    abbrev pub on_record :
        Bytes → Session S → Result (Option (Line ResultOutput)) × Bytes → Result Bool × Session S
    on_record line st (ok (some r), n) =
        settle true (set_name n st) (handle_record line (Line.token r) (Line.object r) st.listener)
    on_record line st (ok none, n) =
        (ok false, (if st.debug then set_name n st else forward (line ++ 10 ∷ []) (set_name n st)))
    on_record line st (err e, n) = (err e, set_name n st)

    abbrev pub on_async :
        Bytes → Session S → Result (Option (Line AsyncOutput)) × Bytes → Result Bool × Session S
    on_async line st (ok (some a), n) =
        handle_async_output l line (Line.token a) (Line.object a) (set_name n st)
    on_async line st (ok none, n) = on_record line (set_name n st) (parse_record p b n line)
    on_async line st (err e, n) = (err e, set_name n st)

    abbrev pub on_stream :
        Bytes → Session S → Result (Option StreamRecord) × Bytes → Result Bool × Session S
    on_stream line st (ok (some d), n) = handle_stream_output l d (set_name n st)
    on_stream line st (ok none, n) = on_async line (set_name n st) (parse_async_output p b n line)
    on_stream line st (err e, n) = (err e, set_name n st)

    -- One round of the loop. The result says whether the line was a record.
    unfoldable pub on_line : Bytes → Session S → Result Bool × Session S
    on_line line st =
        on_stream line (echo st.debug line st) (parse_stream_output p b st.last_var_name line)

    abbrev pub next :
        (Bool → Session S → Result Bool × Session S)
        → Bool
        → Result Bool × Session S
        → Result Bool × Session S
    next go received (ok now, st) = go (received || now) st
    next go received (err e, st) = (err e, st)

    abbrev pub round :
        (Bool → Session S → Result Bool × Session S)
        → Bool
        → Session S
        → Option (Bytes × Bytes)
        → Result Bool × Session S
    round go received st none = (ok received, st)
    round go received st (some (line, rest)) = elim (b.starts_with line prompt) [
      | true ↦ (ok received, set_out rest st)
      | false ↦ next go received (on_line line (set_out rest st))
    ]

    -- The loop, on fuel.
    unfoldable pub read_lines : ℕ → Bool → Session S → Result Bool × Session S
    read_lines zero received st = (err out_of_fuel, st)
    read_lines (suc k) received st = round (read_lines k) received st (getline st.out_buf)

  abbrev pub skip_round : (Session S → Session S) → Session S → Option (Bytes × Bytes) → Session S
  skip_round go st none = st
  skip_round go st (some (line, rest)) = elim (b.starts_with line prompt) [
    | true ↦ set_out rest st
    | false ↦ go (forward line (set_out rest st))
  ]

  -- The loop of the exception handler.
  unfoldable pub skip_lines : ℕ → Session S → Session S
  skip_lines zero st = st
  skip_lines (suc k) st = skip_round (skip_lines k) st (getline st.out_buf)

  -- The exception handler: it reports, reads on to the prompt, and throws again.
  unfoldable pub interrupted : Error → Session S → Result (Unit {0}) × Session S
  interrupted e st =
      let reported = forward (banner ++ what e ++ 10 ∷ []) st in
      let skipped = skip_lines (length st.out_buf + 1) reported in
      (err e, forward (prompt ++ 10 ∷ []) skipped)

  -- The end of the loop: a command that needs a record must have received one.
  unfoldable pub conclude : Bool → Result Bool × Session S → Result (Unit {0}) × Session S
  conclude needs (ok received, st) =
      if needs && not received then interrupted interpreter_error st else (ok tt, st)
  conclude needs (err e, st) = interrupted e st

  module _ (l : Listeners S) (handle_record : Handler S) (needs : Bool) where
    -- What follows the reading of a reply.
    unfoldable pub run_lines : Session S → Result (Unit {0}) × Session S
    run_lines st = conclude needs (read_lines l handle_record (length st.out_buf + 1) false st)

    module _ (io : Pipes) where
      abbrev pub Reply : Type 0
      Reply = Result (Unit {0}) × (Session S × Pipes.Process io)

      abbrev pub with_process : Pipes.Process io → Result (Unit {0}) × Session S → Reply
      with_process proc (r, st) = (r, (st, proc))

      -- A failed read is ignored unless the buffer is empty.
      abbrev pub after_read : Session S → Bool × (Bytes × Pipes.Process io) → Reply
      after_read st (met, (out, proc)) =
          if not met && is_empty out
          then (err system_error, (set_out out st, proc))
          else with_process proc (run_lines (set_out out st))

      abbrev pub after_write : Session S → Pipes.Process io → Reply
      after_write st proc = after_read st (io.read_until prompt st.out_buf proc)

      unfoldable pub work_impl : Session S → Pipes.Process io → Reply
      work_impl st proc = elim (is_empty st.in_buf) [
        | true ↦ after_write st proc
        | false ↦ elim (io.write st.in_buf proc) [
          | none ↦ (err system_error, (st, proc))
          | some proc' ↦ after_write (if st.debug then forward st.in_buf st else st) proc'
        ]
      ]
