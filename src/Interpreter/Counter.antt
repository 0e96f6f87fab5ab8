-- ===== src/Interpreter/Counter.antt =====
-- What a reply leaves alone in the interpreter (interpreter.cpp: `_work_impl`): its input, its flag and
-- its counter of tokens; and what a command does to the counter.
use mw_dbg_runner.Common.{
  List, ℕ, zero, suc, ◌≡◌, refl, ◌∙◌, Bool, true, false, Bytes, Option, none, some, length, [], ◌∷◌,
  ◌++◌, ◌+◌, ◌⊎◌, not, ◌&&◌, Bool-cases, inl, inr,
}
use mw_dbg_runner.Error.{Result, ok, err, Error, interpreter_error}
use mw_dbg_runner.Output.{StreamType, console, target, log, StreamRecord, AsyncOutput, ResultOutput}
use mw_dbg_runner.Output.Boost.{Boost}
use mw_dbg_runner.Output.Pegtl.{Pegtl}
use mw_dbg_runner.Output.Grammar.Records.{Line, parse_async_output, parse_record}
use mw_dbg_runner.Interpreter.Session.{
  Pending, Session, Listeners, Handler, Pipes, set_out, set_name, getline, forward,
}
use mw_dbg_runner.Interpreter.Sinks.{
  settle, stream_to, handle_stream_output, handle_async_output, deliver, delivered,
}
use mw_dbg_runner.Interpreter.Work.{
  prompt, on_record, on_async, on_stream, on_line, next, round, read_lines, skip_round, skip_lines,
  interrupted, conclude, run_lines, echo, work_impl, banner, is_empty, after_read, after_write,
}

abbrev pub Kept : Type 0
Kept = Bytes × (Bool × ℕ)

abbrev pub kept : {S : Type 0} → Session S → Kept
kept st = (st.in_buf, (st.debug, st.token_gen))

-- What a step leaves of it.
abbrev kept_by : {A S : Type 0} → A × Session S → Kept
kept_by (_, st) = kept st

settle-kept :
    {S : Type 0} (r : Bool) (st : Session S) (x : Result S) → kept_by (settle r st x) ≡ kept st
settle-kept r st (ok s) = refl
settle-kept r st (err e) = refl

echo-kept :
    {S : Type 0} (d : Bool) (line : Bytes) (st : Session S) → kept (echo d line st) ≡ kept st
echo-kept true line st = refl
echo-kept false line st = refl

write_cases : {P : Type 0} (o : Option P) → (o ≡ none) ⊎ ((proc : P) × (o ≡ some proc))
write_cases none = inl refl
write_cases (some proc) = inr (proc, refl)

module _ {S : Type 0} (l : Listeners S) where
  stream_to-kept :
      (t : StreamType) (s : Bytes) (st : Session S) → kept_by (stream_to l t s st) ≡ kept st
  stream_to-kept console s st = settle-kept false st _
  stream_to-kept log s st = settle-kept false st _
  stream_to-kept target s st = refl

  handle_stream_output-kept :
      (sr : StreamRecord) (st : Session S) → kept_by (handle_stream_output l sr st) ≡ kept st
  unfolding handle_stream_output
  handle_stream_output-kept sr st = stream_to-kept sr.type sr.content st

  delivered-kept :
      (line : Bytes) (tk : ℕ) (st : Session S) (x : Result (ℕ × List Pending))
      → kept_by (delivered l line tk st x) ≡ kept st
  delivered-kept line tk st (ok (zero, rest)) = refl
  delivered-kept line tk st (ok (suc cnt, rest)) = refl
  delivered-kept line tk st (err e) = refl

  handle_async_output-kept :
      (line : Bytes) (tk : Option ℕ) (ao : AsyncOutput) (st : Session S)
      → kept_by (handle_async_output l line tk ao st) ≡ kept st
  unfolding handle_async_output
  handle_async_output-kept line none ao st = settle-kept false st _
  handle_async_output-kept line (some tk) ao st =
      delivered-kept line tk st (deliver tk ao st.pending_asyncs)

  module _ (p : Pegtl) (b : Boost) (what : Error → Bytes) (h : Handler S) where
    on_record-kept :
        (line : Bytes) (st : Session S) (o : Result (Option (Line ResultOutput)) × Bytes)
        → kept_by (on_record p b what l h line st o) ≡ kept st
    on_record-kept line st (ok (some r), n) = settle-kept true (set_name n st) _
    on_record-kept line st (ok none, n) = elim (Bool-cases st.debug) [
      | inl e ↦ rw e refl
      | inr e ↦ rw e refl
    ]
    on_record-kept line st (err e, n) = refl

    on_async-kept :
        (line : Bytes) (st : Session S) (o : Result (Option (Line AsyncOutput)) × Bytes)
        → kept_by (on_async p b what l h line st o) ≡ kept st
    on_async-kept line st (ok (some a), n) =
        handle_async_output-kept line (Line.token a) (Line.object a) (set_name n st)
    on_async-kept line st (ok none, n) =
        on_record-kept line (set_name n st) (parse_record p b n line)
    on_async-kept line st (err e, n) = refl

    on_stream-kept :
        (line : Bytes) (st : Session S) (o : Result (Option StreamRecord) × Bytes)
        → kept_by (on_stream p b what l h line st o) ≡ kept st
    on_stream-kept line st (ok (some d), n) = handle_stream_output-kept d (set_name n st)
    on_stream-kept line st (ok none, n) =
        on_async-kept line (set_name n st) (parse_async_output p b n line)
    on_stream-kept line st (err e, n) = refl

    on_line-kept :
        (line : Bytes) (st : Session S) → kept_by (on_line p b what l h line st) ≡ kept st
    unfolding on_line
    on_line-kept line st =
        on_stream-kept line (echo st.debug line st) _ ∙ echo-kept st.debug line st

    next-kept :
        (go : Bool → Session S → Result Bool × Session S) (received : Bool)
        (x : Result Bool × Session S)
        → ((r : Bool) (st : Session S) → kept_by (go r st) ≡ kept st)
        → kept_by (next p b what l h go received x) ≡ kept_by x
    next-kept go received (ok now, st) ih = ih _ st
    next-kept go received (err e, st) ih = refl

    round-kept :
        (go : Bool → Session S → Result Bool × Session S) (received : Bool) (st : Session S)
        (o : Option (Bytes × Bytes))
        → ((r : Bool) (st : Session S) → kept_by (go r st) ≡ kept st)
        → kept_by (round p b what l h go received st o) ≡ kept st
    round-kept go received st none ih = refl
    round-kept go received st (some (line, rest)) ih =
        elim (Bool-cases (b.starts_with line prompt)) [
          | inl e ↦ rw (round, e) refl
          | inr e ↦ rw (round, e) (next-kept go received _ ih ∙ on_line-kept line (set_out rest st))
        ]

    read_lines-kept :
        (k : ℕ) (received : Bool) (st : Session S)
        → kept_by (read_lines p b what l h k received st) ≡ kept st
    unfolding read_lines
    read_lines-kept zero received st = refl
    read_lines-kept (suc k) received st =
        round-kept (read_lines p b what l h k) received st (getline st.out_buf) (read_lines-kept k)

    skip_round-kept :
        (go : Session S → Session S) (st : Session S) (o : Option (Bytes × Bytes))
        → ((st : Session S) → kept (go st) ≡ kept st)
        → kept (skip_round p b what go st o) ≡ kept st
    skip_round-kept go st none ih = refl
    skip_round-kept go st (some (line, rest)) ih = elim (Bool-cases (b.starts_with line prompt)) [
      | inl e ↦ rw (skip_round, e) refl
      | inr e ↦ rw (skip_round, e) (ih _)
    ]

    skip_lines-kept : (k : ℕ) (st : Session S) → kept (skip_lines p b what k st) ≡ kept st
    unfolding skip_lines
    skip_lines-kept zero st = refl
    skip_lines-kept (suc k) st =
        skip_round-kept (skip_lines p b what k) st (getline st.out_buf) (skip_lines-kept k)

    interrupted-kept : (e : Error) (st : Session S) → kept_by (interrupted p b what e st) ≡ kept st
    unfolding interrupted
    interrupted-kept e st =
        skip_lines-kept (length st.out_buf + 1) (forward (banner ++ what e ++ 10 ∷ []) st)

    conclude-kept :
        (needs : Bool) (x : Result Bool × Session S)
        → kept_by (conclude p b what needs x) ≡ kept_by x
    unfolding conclude
    conclude-kept true (ok true, st) = refl
    conclude-kept true (ok false, st) = interrupted-kept interpreter_error st
    conclude-kept false (ok r, st) = refl
    conclude-kept needs (err e, st) = interrupted-kept e st

    run_lines-kept :
        (needs : Bool) (st : Session S) → kept_by (run_lines p b what l h needs st) ≡ kept st
    unfolding run_lines
    run_lines-kept needs st =
        conclude-kept needs (read_lines p b what l h (length st.out_buf + 1) false st)
        ∙ read_lines-kept (length st.out_buf + 1) false st

    module _ (needs : Bool) (io : Pipes) where
      after_read-kept :
          (st : Session S) (met : Bool) (out : Bytes) (proc : Pipes.Process io)
          → kept ((after_read p b what l h needs io st (met, (out, proc))).1.0) ≡ kept st
      after_read-kept st met out proc = elim (Bool-cases (not met && is_empty out)) [
        | inl e ↦ rw (after_read, e) refl
        | inr e ↦ rw (after_read, e) (run_lines-kept needs (set_out out st))
      ]

      after_write-kept :
          (st : Session S) (proc : Pipes.Process io)
          → kept ((after_write p b what l h needs io st proc).1.0) ≡ kept st
      after_write-kept st proc =
          let (met, (out, proc')) = io.read_until prompt st.out_buf proc in
          after_read-kept st met out proc'

      pub work_impl-kept :
          (st : Session S) (proc : Pipes.Process io)
          → kept ((work_impl p b what l h needs io st proc).1.0) ≡ kept st
      unfolding work_impl
      work_impl-kept st proc = elim (Bool-cases (is_empty st.in_buf)) [
        | inl e ↦ rw (work_impl, e) (after_write-kept st proc)
        | inr e ↦ elim (write_cases (io.write st.in_buf proc)) [
          | inl n ↦ rw (work_impl, e, n) refl
          | inr (proc', w) ↦
              rw (work_impl, e, w)
                (after_write-kept (echo st.debug st.in_buf st) proc'
                  ∙ echo-kept st.debug st.in_buf st)
        ]
      ]
