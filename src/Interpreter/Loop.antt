-- ===== src/Interpreter/Loop.antt =====
-- The buffer after `_work_impl` (interpreter.cpp): the loop and the exception handler stop behind the
-- prompt.
use mw_dbg_runner.Common.{
  ℕ, zero, suc, ◌+◌, ◌<◌, ◌≡◌, refl, sym, subst, ◌∙◌, ap, arith, Bool, true, false, Bytes, List, [],
  ◌∷◌, ◌++◌, length, Option, none, some, All, Bool-cases, inl, inr, ◌⊎◌, has_prefix-append,
}
use mw_dbg_runner.Error.{Result, ok, err, Error, interpreter_error}
use mw_dbg_runner.Output.{StreamType, console, target, log, StreamRecord, AsyncOutput, ResultOutput}
use mw_dbg_runner.Output.Boost.{Boost}
use mw_dbg_runner.Output.Pegtl.{Pegtl}
use mw_dbg_runner.Output.Grammar.Records.{Line, parse_async_output, parse_record}
use mw_dbg_runner.Interpreter.Session.{
  Pending, Session, Listeners, Handler, set_out, set_name, getline,
}
use mw_dbg_runner.Interpreter.Sinks.{
  settle, stream_to, handle_stream_output, handle_async_output, deliver, delivered,
}
use mw_dbg_runner.Interpreter.Work.{
  prompt, on_record, on_async, on_stream, on_line, next, round, read_lines, skip_round, skip_lines,
  interrupted, conclude, run_lines, echo,
}
use mw_dbg_runner.Interpreter.Lines.{
  IsLine, IsReplyLine, reply, getline-prompt, getline-reply, length-reply,
}

-- What a step leaves in the buffer.
abbrev pub out_of : {A S : Type 0} → A × Session S → Bytes
out_of (_, st) = st.out_buf

settle-out :
    {S : Type 0} (r : Bool) (st : Session S) (x : Result S) → out_of (settle r st x) ≡ st.out_buf
settle-out r st (ok s) = refl
settle-out r st (err e) = refl

echo-out :
    {S : Type 0} (d : Bool) (line : Bytes) (st : Session S)
    → Session.out_buf (echo d line st) ≡ st.out_buf
echo-out true line st = refl
echo-out false line st = refl

module _ {S : Type 0} (l : Listeners S) where
  stream_to-out :
      (t : StreamType) (s : Bytes) (st : Session S) → out_of (stream_to l t s st) ≡ st.out_buf
  stream_to-out console s st = settle-out false st _
  stream_to-out log s st = settle-out false st _
  stream_to-out target s st = refl

  handle_stream_output-out :
      (sr : StreamRecord) (st : Session S) → out_of (handle_stream_output l sr st) ≡ st.out_buf
  unfolding handle_stream_output
  handle_stream_output-out sr st = stream_to-out sr.type sr.content st

  delivered-out :
      (line : Bytes) (tk : ℕ) (st : Session S) (x : Result (ℕ × List Pending))
      → out_of (delivered l line tk st x) ≡ st.out_buf
  delivered-out line tk st (ok (zero, rest)) = refl
  delivered-out line tk st (ok (suc cnt, rest)) = refl
  delivered-out line tk st (err e) = refl

  handle_async_output-out :
      (line : Bytes) (tk : Option ℕ) (ao : AsyncOutput) (st : Session S)
      → out_of (handle_async_output l line tk ao st) ≡ st.out_buf
  unfolding handle_async_output
  handle_async_output-out line none ao st = settle-out false st _
  handle_async_output-out line (some tk) ao st =
      delivered-out line tk st (deliver tk ao st.pending_asyncs)

  module _ (p : Pegtl) (b : Boost) (what : Error → Bytes) (h : Handler S) where
    on_record-out :
        (line : Bytes) (st : Session S) (o : Result (Option (Line ResultOutput)) × Bytes)
        → out_of (on_record p b what l h line st o) ≡ st.out_buf
    on_record-out line st (ok (some r), n) = settle-out true (set_name n st) _
    on_record-out line st (ok none, n) = elim (Bool-cases st.debug) [
      | inl e ↦ rw e refl
      | inr e ↦ rw e refl
    ]
    on_record-out line st (err e, n) = refl

    on_async-out :
        (line : Bytes) (st : Session S) (o : Result (Option (Line AsyncOutput)) × Bytes)
        → out_of (on_async p b what l h line st o) ≡ st.out_buf
    on_async-out line st (ok (some a), n) =
        handle_async_output-out line (Line.token a) (Line.object a) (set_name n st)
    on_async-out line st (ok none, n) = on_record-out line (set_name n st) (parse_record p b n line)
    on_async-out line st (err e, n) = refl

    on_stream-out :
        (line : Bytes) (st : Session S) (o : Result (Option StreamRecord) × Bytes)
        → out_of (on_stream p b what l h line st o) ≡ st.out_buf
    on_stream-out line st (ok (some d), n) = handle_stream_output-out d (set_name n st)
    on_stream-out line st (ok none, n) =
        on_async-out line (set_name n st) (parse_async_output p b n line)
    on_stream-out line st (err e, n) = refl

    pub on_line-out :
        (line : Bytes) (st : Session S) → out_of (on_line p b what l h line st) ≡ st.out_buf
    unfolding on_line
    on_line-out line st = on_stream-out line (echo st.debug line st) _ ∙ echo-out st.debug line st

    module _ (after rest : Bytes) (ha : IsLine after) where
      prompt_hit : b.starts_with (prompt ++ after) prompt ≡ true
      prompt_hit = b.starts_with_lem _ _ ∙ has_prefix-append prompt after

      line_miss : (line : Bytes) → IsReplyLine line → b.starts_with line prompt ≡ false
      line_miss line hl = b.starts_with_lem _ _ ∙ hl.1

      -- Some of the reply's lines are left, and the prompt.
      Behind : Session S → Type 0
      Behind st = (ls : List Bytes) × (All IsReplyLine ls) × (st.out_buf ≡ reply ls after rest)

      Ends : Result Bool × Session S → Type 0
      Ends (ok r, st) = st.out_buf ≡ rest
      Ends (err e, st) = Behind st

      stopped : (st : Session S) (received : Bool) → Ends (ok received, set_out rest st)
      unfolding Ends
      stopped st received = refl

      next-Ends :
          (go : Bool → Session S → Result Bool × Session S) (received : Bool) (ls : List Bytes)
          → All IsReplyLine ls
          → ((r : Bool) (st : Session S) → st.out_buf ≡ reply ls after rest → Ends (go r st))
          → (x : Result Bool × Session S) → out_of x ≡ reply ls after rest
          → Ends (next p b what l h go received x)
      unfolding Ends Behind
      next-Ends go received ls hls ih (ok now, st) e = ih _ st e
      next-Ends go received ls hls ih (err x, st) e = (ls, hls, e)

      pub read_lines-prompt :
          (k : ℕ) (received : Bool) (st : Session S)
          → st.out_buf ≡ reply [] after rest
          → read_lines p b what l h (suc k) received st ≡ (ok received, set_out rest st)
      unfolding read_lines
      read_lines-prompt k received st e =
          ap (round p b what l h (read_lines p b what l h k) received st)
            (ap getline e ∙ getline-prompt after rest ha)
          ∙ rw (round, prompt_hit) refl

      pub read_lines-line :
          (k : ℕ) (received : Bool) (line : Bytes) (ls : List Bytes) (st : Session S)
          → IsReplyLine line
          → st.out_buf ≡ reply (line ∷ ls) after rest
          → read_lines p b what l h (suc k) received st
            ≡ next p b what l h
                (read_lines p b what l h k)
                received
                (on_line p b what l h line (set_out (reply ls after rest) st))
      unfolding read_lines
      read_lines-line k received line ls st hl e =
          ap (round p b what l h (read_lines p b what l h k) received st)
            (ap getline e ∙ getline-reply line ls after rest hl.0)
          ∙ rw (round, line_miss line hl) refl

      read_lines-Ends :
          (k : ℕ) (received : Bool) (ls : List Bytes) (st : Session S)
          → All IsReplyLine ls
          → length ls < k
          → st.out_buf ≡ reply ls after rest
          → Ends (read_lines p b what l h k received st)
      read_lines-Ends zero received ls st hls lt e = absurd (omega arith)
      read_lines-Ends (suc k) received [] st hls lt e =
          subst Ends (sym (read_lines-prompt k received st e)) (stopped st received)
      read_lines-Ends (suc k) received (line ∷ ls) st hls lt e =
          subst Ends (sym (read_lines-line k received line ls st hls.0 e)) (
            next-Ends _ received ls hls.1
              (λ r st' e'. read_lines-Ends k r ls st' hls.1 (omega arith) e') _
              (on_line-out line _))

      skip_lines-out :
          (k : ℕ) (ls : List Bytes) (st : Session S)
          → All IsReplyLine ls
          → length ls < k
          → st.out_buf ≡ reply ls after rest
          → Session.out_buf (skip_lines p b what k st) ≡ rest
      unfolding skip_lines
      skip_lines-out zero ls st hls lt e = absurd (omega arith)
      skip_lines-out (suc k) [] st hls lt e =
          ap (λ o. Session.out_buf (skip_round p b what (skip_lines p b what k) st o))
            (ap getline e ∙ getline-prompt after rest ha)
          ∙ rw (skip_round, prompt_hit) refl
      skip_lines-out (suc k) (line ∷ ls) st hls lt e =
          ap (λ o. Session.out_buf (skip_round p b what (skip_lines p b what k) st o))
            (ap getline e ∙ getline-reply line ls after rest hls.0.0)
          ∙ rw (skip_round, line_miss line hls.0) (skip_lines-out k ls _ hls.1 (omega arith) refl)

      interrupted-out :
          (e : Error) (st : Session S) → Behind st → out_of (interrupted p b what e st) ≡ rest
      unfolding interrupted Behind
      interrupted-out e st (ls, hls, eq) =
          skip_lines-out (length st.out_buf + 1) ls _ hls
            (rw eq (omega (arith, length-reply ls after rest))) eq

      conclude-out :
          (needs : Bool) (x : Result Bool × Session S)
          → Ends x
          → (out_of (conclude p b what needs x) ≡ rest)
            ⊎ ((conclude p b what needs x).0 ≡ err interpreter_error)
      unfolding conclude Ends interrupted
      conclude-out true (ok true, st) h = inl h
      conclude-out true (ok false, st) h = inr refl
      conclude-out false (ok r, st) h = inl h
      conclude-out needs (err e, st) h = inl (interrupted-out e st h)

    -- For a buffer of reply lines (none begins with the prompt), the line of the prompt and a rest:
    -- whatever the functions connected and the command do with the lines, and whether a line throws or
    -- not, the buffer is left at that rest, or the result is an `interpreter_error`, as it is for a
    -- missing record, after which reading goes on.
    pub run_lines-out :
        (needs : Bool) (ls : List Bytes) (after rest : Bytes) (st : Session S)
        → IsLine after
        → All IsReplyLine ls
        → st.out_buf ≡ reply ls after rest
        → (out_of (run_lines p b what l h needs st) ≡ rest)
          ⊎ ((run_lines p b what l h needs st).0 ≡ err interpreter_error)
    unfolding run_lines
    run_lines-out needs ls after rest st ha hls e = conclude-out after rest ha needs _ (
        read_lines-Ends after rest ha _ false ls st hls
          (rw e (omega (arith, length-reply ls after rest))) e)
