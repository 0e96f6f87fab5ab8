-- ===== src/Interpreter/Ending.antt =====
-- `_work_impl` (interpreter.cpp) comes to an end: the loop over the lines has fuel for every buffer.
use mw_dbg_runner.Common.{
  List, [], ◌∷◌, ◌++◌, ℕ, zero, suc, ◌+◌, ◌<◌, ◌≡◌, ◌≢◌, refl, arith, Bool, true, false, Bytes,
  length, Option, none, some, Bool-cases, inl, inr, ◌==◌,
}
use mw_dbg_runner.Error.{Result, ok, err, Error, out_of_fuel}
use mw_dbg_runner.Output.{StreamType, console, target, log, StreamRecord, AsyncOutput, ResultOutput}
use mw_dbg_runner.Output.Boost.{Boost}
use mw_dbg_runner.Output.Pegtl.{Pegtl, Outcome, matched, failed, raised}
use mw_dbg_runner.Output.Pegtl.Consumption
use mw_dbg_runner.Output.Pegtl.Consumption.{Keeps, Keeps-of_Consumes}
use mw_dbg_runner.Output.Pegtl.Quiet
use mw_dbg_runner.Output.Pegtl.Quiet.{Quiet, QuietBelow}
use mw_dbg_runner.Output.Grammar.{State}
use mw_dbg_runner.Output.Grammar.Consumption.{member-Quiet, member-Keeps, cstring-Consumes}
use mw_dbg_runner.Output.Grammar.Fuel.{cstring-Quiet}
use mw_dbg_runner.Output.Grammar.Errors.{ThrowsParserError, parse_throws}
use mw_dbg_runner.Output.Grammar.Records.{
  Line, stream_output, stream_record_type, finish, parse_stream_output, parse_async_output,
  parse_record,
}
use mw_dbg_runner.Interpreter.Session.{
  Pending, Session, Listeners, Handler, set_out, set_name, getline, forward,
}
use mw_dbg_runner.Interpreter.Sinks.{
  settle, stream_to, handle_stream_output, handle_async_output, deliver, delivered,
}
use mw_dbg_runner.Interpreter.Work.{
  prompt, on_record, on_async, on_stream, on_line, next, round, read_lines, banner, skip_round,
  skip_lines, interrupted, conclude, run_lines, echo,
}
use mw_dbg_runner.Interpreter.Lines.{getline-shorter}
use mw_dbg_runner.Interpreter.Loop.{out_of, on_line-out}

-- The result is not for want of fuel.
abbrev pub Ended : {A : Type 0} → Result A → Type 0
Ended r = r ≢ err out_of_fuel

ok-Ended : {A : Type 0} (a : A) → Ended (ok a)
ok-Ended a h = cc

parser_error-Ended : {A : Type 0} (r : Result A) → ThrowsParserError r → Ended r
parser_error-Ended (ok a) h e = cc
parser_error-Ended (err x) h e = cc

module _ (p : Pegtl) (b : Boost) where
  stream_output-Quiet : (n : ℕ) → QuietBelow n (stream_output p b)
  unfolding stream_output stream_record_type
  stream_output-Quiet n =
      Quiet.seq-Quiet p n _ _
        (member-Quiet _ _ _ n (Quiet.act-Quiet p n _ _ (Quiet.one-Quiet p n _)))
        (member-Keeps _ _ _
          (Consumption.act-Keeps p _ _ (Keeps-of_Consumes _ (Consumption.one-Consumes p _))))
        (Quiet.seq-Quiet p n _ _ (member-Quiet _ _ _ n (cstring-Quiet p b n))
          (member-Keeps _ _ _ (Keeps-of_Consumes _ (cstring-Consumes p b)))
          (Quiet.opt-Quiet p n _ (
            Quiet.seq-Quiet p n _ _ (Quiet.one-Quiet p n _)
              (Keeps-of_Consumes _ (Consumption.one-Consumes p _)) (Quiet.eof-Quiet p n))))

  finish-Ended :
      {T A : Type 0} (get : T → A) (n : Bytes) (o : Outcome (State T))
      → Quiet o
      → Ended (finish p b get n o).0
  finish-Ended get n (matched (t, n') r) h = ok-Ended _
  finish-Ended get n (failed (t, n')) h = ok-Ended _
  finish-Ended get n (raised e) h = absurd h

  parse_stream_output-Ended : (n i : Bytes) → Ended (parse_stream_output p b n i).0
  unfolding parse_stream_output
  parse_stream_output-Ended n i =
      finish-Ended _ n _ (stream_output-Quiet (length i + 1) _ i (omega arith))

-- The functions of the caller do not make up that error.
abbrev pub ListenersEnd : {S : Type 0} → Listeners S → Type 0
ListenersEnd {S} l =
    ((x : Bytes) (s : S) → Ended (l.on_console x s))
    × ((x : Bytes) (s : S) → Ended (l.on_log x s))
    × ((x : AsyncOutput) (s : S) → Ended (l.on_async x s))

abbrev pub HandlerEnds : {S : Type 0} → Handler S → Type 0
HandlerEnds {S} h =
    (line : Bytes) (tk : Option ℕ) (sr : ResultOutput) (s : S) → Ended (h line tk sr s)

settle-Ended :
    {S : Type 0} (r : Bool) (st : Session S) (x : Result S) → Ended x → Ended (settle r st x).0
settle-Ended r st (ok s) h = ok-Ended r
settle-Ended r st (err e) h = λ q. h cc

deliver-Ended : (tk : ℕ) (ao : AsyncOutput) (ps : List Pending) → Ended (deliver tk ao ps)
unfolding deliver
deliver-Ended tk ao [] = λ q. cc
deliver-Ended tk ao ((t, f) ∷ ps) = elim (Bool-cases (t == tk)) [
  | inl e ↦ elim (Bool-cases (f ao)) [ inl d ↦ rw (e, d) (λ q. cc) | inr d ↦ rw (e, d) (λ q. cc) ]
  | inr e ↦ rw e (λ q. cc)
]

-- The loop of the exception handler without fuel: it takes lines until there is none, or up to the line
-- of the prompt, and forwards the others.
pub data Skips (b : Boost) {S : Type 0} : Session S → Session S → Type 0 where
  at_end : {st : Session S} → getline st.out_buf ≡ none → Skips b st st
  at_prompt :
      {st : Session S} {line rest : Bytes}
      → getline st.out_buf ≡ some (line, rest)
      → b.starts_with line prompt ≡ true
      → Skips b st (set_out rest st)
  past :
      {st st' : Session S} {line rest : Bytes}
      → getline st.out_buf ≡ some (line, rest)
      → b.starts_with line prompt ≡ false
      → Skips b (forward line (set_out rest st)) st'
      → Skips b st st'

module _ (p : Pegtl) (b : Boost) (what : Error → Bytes) {S : Type 0} where
  skip_round-Skips :
      (k : ℕ) (st : Session S) (o : Option (Bytes × Bytes))
      → length st.out_buf < suc k
      → getline st.out_buf ≡ o
      → ((st' : Session S) → length st'.out_buf < k → Skips b st' (skip_lines p b what k st'))
      → Skips b st (skip_round p b what (skip_lines p b what k) st o)
  skip_round-Skips k st none lt e ih = at_end e
  skip_round-Skips k st (some (line, rest)) lt e ih =
      elim (Bool-cases (b.starts_with line prompt)) [
        | inl q ↦ rw (skip_round, q) (at_prompt e q)
        | inr q ↦
            rw (skip_round, q)
              (past e q (
                ih (forward line (set_out rest st))
                  (omega (arith, getline-shorter st.out_buf line rest e))))
      ]

  skip_lines-Skips :
      (k : ℕ) (st : Session S) → length st.out_buf < k → Skips b st (skip_lines p b what k st)
  unfolding skip_lines
  skip_lines-Skips zero st lt = absurd (omega arith)
  skip_lines-Skips (suc k) st lt =
      skip_round-Skips k st (getline st.out_buf) lt refl (skip_lines-Skips k)

module _ (p : Pegtl) (b : Boost) (what : Error → Bytes) {S : Type 0} (l : Listeners S)
    (h : Handler S) (hl : ListenersEnd l) (hh : HandlerEnds h) where
  stream_to-Ended : (t : StreamType) (s : Bytes) (st : Session S) → Ended (stream_to l t s st).0
  stream_to-Ended console s st = settle-Ended false st _ (hl.0 s st.listener)
  stream_to-Ended log s st = settle-Ended false st _ (hl.1 s st.listener)
  stream_to-Ended target s st = ok-Ended false

  delivered-Ended :
      (line : Bytes) (tk : ℕ) (st : Session S) (x : Result (ℕ × List Pending))
      → Ended x
      → Ended (delivered l line tk st x).0
  delivered-Ended line tk st (ok (zero, rest)) h = λ q. cc
  delivered-Ended line tk st (ok (suc cnt, rest)) h = λ q. cc
  delivered-Ended line tk st (err e) h = λ q. h cc

  handle_async_output-Ended :
      (line : Bytes) (tk : Option ℕ) (ao : AsyncOutput) (st : Session S)
      → Ended (handle_async_output l line tk ao st).0
  unfolding handle_async_output
  handle_async_output-Ended line none ao st = settle-Ended false st _ (hl.2 ao st.listener)
  handle_async_output-Ended line (some tk) ao st =
      delivered-Ended line tk st (deliver tk ao st.pending_asyncs)
        (deliver-Ended tk ao st.pending_asyncs)

  on_record-Ended :
      (line : Bytes) (st : Session S) (o : Result (Option (Line ResultOutput)) × Bytes)
      → Ended o.0
      → Ended (on_record p b what l h line st o).0
  on_record-Ended line st (ok (some r), n) q =
      settle-Ended true (set_name n st) _ (hh line (Line.token r) (Line.object r) st.listener)
  on_record-Ended line st (ok none, n) q = ok-Ended false
  on_record-Ended line st (err e, n) q = λ x. q cc

  on_async-Ended :
      (line : Bytes) (st : Session S) (o : Result (Option (Line AsyncOutput)) × Bytes)
      → Ended o.0
      → Ended (on_async p b what l h line st o).0
  on_async-Ended line st (ok (some a), n) q =
      handle_async_output-Ended line (Line.token a) (Line.object a) (set_name n st)
  on_async-Ended line st (ok none, n) q =
      on_record-Ended line (set_name n st) (parse_record p b n line)
        (parser_error-Ended _ (parse_throws p b n line 0).0)
  on_async-Ended line st (err e, n) q = λ x. q cc

  on_stream-Ended :
      (line : Bytes) (st : Session S) (o : Result (Option StreamRecord) × Bytes)
      → Ended o.0
      → Ended (on_stream p b what l h line st o).0
  unfolding handle_stream_output
  on_stream-Ended line st (ok (some d), n) q = stream_to-Ended d.type d.content (set_name n st)
  on_stream-Ended line st (ok none, n) q =
      on_async-Ended line (set_name n st) (parse_async_output p b n line)
        (parser_error-Ended _ (parse_throws p b n line 0).2)
  on_stream-Ended line st (err e, n) q = λ x. q cc

  on_line-Ended : (line : Bytes) (st : Session S) → Ended (on_line p b what l h line st).0
  unfolding on_line
  on_line-Ended line st =
      on_stream-Ended line (echo st.debug line st) _
        (parse_stream_output-Ended p b st.last_var_name line)

  next-Ended :
      (go : Bool → Session S → Result Bool × Session S) (received : Bool) (k : ℕ)
      → ((r : Bool) (st : Session S) → length st.out_buf < k → Ended (go r st).0)
      → (x : Result Bool × Session S) → Ended x.0
      → length (out_of x) < k
      → Ended (next p b what l h go received x).0
  next-Ended go received k ih (ok now, st) q lt = ih _ st lt
  next-Ended go received k ih (err e, st) q lt = λ x. q cc

  round-Ended :
      (k : ℕ) (received : Bool) (st : Session S) (o : Option (Bytes × Bytes))
      → ((r : Bool) (st' : Session S)
          → length st'.out_buf < k
          → Ended (read_lines p b what l h k r st').0)
      → ((line rest : Bytes) → o ≡ some (line, rest) → length rest < k)
      → Ended (round p b what l h (read_lines p b what l h k) received st o).0
  round-Ended k received st none ih lt = ok-Ended received
  round-Ended k received st (some (line, rest)) ih lt =
      elim (Bool-cases (b.starts_with line prompt)) [
        | inl e ↦ rw (round, e) (ok-Ended received)
        | inr e ↦
            rw (round, e)
              (next-Ended (read_lines p b what l h k) received k ih
                (on_line p b what l h line (set_out rest st)) (on_line-Ended line (set_out rest st))
                (rw (on_line-out l p b what h line (set_out rest st)) (lt line rest refl)))
      ]

  read_lines-Ended :
      (k : ℕ) (received : Bool) (st : Session S)
      → length st.out_buf < k
      → Ended (read_lines p b what l h k received st).0
  unfolding read_lines
  read_lines-Ended zero received st lt = absurd (omega arith)
  read_lines-Ended (suc k) received st lt =
      round-Ended k received st (getline st.out_buf) (read_lines-Ended k)
        λ line rest e. omega (arith, getline-shorter st.out_buf line rest e)

  conclude-Ended :
      (needs : Bool) (x : Result Bool × Session S) → Ended x.0 → Ended (conclude p b what needs x).0
  unfolding conclude interrupted
  conclude-Ended true (ok true, st) q = ok-Ended tt
  conclude-Ended true (ok false, st) q = λ x. cc
  conclude-Ended false (ok r, st) q = ok-Ended tt
  conclude-Ended needs (err e, st) q = λ x. q cc

  -- The exception handler reports, reads on to the line of the prompt or the end of the buffer, and
  -- throws again.
  abbrev pub ReadsOn : Error → Session S → Type 0
  ReadsOn e st =
      (st' : Session S) × Skips b (forward (banner ++ what e ++ 10 ∷ []) st) st'
      × (interrupted p b what e st ≡ (err e, forward (prompt ++ 10 ∷ []) st'))

  interrupted-ReadsOn : (e : Error) (st : Session S) → ReadsOn e st
  unfolding interrupted
  interrupted-ReadsOn e st =
      let reported = forward (banner ++ what e ++ 10 ∷ []) st in
      (
        skip_lines p b what (length st.out_buf + 1) reported,
        skip_lines-Skips p b what (length st.out_buf + 1) reported (omega arith),
        refl,
      )

  -- On every buffer the loop over the lines of a reply comes to an end before its fuel does, provided
  -- that the functions connected and the function of the command do; and so does the exception handler
  -- behind it, whatever was thrown and wherever: it reads on until the line of the prompt or the end of
  -- the buffer, and throws the exception again.
  pub run_lines-Ended :
      (needs : Bool) (st : Session S)
      → Ended (run_lines p b what l h needs st).0 × ((e : Error) (at : Session S) → ReadsOn e at)
  unfolding run_lines
  run_lines-Ended needs st = (
    conclude-Ended needs _ (read_lines-Ended (length st.out_buf + 1) false st (omega arith)),
    interrupted-ReadsOn,
  )
