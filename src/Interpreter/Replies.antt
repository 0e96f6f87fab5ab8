-- ===== src/Interpreter/Replies.antt =====
-- Replies of gdb that the loop over the lines takes as they are meant: notices without a token, and
-- the answer to the command (src/mw/gdb/mi2/interpreter.cpp, `_work_impl`).
use mw_dbg_runner.Common.{
  ℕ, ◌<◌, ◌≤◌, ◌≡◌, refl, ◌∙◌, ap, arith, Bool, true, false, Bytes, codes, List, [], ◌∷◌, ◌++◌,
  none, some, All, has_prefix,
}
use mw_dbg_runner.Error.{
  ResultClass, done, running, connected, error, exit, Result, ok, Error, ◌>>=◌,
}
use mw_dbg_runner.Numbers.{decimal, to_string, u64_mod}
use mw_dbg_runner.Numbers.RoundTrip.{to_string-cons, to_string-digits}
use mw_dbg_runner.Output.{Value, Results, AsyncOutput, ResultOutput}
use mw_dbg_runner.Output.Boost.{Boost}
use mw_dbg_runner.Output.Pegtl.{Pegtl, one_of}
use mw_dbg_runner.Output.Syntax.{ArePlain, IsName, IsPlain}
use mw_dbg_runner.Output.Grammar.Records.{parse_stream_output, parse_async_output, parse_record}
use mw_dbg_runner.Output.RoundTrip.Lines.{IsClass, IsAsyncChar, show_async, async_of, line_end}
use mw_dbg_runner.Output.RoundTrip.Async.{parse_async_output-line}
use mw_dbg_runner.Output.RoundTrip.Answers.{class_text, show_answer, parse_record-show_answer}
use mw_dbg_runner.Output.RoundTrip.Misses.{parse_stream_output-miss, parse_async_output-miss}
use mw_dbg_runner.Output.RoundTrip.Reports.{
  show_result, show_report, report_of, parse_record-show_report,
}
use mw_dbg_runner.Interpreter.Session.{Session, Pending, Listeners, Handler, set_name, set_listener}
use mw_dbg_runner.Interpreter.Sinks.{settle, handle_async_output}
use mw_dbg_runner.Interpreter.Work.{echo, on_line, on_stream, on_async, on_record}
use mw_dbg_runner.Interpreter.Lines.{IsLine, no_newline-IsLine, IsReplyLine}

-- What a caller sees of a session: what the functions keep, the buffer, the counter, and who waits.
abbrev pub View : Type 0 → Type 0
View S = S × (Bytes × (ℕ × List Pending))

abbrev pub view : {S : Type 0} → Session S → View S
view st = (st.listener, (st.out_buf, (st.token_gen, st.pending_asyncs)))

pub view-echo :
    {S : Type 0} (d : Bool) (line : Bytes) (st : Session S) → view (echo d line st) ≡ view st
view-echo true line st = refl
view-echo false line st = refl

-- A notice: the character of its type, its class, its results, and whether a carriage return ends it.
pub record Notice : Type 0 where
  pub sign : ℕ
  pub class_ : Bytes
  pub results : Results
  pub carriage : Bool

module _ (p : Pegtl) (b : Boost) where
  abbrev pub notice_text : Notice → Bytes
  notice_text a = show_async p b a.sign a.class_ a.results a.carriage

  abbrev pub output_of : Notice → AsyncOutput
  output_of a = async_of p b a.sign a.class_ a.results

  -- gdb can write it, on one line.
  unfoldable pub IsNotice : Notice → Type 0
  IsNotice a =
      IsAsyncChar p b a.sign × IsClass p b a.class_ × ArePlain a.results × IsLine (notice_text a)

  sign_not_stream : (c : ℕ) → IsAsyncChar p b c → one_of (codes "~@&") c ≡ false
  sign_not_stream c h = ground arith

  pub notice-ReplyLine : (a : Notice) → IsNotice a → IsReplyLine (notice_text a)
  unfolding IsNotice has_prefix
  notice-ReplyLine a (sign, _, _, line) = (line, ground arith)

  digit-IsLine : (s : Bytes) → All (λ c. (b'0' ≤ c) × (c ≤ b'9')) s → IsLine s
  digit-IsLine [] h = tt
  digit-IsLine (c ∷ s) (h, hs) = ((λ e. absurd (omega arith)), digit-IsLine s hs)

  append-IsLine : (s t : Bytes) → IsLine s → IsLine t → IsLine (s ++ t)
  append-IsLine [] t h k = k
  append-IsLine (c ∷ s) t (h, hs) k = (h, append-IsLine s t hs k)

  line_end-IsLine : (cr : Bool) → IsLine (line_end cr)
  line_end-IsLine true = no_newline-IsLine (line_end true) refl
  line_end-IsLine false = tt

  class_text-IsLine : (k : ResultClass) → IsLine (class_text k)
  unfolding class_text
  class_text-IsLine done = no_newline-IsLine (codes "done") refl
  class_text-IsLine running = no_newline-IsLine (codes "running") refl
  class_text-IsLine connected = no_newline-IsLine (codes "connected") refl
  class_text-IsLine error = no_newline-IsLine (codes "error") refl
  class_text-IsLine exit = no_newline-IsLine (codes "exit") refl

  class-IsLine : (k : ResultClass) (cr : Bool) → IsLine (class_text k ++ line_end cr)
  class-IsLine k cr = append-IsLine _ _ (class_text-IsLine k) (line_end-IsLine cr)

  caret-ReplyLine : (tk : ℕ) (i : Bytes) → IsLine i → IsReplyLine (to_string decimal tk ++ b'^' ∷ i)
  unfolding has_prefix
  caret-ReplyLine tk i h =
      let (d, t, shown) = to_string-cons tk in
      let all = to_string-digits tk in
      let digits = rw shown at all in
      (
        append-IsLine _ _ (digit-IsLine _ (to_string-digits tk)) ((λ e. absurd (omega arith)), h),
        rw shown (let (lo, hi) = digits.0 in ground arith),
      )

  caret_not_stream :
      (tk : ℕ) (i n : Bytes)
      → parse_stream_output p b n (to_string decimal tk ++ b'^' ∷ i) ≡ (ok none, n)
  caret_not_stream tk i n =
      let (d, t, shown) = to_string-cons tk in
      let all = to_string-digits tk in
      let digits = rw shown at all in
      rw shown (let (lo, hi) = digits.0 in parse_stream_output-miss p b d _ n (ground arith))

  -- A line of a reply that is a record with a token, and nothing else, whatever the last variable name.
  unfoldable pub IsAnswer : Bytes → ℕ → ResultOutput → Type 0
  IsAnswer line tk sr =
      IsReplyLine line
      × ((n : Bytes)
          → (parse_stream_output p b n line ≡ (ok none, n))
            × (parse_async_output p b n line ≡ (ok none, n))
            × ((n' : Bytes) × (parse_record p b n line
                  ≡ (ok (some (record { token = some tk; object = sr })), n'))))

  -- A record without results.
  pub show_answer-IsAnswer :
      (tk : ℕ) (k : ResultClass) (cr : Bool)
      → tk < u64_mod
      → IsAnswer (show_answer p b (some tk) k cr) tk (record { class_ = k; results = [] })
  unfolding IsAnswer
  show_answer-IsAnswer tk k cr fits = (
    caret-ReplyLine tk _ (class-IsLine k cr),
    λ n. (
      caret_not_stream tk _ n,
      parse_async_output-miss p b tk _ n fits,
      (n, parse_record-show_answer p b (some tk) k cr n fits),
    ),
  )

  -- A record with one result.
  pub show_report-IsAnswer :
      (tk : ℕ) (k : ResultClass) (nm : Bytes) (v : Value) (cr : Bool)
      → tk < u64_mod
      → IsName nm
      → IsPlain v
      → IsLine (show_result p b nm v cr)
      → IsAnswer (show_report p b (some tk) k nm v cr) tk (report_of p b k nm v)
  unfolding IsAnswer
  show_report-IsAnswer tk k nm v cr fits name plain line = (
    caret-ReplyLine tk _ (append-IsLine _ _ (class_text-IsLine k) line),
    λ n. (
      caret_not_stream tk _ n,
      parse_async_output-miss p b tk _ n fits,
      parse_record-show_report p b (some tk) k nm v cr n fits name plain,
    ),
  )

module _ {S : Type 0} (l : Listeners S) where
  -- The functions connected to the signal hear the notices in their order.
  unfoldable pub heard : List AsyncOutput → S → Result S
  heard [] s = ok s
  heard (a ∷ later) s = do s' ← l.on_async a s; heard later s'

  module _ (p : Pegtl) (b : Boost) (what : Error → Bytes) (h : Handler S) where
    pub on_line-notice :
        (a : Notice) (st : Session S) {s' : S}
        → IsNotice p b a
        → l.on_async (output_of p b a) st.listener ≡ ok s'
        → (st' : Session S) × (on_line p b what l h (notice_text p b a) st ≡ (ok false, st'))
          × (view st' ≡ (s', (view st).1))
    unfolding on_line IsNotice handle_async_output
    on_line-notice a st {s'} (sign, cls, plain, line) e =
        let text = notice_text p b a in
        let st1 = echo st.debug text st in
        let same = view-echo st.debug text st in
        let n = st.last_var_name in
        let (n', parsed) =
          parse_async_output-line p b none a.sign a.class_ a.results a.carriage n tt sign cls
            plain in
        let named = set_name n' (set_name n st1) in
        let kept : l.on_async (output_of p b a) st1.listener ≡ ok s' =
          ap (λ (v : View S). l.on_async (output_of p b a) v.0) same ∙ e in
        (
          set_listener s' named,
          ap (on_stream p b what l h text st1)
                (parse_stream_output-miss p b a.sign _ n (sign_not_stream p b a.sign sign))
              ∙ ap (on_async p b what l h text (set_name n st1)) parsed
              ∙ ap (settle false named) kept,
          ap (λ (v : View S). (s', v.1)) same,
        )

    pub on_line-answer :
        (line : Bytes) (tk : ℕ) (sr : ResultOutput) (st : Session S) {s' : S}
        → IsAnswer p b line tk sr
        → h line (some tk) sr st.listener ≡ ok s'
        → (st' : Session S) × (on_line p b what l h line st ≡ (ok true, st'))
          × (view st' ≡ (s', (view st).1))
    unfolding on_line IsAnswer
    on_line-answer line tk sr st {s'} (_, parses) e =
        let st1 = echo st.debug line st in
        let same = view-echo st.debug line st in
        let n = st.last_var_name in
        let (not_stream, not_async, (n', parsed)) = parses n in
        let named = set_name n' (set_name n (set_name n st1)) in
        let kept : h line (some tk) sr st1.listener ≡ ok s' =
          ap (λ (v : View S). h line (some tk) sr v.0) same ∙ e in
        (
          set_listener s' named,
          ap (on_stream p b what l h line st1) not_stream
              ∙ ap (on_async p b what l h line (set_name n st1)) not_async
              ∙ ap (on_record p b what l h line (set_name n (set_name n st1))) parsed
              ∙ ap (settle true named) kept,
          ap (λ (v : View S). (s', v.1)) same,
        )
