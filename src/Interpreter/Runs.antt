-- ===== src/Interpreter/Runs.antt =====
-- A command that gdb answers is finished (src/mw/gdb/mi2/interpreter.cpp, `_work` with a class).
use mw_dbg_runner.Common.{
  ℕ, zero, suc, ◌+◌, ◌<◌, ◌≡◌, ◌≢◌, refl, ◌∙◌, ap, arith, Bool, true, false, Bytes, List, [], ◌∷◌,
  ◌++◌, length, some, All, map, Bool-cases, inl, inr,
}
use mw_dbg_runner.Error.{ResultClass, error, ok, Error, >>=-eq-ok, ok-inj}
use mw_dbg_runner.Numbers.{decimal, to_string, u64_mod}
use mw_dbg_runner.Numbers.RoundTrip.{to_string-cons}
use mw_dbg_runner.Output.{ResultOutput}
use mw_dbg_runner.Output.Boost.{Boost}
use mw_dbg_runner.Output.Pegtl.{Pegtl}
use mw_dbg_runner.Output.RoundTrip.Answers.{show_answer}
use mw_dbg_runner.Interpreter.Session.{Session, Listeners, Handler, Pipes, set_out, forward}
use mw_dbg_runner.Interpreter.Work.{
  prompt, next, read_lines, conclude, run_lines, work_impl, with_process, is_empty,
}
use mw_dbg_runner.Interpreter.Lines.{IsLine, IsReplyLine, reply, length-reply}
use mw_dbg_runner.Interpreter.Loop.{read_lines-prompt, read_lines-line}
use mw_dbg_runner.Interpreter.Checks.{expect_class}
use mw_dbg_runner.Interpreter.Stops.{Accepts, expect_class_iff}
use mw_dbg_runner.Interpreter.Commands.{prepare, next_token, run_command}
use mw_dbg_runner.Interpreter.Replies.{
  View, view, Notice, notice_text, output_of, IsNotice, notice-ReplyLine, IsAnswer,
  show_answer-IsAnswer, heard, on_line-notice, on_line-answer,
}

module _ {S : Type 0} (l : Listeners S) (p : Pegtl) (b : Boost) (what : Error → Bytes) where
  -- Notices, and the line of the answer.
  unfoldable pub ending_in : List Notice → Bytes → List Bytes
  ending_in [] line = line ∷ []
  ending_in (a ∷ later) line = notice_text p b a ∷ ending_in later line

  -- Notices, and the answer without results to the command of a token.
  abbrev pub answered : List Notice → ℕ → ResultClass → Bool → List Bytes
  answered as_ tk k cr = ending_in as_ (show_answer p b (some tk) k cr)

  length-ending_in :
      (as_ : List Notice) (line : Bytes) → length (ending_in as_ line) ≡ length as_ + 1
  unfolding ending_in
  length-ending_in [] line = refl
  length-ending_in (a ∷ later) line = omega (arith, length-ending_in later line)

  module _ (h : Handler S) (after rest : Bytes) (ha : IsLine after) (line : Bytes) (tk : ℕ)
      (sr : ResultOutput) (ok_line : IsAnswer p b line tk sr) where
    IsAnswer-ReplyLine : IsReplyLine line
    unfolding IsAnswer
    IsAnswer-ReplyLine = ok_line.0

    answer_read :
        (k : ℕ) (st : Session S) {s' : S}
        → h line (some tk) sr st.listener ≡ ok s'
        → st.out_buf ≡ reply (ending_in [] line) after rest
        → (st' : Session S) × (read_lines p b what l h (suc (suc k)) false st ≡ (ok true, st'))
          × (view st' ≡ (s', (rest, (st.token_gen, st.pending_asyncs))))
    unfolding ending_in
    answer_read k st {s'} e out =
        let left = set_out (reply [] after rest) st in
        let (st', read, seen) = on_line-answer l p b what h line tk sr left ok_line e in
        let buffer : st'.out_buf ≡ reply [] after rest = ap (λ (v : View S). v.1.0) seen in
        (
          set_out rest st',
          read_lines-line l p b what h after rest ha (suc k) false _ [] st IsAnswer-ReplyLine out
              ∙ ap (next p b what l h (read_lines p b what l h (suc k)) false) read
              ∙ read_lines-prompt l p b what h after rest ha k true st' buffer,
          ap (λ (v : View S). (v.0, (rest, v.1.1))) seen,
        )

    pub reply_read :
        (as_ : List Notice) (k : ℕ) (st : Session S) {s s' : S}
        → All (IsNotice p b) as_
        → heard l (map (output_of p b) as_) st.listener ≡ ok s
        → h line (some tk) sr s ≡ ok s'
        → length as_ + 1 < k
        → st.out_buf ≡ reply (ending_in as_ line) after rest
        → (st' : Session S) × (read_lines p b what l h k false st ≡ (ok true, st'))
          × (view st' ≡ (s', (rest, (st.token_gen, st.pending_asyncs))))
    unfolding ending_in heard
    reply_read as_ zero st good hs e lt out = absurd (omega arith)
    reply_read as_ (suc zero) st good hs e lt out = absurd (omega arith)
    reply_read [] (suc (suc k)) st good hs e lt out =
        answer_read k st (ap (h _ _ _) (ok-inj hs) ∙ e) out
    reply_read (a ∷ later) (suc (suc k)) st {s} {s'} (good, goods) hs e lt out =
        let left = set_out (reply (ending_in later line) after rest) st in
        let (s1, first, hs') = >>=-eq-ok (l.on_async (output_of p b a) st.listener) _ hs in
        let (st1, read, seen) = on_line-notice l p b what h a left good first in
        let same : st1.listener ≡ s1 = ap (λ (v : View S). v.0) seen in
        let (st', rest_read, seen') =
          reply_read later (suc k) st1 goods (ap (heard l (map (output_of p b) later)) same ∙ hs') e
            (omega arith) (ap (λ (v : View S). v.1.0) seen) in
        (
          st',
          read_lines-line l p b what h after rest ha (suc k) false _ _ st
                (notice-ReplyLine p b a good) out
              ∙ ap (next p b what l h (read_lines p b what l h (suc k)) false) read
              ∙ rest_read,
          seen' ∙ ap (λ (v : View S). (s', (rest, v.1.1))) seen,
        )

  -- Where the input is written and the reply read up to the prompt, the lines of the reply follow.
  work_impl-wrote :
      (h : Handler S) (needs : Bool) (io : Pipes) (st : Session S) (out : Bytes)
      (proc : Pipes.Process io) {proc' proc'' : Pipes.Process io}
      → is_empty st.in_buf ≡ false
      → io.write st.in_buf proc ≡ some proc'
      → io.read_until prompt st.out_buf proc' ≡ (true, (out, proc''))
      → (st' : Session S) × (work_impl p b what l h needs io st proc
          ≡ with_process p b what l h needs io proc'' (run_lines p b what l h needs st'))
        × (view st' ≡ (st.listener, (out, (st.token_gen, st.pending_asyncs))))
  unfolding work_impl
  work_impl-wrote h needs io st out proc e w r = elim (Bool-cases st.debug) [
    | inl d ↦ (set_out out (forward st.in_buf st), rw (work_impl, e, w, d, r) refl, refl)
    | inr d ↦ (set_out out st, rw (work_impl, e, w, d, r) refl, refl)
  ]

  prepare-nonempty :
      (text : Bytes) (st : Session S) → is_empty (Session.in_buf (prepare text st)) ≡ false
  unfolding prepare
  prepare-nonempty text st = let (d, t, shown) = to_string-cons st.token_gen in rw shown refl

  -- A run over a reply that ends in an answer that the handler accepts returns.
  pub work_impl-answered :
      (h : Handler S) (io : Pipes) (text : Bytes) (notices : List Notice) (line : Bytes)
      (sr : ResultOutput) (after rest : Bytes) (st : Session S) (proc : Pipes.Process io)
      {proc' proc'' : Pipes.Process io} {s s' : S}
      → IsAnswer p b line st.token_gen sr
      → IsLine after
      → All (IsNotice p b) notices
      → heard l (map (output_of p b) notices) st.listener ≡ ok s
      → h line (some st.token_gen) sr s ≡ ok s'
      → io.write (to_string decimal st.token_gen ++ text ++ 10 ∷ []) proc ≡ some proc'
      → io.read_until prompt st.out_buf proc'
        ≡ (true, (reply (ending_in notices line) after rest, proc''))
      → (st' : Session S) × (work_impl p b what l h true io (prepare text st) proc
          ≡ (ok tt, (st', proc'')))
        × (view st' ≡ (s', (rest, (next_token st.token_gen, st.pending_asyncs))))
  unfolding prepare run_lines conclude
  work_impl-answered h io text notices line sr after rest st proc {proc'} {proc''} {s} {s'}
        good_line ha good hs accepted w r =
      let tk = st.token_gen in
      let out = reply (ending_in notices line) after rest in
      let (ready, wrote, seen) =
        work_impl-wrote h true io (prepare text st) out proc (prepare-nonempty text st) w r in
      let buffer : ready.out_buf ≡ out = ap (λ (v : View S). v.1.0) seen in
      let (st', read, seen') =
        reply_read h after rest ha line tk sr good_line notices (length ready.out_buf + 1) ready
          good (ap (λ (v : View S). heard l (map (output_of p b) notices) v.0) seen ∙ hs) accepted
          (rw buffer (
            omega (
              arith,
              length-reply (ending_in notices line) after rest,
              length-ending_in notices line,
            )))
          buffer in
      (
        st',
        wrote ∙ ap (λ x. with_process p b what l h true io proc'' (conclude p b what true x)) read,
        seen' ∙ ap (λ (v : View S). (s', (rest, v.1.1))) seen,
      )

  -- A command that waits for a record of a class other than `error`, whose text gdb takes and answers
  -- by any number of notices, a record of that class with its token, and the prompt, returns. The
  -- functions connected have heard the notices in order, the buffer is left behind the line of the
  -- prompt, the counter has moved on by one, and the same functions wait for tokens. The token is
  -- below 2^64, and the functions connected do not throw.
  pub run_command-answered :
      (io : Pipes) (text : Bytes) (rc : ResultClass) (notices : List Notice) (cr : Bool)
      (after rest : Bytes) (st : Session S) (proc : Pipes.Process io)
      {proc' proc'' : Pipes.Process io} {s : S}
      → rc ≢ error
      → st.token_gen < u64_mod
      → IsLine after
      → All (IsNotice p b) notices
      → heard l (map (output_of p b) notices) st.listener ≡ ok s
      → io.write (to_string decimal st.token_gen ++ text ++ 10 ∷ []) proc ≡ some proc'
      → io.read_until prompt st.out_buf proc'
        ≡ (true, (reply (answered notices st.token_gen rc cr) after rest, proc''))
      → (st' : Session S) × (run_command p b what io l text rc st proc ≡ (ok tt, (st', proc'')))
        × (view st' ≡ (s, (rest, (next_token st.token_gen, st.pending_asyncs))))
  unfolding run_command Accepts
  run_command-answered io text rc notices cr after rest st proc {proc'} {proc''} {s} ne fits ha good
        hs w r =
      let tk = st.token_gen in
      let sr : ResultOutput = record { class_ = rc; results = [] } in
      let line = show_answer p b (some tk) rc cr in
      let accepted = (expect_class_iff tk rc line (some tk) sr s).1 (refl, (refl, refl, ne)) in
      work_impl-answered (expect_class tk rc) io text notices line sr after rest st proc
        (show_answer-IsAnswer p b tk rc cr fits) ha good hs accepted w r
