-- ===== src/Interpreter/Commands.antt =====
-- What all the commands of interpreter.cpp are made of: the text goes behind the token, the counter
-- moves on, and the reply must be a record with that token.
use mw_dbg_runner.Common.{
  codes, Bool, List, if◌then◌else◌, ℕ, ◌+◌, ◌%◌, ◌^◌, true, false, Bytes, [], ◌∷◌, ◌++◌,
}
use mw_dbg_runner.Error.{ResultClass, done, Result, ok, err, Error, ◌>>=◌}
use mw_dbg_runner.Numbers.{decimal, to_string}
use mw_dbg_runner.Output.{ResultOutput}
use mw_dbg_runner.Output.Boost.{Boost}
use mw_dbg_runner.Output.Pegtl.{Pegtl}
use mw_dbg_runner.Interpreter.Session.{Session, Listeners, Pipes}
use mw_dbg_runner.Interpreter.Work.{work_impl}
use mw_dbg_runner.Interpreter.Checks.{same_class, unexpected_result, expect_class, expect_result}
use mw_dbg_runner.Interpreter.Stop.{attach, widen, answer}

-- `_token_gen` is a `std::uint32_t`.
unfoldable pub next_token : ℕ → ℕ
next_token t = (t + 1) % 2 ^ 32

abbrev pub space : Bytes
space = codes " "

-- `if (flag) text += …`
abbrev pub when : Bool → Bytes → Bytes
when flag s = if flag then s else []

-- `for (auto & x : xs) text += f(x)`
unfoldable pub each {ℓ} : {A : Type ℓ} → (A → Bytes) → List A → Bytes
each f [] = []
each f (x ∷ xs) = f x ++ each f xs

module _ {S : Type 0} where
  -- `_in_buf = std::to_string(_token_gen) + text`, and `_token_gen++` in the call of `_work`.
  unfoldable pub prepare_unended : Bytes → Session S → Session S
  prepare_unended text st = record st {
    in_buf = to_string decimal st.token_gen ++ text;
    token_gen = next_token st.token_gen;
  }

  -- `_in_buf = std::to_string(_token_gen) + text + '\n'`, and `_token_gen++` in the call of `_work`.
  unfoldable pub prepare : Bytes → Session S → Session S
  prepare text st = record st {
    in_buf = to_string decimal st.token_gen ++ text ++ 10 ∷ [];
    token_gen = next_token st.token_gen;
  }

-- The function that a query passes to `_work` keeps the record.
abbrev pub keep_record : {S : Type 0} → ResultOutput → S × ResultOutput → Result (S × ResultOutput)
keep_record sr (s, _) = ok (s, sr)

-- `mi2::result_output rc;`, a record of class `done` without results.
abbrev pub blank_output : ResultOutput
blank_output = record { class_ = done; results = [] }

-- Only a record of class `done` is read.
unfoldable pub when_done {ℓ} : {A : Type ℓ} → (ResultOutput → Result A) → ResultOutput → Result A
when_done read rc = elim (same_class rc.class_ done) [
  | true ↦ read rc
  | false ↦ err (unexpected_result rc)
]

module _ (p : Pegtl) (b : Boost) (what : Error → Bytes) (io : Pipes) {S : Type 0}
    (l : Listeners S) where
  abbrev pub Run : Type 0 → Type 0
  Run A = Session S → Pipes.Process io → Result A × (Session S × Pipes.Process io)

  -- A command whose record has a class and no results.
  unfoldable pub run_command : Bytes → ResultClass → Run (Unit {0})
  run_command text rc st proc =
      work_impl p b what l (expect_class st.token_gen rc) true io (prepare text st) proc

  -- The same without an end of line.
  unfoldable pub run_unended : Bytes → ResultClass → Run (Unit {0})
  run_unended text rc st proc =
      work_impl p b what l (expect_class st.token_gen rc) true io (prepare_unended text st) proc

  abbrev pub read_answer :
      {A : Type 0}
      → (ResultOutput → Result A)
      → Result ResultOutput × (Session S × Pipes.Process io)
      → Result A × (Session S × Pipes.Process io)
  read_answer read (r, rest) = (r >>= read, rest)

  -- A command whose record is read after the loop.
  unfoldable pub run_answer : {A : Type 0} → Bytes → (ResultOutput → Result A) → Run A
  run_answer text read st proc = read_answer read (
      answer io (
        work_impl p b what (widen l) (expect_result st.token_gen keep_record) true io
          (attach blank_output (prepare text st)) proc))

  -- A command whose record must be of class `done`.
  unfoldable pub run_query : {A : Type 0} → Bytes → (ResultOutput → Result A) → Run A
  run_query text read = run_answer text (when_done read)
