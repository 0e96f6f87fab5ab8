-- ===== src/Interpreter/Checks.antt =====
-- What a command demands of a record (`_handle_record` in interpreter.cpp, and
-- `_throw_unexpected_result` in interpreter2.cpp).
use mw_dbg_runner.Common.{
  ℕ, Bool, true, false, ◌&&◌, Bytes, lit, List, [], ◌∷◌, Option, none, some, ◌==◌, if◌then◌else◌,
}
use mw_dbg_runner.Error.{
  ResultClass, done, running, connected, error, exit, Result, ok, err, Error, ◌>>=◌, guard,
  unexpected_record, mismatched_token, exception, unexpected_result_class,
}
use mw_dbg_runner.Output.{Entry, ResultOutput, as_string}
use mw_dbg_runner.Types.{find_if}
use mw_dbg_runner.Types.Breakpoints.{ErrorMessage, parse_error_message}
use mw_dbg_runner.Interpreter.Session.{Handler}

unfoldable pub same_class : ResultClass → ResultClass → Bool
same_class done done = true
same_class running running = true
same_class connected connected = true
same_class error error = true
same_class exit exit = true
same_class _ _ = false

-- A record must carry the token of the command.
unfoldable pub check_token : ℕ → Option ℕ → Result (Unit {0})
check_token expected none = err (mismatched_token expected 0)
check_token expected (some tk) =
    if tk == expected then ok tt else err (mismatched_token expected tk)

abbrev pub no_entries : List Entry → Bool
no_entries [] = true
no_entries (e ∷ es) = false

-- An error record becomes an exception with its message; any other must have the class and no
-- results.
unfoldable pub check_class : Bytes → ResultClass → ResultOutput → Result (Unit {0})
check_class line rc sr = elim (same_class sr.class_ error) [
  | true ↦ do
    e ← parse_error_message sr.results
    err (exception (ErrorMessage.msg e) (ErrorMessage.code e))
  | false ↦ guard (same_class sr.class_ rc && no_entries sr.results) (unexpected_record line)
]

-- The error thrown for a record of another class. (Its parameter `rc` is not used: the class that
-- was expected is given as `done`.)
unfoldable pub unexpected_result : ResultOutput → Error
unexpected_result res = elim (same_class res.class_ error) [
  | true ↦ elim (find_if res.results (lit "msg")) [
    | none ↦ unexpected_result_class done res.class_ []
    | some v ↦ elim (as_string v) [
      | ok msg ↦ unexpected_result_class done res.class_ msg
      | err e ↦ e
    ]
  ]
  | false ↦ unexpected_result_class done res.class_ []
]

module _ {S : Type 0} where
  -- The handler of `_work()`: no record is expected.
  unfoldable pub no_record : Handler S
  no_record line token sr s = err (unexpected_record line)

  -- The handler of `_work(token, rc)`.
  unfoldable pub expect_class : ℕ → ResultClass → Handler S
  expect_class expected rc line token sr s = do
    _ ← check_token expected token
    _ ← check_class line rc sr
    ok s

  -- The handler of `_work(token, func)`.
  unfoldable pub expect_result : ℕ → (ResultOutput → S → Result S) → Handler S
  expect_result expected func line token sr s = do _ ← check_token expected token; func sr s
