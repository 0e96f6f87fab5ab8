-- ===== src/Interpreter/Session.antt =====
-- The state of `mi2::interpreter` and of its base `interpreter_impl`, and the reading of lines.
use mw_dbg_runner.Common.{
  ℕ, Bool, Bytes, List, [], ◌∷◌, ◌++◌, Option, none, some, if◌then◌else◌, ◌==◌,
}
use mw_dbg_runner.Error.{Result}
use mw_dbg_runner.Output.{AsyncOutput, ResultOutput}

-- A member of `_pending_asyncs`: a token and the function called with the output, which says whether
-- it is finished.
abbrev pub Pending : Type 0
Pending = ℕ × (AsyncOutput → Bool)

-- `listener` is what the functions connected to the signals and the running command keep.
pub record Session (S : Type 0) : Type 0 where
  pub listener : S
  pub in_buf : Bytes
  pub out_buf : Bytes
  pub fwd : Bytes
  pub debug : Bool
  pub token_gen : ℕ
  pub pending_asyncs : List Pending
  -- `last_var_name`, the variable of the parser
  pub last_var_name : Bytes

-- The functions connected to `_stream_console`, `_stream_log` and `_async_sink`.
pub record Listeners (S : Type 0) : Type 0 where
  pub on_console : Bytes → S → Result S
  pub on_log : Bytes → S → Result S
  pub on_async : AsyncOutput → S → Result S

-- What a command does with a record: its line, its token and its content.
abbrev pub Handler : Type 0 → Type 0
Handler S = Bytes → Option ℕ → ResultOutput → S → Result S

-- The pipes to the debugger, of Boost.Process and Asio. `write` is `asio::async_write` and fails
-- with `none`; `read_until` is `asio::async_read_until` on the stream buffer, and says whether it
-- met the delimiter (else it throws a `system_error`).
pub record Pipes : Type 1 where
  pub Process : Type 0
  pub write : Bytes → Process → Option Process
  pub read_until : Bytes → Bytes → Process → Bool × (Bytes × Process)

module _ {S : Type 0} where
  -- `_fwd << s`
  abbrev pub forward : Bytes → Session S → Session S
  forward s st = record st { fwd = st.fwd ++ s }

  abbrev pub set_out : Bytes → Session S → Session S
  set_out o st = record st { out_buf = o }

  abbrev pub set_name : Bytes → Session S → Session S
  set_name n st = record st { last_var_name = n }

  abbrev pub set_listener : S → Session S → Session S
  set_listener s st = record st { listener = s }

abbrev extend : Bytes → ℕ → Option (Bytes × Bytes) → Option (Bytes × Bytes)
extend s c none = some (c ∷ [], [])
extend s c (some (line, rest)) = some (c ∷ line, rest)

-- `std::getline`: the characters up to a newline, which is dropped, or up to the end; it fails where
-- no character is left.
unfoldable pub getline : Bytes → Option (Bytes × Bytes)
getline [] = none
getline (c ∷ s) = let later = extend s c (getline s) in if c == 10 then some ([], s) else later
