-- ===== src/Debug/Tests.antt =====
-- The theorem on shortened texts at a concrete frame.
use mw_dbg_runner.Common.{
  ◌≡◌, refl, arith, true, false, Bytes, codes, [], ◌∷◌, ℕ, none, some, pos, bytes_eq, if◌then◌else◌,
}
use mw_dbg_runner.Error.{ok}
use mw_dbg_runner.Numbers.{
  to_string, decimal, stoi, strto, starts_digit, skip_prefix, skip_sign, skip_space, digit_value,
  scan,
}
use mw_dbg_runner.Interpreter.Commands.{next_token}
use mw_dbg_runner.Debug.Act.{give}
use mw_dbg_runner.Debug.Frame.{Var, DebugArg, FrameOps, get_cstring}
use mw_dbg_runner.Debug.Cstrings.{PrintsText, get_cstring_lem}

abbrev printed : Bytes → Var
printed text = record {
  ref = none;
  value = text;
  cstring = record { value = []; ellipsis = false };
}

-- The argument `text` is shown as "ab" and three dots, and goes on with a "c".
abbrev shortened : DebugArg
shortened = record {
  base = record {
    ref = some 64;
    value = codes "0x40";
    cstring = record { value = codes "ab"; ellipsis = true };
  };
  id = codes "text";
}

abbrev frame : FrameOps ℕ
frame = record {
  id = codes "puts";
  args = shortened ∷ [];
  regs = give [];
  set = λ _ _. give tt;
  set_element = λ _ _ _. give tt;
  call = λ _. give none;
  print = λ id _ w. (
    ok (printed (if bytes_eq id (codes "text[2]") then codes "99" else codes "0")),
    next_token w,
  );
  return_ = λ _. give tt;
  set_exit = λ _. give tt;
  select = λ _. give tt;
  backtrace = give [];
  addr2line = λ _. give none;
  disable = λ _. give tt;
  enable = λ _. give tt;
  read_memory = λ _ _. give [];
  write_memory = λ _ _. give tt;
}

c_number : stoi decimal (codes "99") ≡ ok (pos 99)
unfolding stoi strto starts_digit skip_prefix skip_sign skip_space digit_value scan
c_number = refl

end_number : stoi decimal (codes "0") ≡ ok (pos 0)
unfolding stoi strto starts_digit skip_prefix skip_sign skip_space digit_value scan
end_number = refl

frame-PrintsText : PrintsText frame (codes "text") 2 (codes "c") 7 9
unfolding PrintsText bytes_eq to_string next_token
frame-PrintsText = (
  (λ q. omega (arith, q)),
  8,
  (printed (codes "99"), pos 99, refl, c_number, refl),
  (printed (codes "0"), pos 0, refl, end_number, refl),
)

get_cstring_lem_example : get_cstring frame 2 0 7 ≡ (ok (codes "abc"), 9)
get_cstring_lem_example =
    get_cstring_lem frame 2 0 shortened (codes "c") 7 9 refl refl frame-PrintsText (omega arith)
