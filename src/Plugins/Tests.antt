-- ===== src/Plugins/Tests.antt =====
-- The theorems on the break points at concrete frames.
use mw_dbg_runner.Common.{
  ℕ, ◌<◌, ◌^◌, Bool, true, false, Bytes, bytes_eq, codes, [], ◌∷◌, Option, none, some, ℤ, pos,
}
use mw_dbg_runner.Error.{ok, err, interpreter_error}
use mw_dbg_runner.Debug.Frame.{Var, FrameOps}
use mw_dbg_runner.Interpreter.Commands.{next_token}
use mw_dbg_runner.Debug.Act.{Act, give}
use mw_dbg_runner.Plugins.Newlib.Flags.{Flags}

abbrev creat : Bytes
creat = codes "O_CREAT"

abbrev creat_var : Var
creat_var = record {
  ref = none;
  value = codes "64";
  cstring = record { value = []; ellipsis = false };
}

abbrev answer_by : Bool → Act ℕ Var
answer_by true w = (ok creat_var, next_token w)
answer_by false w = (err interpreter_error, next_token w)

abbrev known_by : Bool → Option ℤ
known_by true = some (pos 64)
known_by false = none

-- A program that has `O_CREAT` and no other flag; each answer moves a counter of tokens on.
abbrev flag_frame : FrameOps ℕ
flag_frame = record {
  id = codes "mw_func_stub";
  args = [];
  regs = give [];
  set = λ _ _. give tt;
  set_element = λ _ _ _. give tt;
  call = λ _. give none;
  print = λ name _. answer_by (bytes_eq name creat);
  return_ = λ _. give tt;
  set_exit = λ _. give tt;
  select = λ _. give tt;
  backtrace = give [];
  addr2line = λ _. give none;
  disable = λ _. give tt;
  enable = λ _. give tt;
  read_memory = λ _ _. give [];
  write_memory = λ _ _. give tt;
}

-- The states of a counter of 32 bits.
abbrev IsToken : ℕ → Type 0
IsToken w = w < 2 ^ 32

abbrev flags : Flags
flags = record {
  inited = false;
  members =
      record { name = creat; loaded = true; target = pos 256; host = pos 256 }
      ∷ record { name = codes "O_PATH"; loaded = true; target = pos 512; host = pos 512 }
      ∷ record { name = codes "S_IRWXU"; loaded = false; target = pos 448; host = pos 448 }
      ∷ [];
}
