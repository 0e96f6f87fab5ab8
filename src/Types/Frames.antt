-- ===== src/Types/Frames.antt =====
-- `parse_result` for arguments and frames (src/mw/gdb/mi2/types.cpp).
use mw_dbg_runner.Common.{ℕ, Option, none, some, Bytes, lit, List, [], ℤ, pos}
use mw_dbg_runner.Error.{Result, ok, ◌>>=◌, traverse}
use mw_dbg_runner.Output.{
  Entry, Value, Items, values, results, as_string, as_tuple, as_list, value_list, entries,
}
use mw_dbg_runner.Types.{find_if}
use mw_dbg_runner.Types.Access.{string_at, hex_at, string_if, int_if, when_found, or_empty}

pub record Arg : Type 0 where
  pub name : Bytes
  pub value : Bytes
  pub type : Option Bytes

unfoldable pub parse_arg : List Entry → Result Arg
parse_arg r = do
  name ← string_at r (lit "name")
  value ← string_if r (lit "value")
  type ← string_if r (lit "type")
  ok (record { name = name; value = or_empty value; type = type })

pub record Frame : Type 0 where
  pub level : ℤ
  pub func : Option Bytes
  pub addr : Option ℕ
  pub file : Option Bytes
  pub line : Option ℤ
  pub from : Option Bytes
  pub args : Option (List Arg)

-- An argument with its value.
unfoldable pub valued_arg : Value → Result Arg
valued_arg v = do
  r ← as_tuple v
  name ← string_at r (lit "name")
  value ← string_at r (lit "value")
  ok (record { name = name; value = value; type = none })

-- An argument of which only the name is given.
unfoldable pub named_arg : Entry → Result Arg
named_arg e = do name ← as_string e.value_; ok (record { name = name; value = []; type = none })

unfoldable pub parse_args : Items → Result (List Arg)
unfolding valued_arg named_arg
parse_args (values vs) = traverse valued_arg (value_list vs)
parse_args (results rs) = traverse named_arg (entries rs)

-- Without a level the frame is the innermost one.
abbrev level_or_zero : Option ℤ → ℤ
level_or_zero none = pos 0
level_or_zero (some l) = l

unfoldable pub parse_frame : List Entry → Result Frame
parse_frame r = do
  level ← int_if r (lit "level")
  func ← string_if r (lit "func")
  addr ← when_found (find_if r (lit "addr")) λ _. hex_at r (lit "addr")
  file ← string_if r (lit "file")
  line ← int_if r (lit "line")
  from ← string_if r (lit "from")
  args ← when_found (find_if r (lit "args")) λ v. do l ← as_list v; parse_args l
  ok (record {
    level = level_or_zero level;
    func = func;
    addr = addr;
    file = file;
    line = line;
    from = from;
    args = args;
  })
