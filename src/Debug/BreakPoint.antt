-- ===== src/Debug/BreakPoint.antt =====
-- Break points (include/mw/debug/break_point.hpp).
use mw_dbg_runner.Common.{ℕ, Bytes, codes, ◌++◌, Option, none, ℤ}
use mw_dbg_runner.Numbers.{decimal, to_string}
use mw_dbg_runner.Debug.Act.{Act, give}
use mw_dbg_runner.Debug.Frame.{FrameOps}

-- `break_point`: what an implementation overrides are fields.
pub record BreakPoint (W : Type 0) : Type 0 where
  pub identifier : Bytes
  pub condition : Option Bytes
  pub invoke : FrameOps W → Bytes → ℤ → Act W (Unit {0})
  pub set_at : ℕ → Bytes → ℤ → Act W (Unit {0})
  pub set_multiple : ℕ → Bytes → ℤ → Act W (Unit {0})

module _ {W : Type 0} (invoke : FrameOps W → Bytes → ℤ → Act W (Unit {0})) where
  -- The constructor from the name of a function. The functions `set_at` and `set_multiple` do nothing.
  unfoldable pub break_at_function : Bytes → BreakPoint W
  break_at_function func_name = record {
    identifier = func_name;
    condition = none;
    invoke = invoke;
    set_at = λ addr file line. give tt;
    set_multiple = λ addr name cnt. give tt;
  }

  -- The constructor from a location.
  unfoldable pub break_at_line : Bytes → ℕ → BreakPoint W
  break_at_line file_name line = record {
    identifier = file_name ++ codes ":" ++ to_string decimal line;
    condition = none;
    invoke = invoke;
    set_at = λ addr file line. give tt;
    set_multiple = λ addr name cnt. give tt;
  }

-- `set_condition`
unfoldable pub set_condition : {W : Type 0} → Bytes → BreakPoint W → BreakPoint W
set_condition c bp = record bp { condition = Option.some c }
