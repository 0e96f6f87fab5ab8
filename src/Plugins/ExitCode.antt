-- ===== src/Plugins/ExitCode.antt =====
-- The break point on `_exit` (src/mw-exitcode.cpp).
use mw_dbg_runner.Common.{Bytes, codes, List, [], ◌∷◌, ℤ}
use mw_dbg_runner.Numbers.{decimal, stoi}
use mw_dbg_runner.Debug.Act.{Act, from, ◌>>=◌}
use mw_dbg_runner.Debug.Frame.{at, FrameOps}
use mw_dbg_runner.Debug.BreakPoint.{BreakPoint, break_at_function}

module _ {W : Type 0} where
  -- `exit_stub::invoke`: the program has exited with the first argument.
  unfoldable pub invoke : FrameOps W → Bytes → ℤ → Act W (Unit {0})
  invoke fr file line = do
    a ← from (at 0 fr.args)
    code ← from (stoi decimal a.base.value)
    fr.set_exit code

  unfoldable pub exit_stub : BreakPoint W
  exit_stub = break_at_function invoke (codes "_exit")

  -- `mw_dbg_setup_bps`
  unfoldable pub setup_bps : List (BreakPoint W) → List (BreakPoint W)
  setup_bps [] = exit_stub ∷ []
  setup_bps (bp ∷ bps) = bp ∷ setup_bps bps
