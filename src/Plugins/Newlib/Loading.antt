-- ===== src/Plugins/Newlib/Loading.antt =====
-- How the flags of the program under test are asked for (`open_flags::load` and `seek_flags::load` in
-- src/mw-newlib.cpp).
use mw_dbg_runner.Common.{◌≡◌, Bool, true, false, Bytes, Option, none, some, ℤ}
use mw_dbg_runner.Error.{Error, ok, err}
use mw_dbg_runner.Numbers.{decimal, stoi}
use mw_dbg_runner.Debug.Act.{Act, is_interpreter_error}
use mw_dbg_runner.Debug.Frame.{Var, FrameOps}
use mw_dbg_runner.Plugins.Newlib.Flags.{Flag, Flags}

abbrev pub with_value : Flag → Option ℤ → Flag
with_value f none = f
with_value f (some n) = record f { target = n }

-- A flag that is asked for takes its value, if the program has one.
unfoldable pub resolve : (Bytes → Option ℤ) → Flag → Flag
resolve known f = elim f.loaded [ true ↦ with_value f (known f.name) | false ↦ f ]

module _ {W : Type 0} (fr : FrameOps W) where
  -- From one state to another, gdb prints a text that begins with the number, or refuses a name that
  -- the program does not have.
  abbrev pub Says : Bytes → Option ℤ → W → W → Type 0
  Says name none w w' =
      (e : Error) × (fr.print name false w ≡ (err e, w')) × (is_interpreter_error e ≡ true)
  Says name (some n) w w' =
      (v : Var) × (fr.print name false w ≡ (ok v, w')) × (stoi decimal v.value ≡ ok n)

  abbrev flag_of : Bytes → Bool → ℤ → ℤ → Flag
  flag_of name loaded target host = record {
    name = name;
    loaded = loaded;
    target = target;
    host = host;
  }
