-- ===== src/Plugins/Newlib/Flags.antt =====
-- The flags of files (`open_flags` and `seek_flags` in src/mw-newlib.cpp): the values that the
-- program under test gives them, and those of the host.
use mw_dbg_runner.Common.{
  ℕ, ◌-◌, ◌^◌, Bool, true, false, not, Bytes, List, [], ◌∷◌, ltb, ◌==◌, if◌then◌else◌, ℤ, pos,
  negsuc,
}
use mw_dbg_runner.Error.{Error}
use mw_dbg_runner.Numbers.{decimal, stoi}
use mw_dbg_runner.Debug.Act.{Act, give, throw, from, catching, is_interpreter_error, ◌>>=◌}
use mw_dbg_runner.Debug.Frame.{FrameOps}
use Prim.Native.Nat.{bit_and, bit_or}

-- The bits of an `int`, and back.
abbrev pub bits : ℤ → ℕ
bits (pos n) = n
bits (negsuc n) = 2 ^ 32 - 1 - n

unfoldable pub of_bits : ℕ → ℤ
of_bits n = if ltb n (2 ^ 31) then pos n else negsuc (2 ^ 32 - 1 - n)

-- One flag: its name if `load` asks for it, its value in the program under test, and on the host.
pub record Flag : Type 0 where
  pub name : Bytes
  pub loaded : Bool
  pub target : ℤ
  pub host : ℤ

-- The members of a struct of flags in their order, whose target values are first those of the host.
pub record Flags : Type 0 where
  pub inited : Bool
  pub members : List Flag

abbrev set_target : Flag → ℤ → Flag
set_target f v = record f { target = v }

-- A value that the program under test has for the flag.
abbrev asked : {W : Type 0} → FrameOps W → Flag → Act W Flag
asked fr f = do v ← fr.print f.name false; n ← from (stoi decimal v.value); give (set_target f n)

abbrev kept_if_unknown : {W : Type 0} → Flag → Error → Act W Flag
kept_if_unknown f e = elim (is_interpreter_error e) [ true ↦ give f | false ↦ throw e ]

-- `try { o_append = std::stoi(fr.print("O_APPEND").value); } catch (mw::debug::interpreter_error&) {}`
unfoldable pub load_flag : {W : Type 0} → FrameOps W → Flag → Act W Flag
load_flag fr f = elim f.loaded [ true ↦ catching (asked fr f) (kept_if_unknown f) | false ↦ give f ]

unfoldable pub load_flags : {W : Type 0} → FrameOps W → List Flag → Act W (List Flag)
load_flags fr [] = give []
load_flags fr (f ∷ fs) = do f' ← load_flag fr f; fs' ← load_flags fr fs; give (f' ∷ fs')

-- `load`. (Where `stoi` throws, the run ends, so it does not matter which members had been loaded.)
unfoldable pub load : {W : Type 0} → FrameOps W → Flags → Act W Flags
load fr fs = do
  members ← load_flags fr fs.members
  give (record { inited = true; members = members })

-- `in & flag`
unfoldable pub has_flag : ℤ → ℤ → Bool
has_flag in_ flag = not (bit_and (bits in_) (bits flag) == 0)

-- The bits of `out` after `if (in & o_append) out |= O_APPEND; …`.
unfoldable pub translate : ℤ → List Flag → ℕ
translate in_ [] = 0
translate in_ (f ∷ fs) =
    let rest = translate in_ fs in if has_flag in_ f.target then bit_or (bits f.host) rest else rest

-- `get_flags` and `get_mode`
unfoldable pub get_flags : Flags → ℤ → ℤ
get_flags fs in_ = of_bits (translate in_ fs.members)
