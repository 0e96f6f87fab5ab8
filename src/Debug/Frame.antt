-- ===== src/Debug/Frame.antt =====
-- The interface of a stack frame (include/mw/debug/frame.hpp).
use mw_dbg_runner.Common.{
  ℕ, zero, suc, ◌+◌, ◌-◌, ◌%◌, ◌==◌, Bool, true, false, Bytes, codes, List, [], ◌∷◌, ◌++◌, Option,
  length, ℤ, pos, negsuc,
}
use mw_dbg_runner.Error.{Result, ok, err, out_of_range, out_of_fuel}
use mw_dbg_runner.Numbers.{decimal, to_string, stoi}
use mw_dbg_runner.Debug.Act.{Act, give, throw, from, ◌>>=◌}

-- `cstring_t`
pub record Cstring : Type 0 where
  pub value : Bytes
  pub ellipsis : Bool

-- `var`
pub record Var : Type 0 where
  pub ref : Option ℕ
  pub value : Bytes
  pub cstring : Cstring

-- `mw::debug::arg`, which inherits from `var`.
pub record DebugArg : Type 0 where
  pub base : Var
  pub id : Bytes

-- `backtrace_elem`; a line that is not set is not initialised: `none`.
pub record BacktraceElem : Type 0 where
  pub cnt : ℤ
  pub addr : Option ℕ
  pub func : Bytes
  pub file : Bytes
  pub line : Option ℤ

pub record AddressInfo : Type 0 where
  pub file : Bytes
  pub line : ℕ
  pub full_name : Option Bytes
  pub function : Option Bytes
  pub offset : Option ℕ

-- `std::vector::at`
abbrev pub at {ℓ} : {A : Type ℓ} → ℕ → List A → Result A
at n [] = err out_of_range
at zero (x ∷ xs) = ok x
at (suc n) (x ∷ xs) = at n xs

-- The virtual functions of `frame` that a break point calls; a break point is named by its position.
pub record FrameOps (W : Type 0) : Type 0 where
  pub id : Bytes
  pub args : List DebugArg
  pub regs : Act W (List (Bytes × ℕ))
  pub set : Bytes → Bytes → Act W (Unit {0})
  pub set_element : Bytes → ℕ → Bytes → Act W (Unit {0})
  pub call : Bytes → Act W (Option Var)
  pub print : Bytes → Bool → Act W Var
  pub return_ : Bytes → Act W (Unit {0})
  pub set_exit : ℤ → Act W (Unit {0})
  pub select : ℤ → Act W (Unit {0})
  pub backtrace : Act W (List BacktraceElem)
  pub addr2line : ℕ → Act W (Option AddressInfo)
  pub disable : ℕ → Act W (Unit {0})
  pub enable : ℕ → Act W (Unit {0})
  pub read_memory : ℕ → ℕ → Act W (List ℕ)
  pub write_memory : ℕ → List ℕ → Act W (Unit {0})

-- `static_cast<char>(i)`, as a code below 256.
abbrev pub to_char : ℤ → ℕ
to_char (pos n) = n % 256
to_char (negsuc n) = 255 - n % 256

module _ {W : Type 0} (fr : FrameOps W) where
  -- `arg_list(index)`
  unfoldable pub arg_list : ℕ → Act W DebugArg
  arg_list index = from (at index fr.args)

  -- The characters of an array from an index on, up to a zero; on fuel, since nothing bounds the
  -- array.
  unfoldable pub read_chars : ℕ → Bytes → ℕ → Bytes → Act W Bytes
  read_chars zero id idx val = throw out_of_fuel
  read_chars (suc fuel) id idx val = do
    p ← fr.print (id ++ codes "[" ++ to_string decimal idx ++ codes "]") false
    i ← from (stoi decimal p.value)
    elim (to_char i == 0) [
      | true ↦ give val
      | false ↦ read_chars fuel id (idx + 1) (val ++ to_char i ∷ [])
    ]

  unfoldable pub get_cstring : ℕ → ℕ → Act W Bytes
  get_cstring fuel index = do
    entry ← arg_list index
    elim entry.base.cstring.ellipsis [
      | false ↦ give entry.base.cstring.value
      | true ↦ read_chars fuel entry.id (length entry.base.cstring.value) entry.base.cstring.value
    ]
