-- ===== src/Gdb/Registers.antt =====
-- The registers that a frame reads (`frame_impl::regs` in src/mw/gdb/mi2/frame_impl.cpp).
use mw_dbg_runner.Common.{
  ◌<◌, ℕ, zero, suc, ◌≤◌, ◌≡◌, refl, arith, Bool-cases, inl, inr, ◌⊎◌, Bytes, List, [], ◌∷◌, All,
  length, ltb,
}
use mw_dbg_runner.Error.{ok, err, crashed, out_of_range}
use mw_dbg_runner.Types.Access.{to_size}
use mw_dbg_runner.Types.Memory.{RegisterValue}
use mw_dbg_runner.Debug.Frame.{at}
use mw_dbg_runner.Gdb.Frames.{named_registers}

at-outside : (n : ℕ) (names : List Bytes) → length names ≤ n → at n names ≡ err out_of_range
at-outside n [] h = refl
at-outside zero (x ∷ xs) h = absurd (omega arith)
at-outside (suc n) (x ∷ xs) h = at-outside n xs (omega arith)

-- Some register has a number greater than the number of names.
unfoldable pub OneOutside : List Bytes → List RegisterValue → Type 0
OneOutside names [] = ⊥
OneOutside names (r ∷ rs) = (length names < to_size r.number) ⊎ OneOutside names rs

-- Whatever gdb says, no register is ever read: either every register has a number of at most the number
-- of names, and the result is empty, or some register has a greater one, and a name outside the vector
-- is read.
pub named_registers_lem :
    (names : List Bytes) (rs : List RegisterValue)
    → (All (λ r. to_size (RegisterValue.number r) ≤ length names) rs
        × (named_registers names rs ≡ ok []))
      ⊎ (OneOutside names rs × (named_registers names rs ≡ err crashed))
unfolding named_registers OneOutside
named_registers_lem names [] = inl (tt, refl)
named_registers_lem names (r ∷ rs) = elim (Bool-cases (ltb (length names) (to_size r.number))) [
  | inl e ↦ inr (
    inl (ground (arith, e)),
    rw (e, at-outside (to_size r.number) names (ground (arith, e))) refl,
  )
  | inr e ↦ elim (named_registers_lem names rs) [
    | inl (all, h) ↦ inl ((ground (arith, e), all), rw (e, h) refl)
    | inr (one, h) ↦ inr (inr one, rw (e, h) refl)
  ]
]
