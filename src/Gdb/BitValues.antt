-- ===== src/Gdb/BitValues.antt =====
-- The binary digits that a frame prints are those of the number (`frame_impl::print` in
-- src/mw/gdb/mi2/frame_impl.cpp).
use mw_dbg_runner.Common.{ℕ, zero, suc, ◌+◌, ◌-◌, ◌*◌, ◌^◌, ◌≢◌, Bytes, [], ◌∷◌, ◌++◌}
use mw_dbg_runner.Gdb.Bits.{byte_chars}

-- What binary digits stand for, the highest first.
unfoldable pub bits_value : ℕ → Bytes → ℕ
bits_value acc [] = acc
bits_value acc (c ∷ s) = bits_value (acc * 2 + (c - b'0')) s

abbrev power : ℕ → ℕ
power i = 2 ^ (i * 8)

-- The digits of all bytes, where each shift is defined.
unfoldable all_chars : ℕ → ℕ → Bytes
all_chars val zero = []
all_chars val (suc i) = byte_chars val i ++ all_chars val i

-- The first digit is not a zero, unless it is the only one.
unfoldable pub IsShort : Bytes → Type 0
IsShort [] = Unit
IsShort (c ∷ []) = Unit
IsShort (c ∷ d ∷ s) = c ≢ b'0'

StartsShort : Bytes → Type 0
StartsShort [] = Unit
StartsShort (c ∷ s) = c ≢ b'0'
