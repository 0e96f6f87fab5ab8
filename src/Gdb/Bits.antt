-- ===== src/Gdb/Bits.antt =====
-- Numbers and bytes as binary digits (`frame_impl::print` in src/mw/gdb/mi2/frame_impl.cpp).
use mw_dbg_runner.Common.{
  ℕ, zero, suc, ◌+◌, ◌*◌, ◌/◌, ◌%◌, ◌^◌, ◌==◌, ltb, true, false, Bytes, codes, List, [], ◌∷◌, ◌++◌,
  if◌then◌else◌,
}
use mw_dbg_runner.Error.{Result, ok, err, crashed, ◌>>=◌}

-- `((c >> pos) & 1) ? '1' : '0'`, for a position inside the number.
unfoldable pub bit_char : ℕ → ℕ → ℕ
bit_char c pos = if (c / 2 ^ pos) % 2 == 1 then b'1' else b'0'

-- The eight digits of a byte of memory, the highest first.
unfoldable pub byte_chars : ℕ → ℕ → Bytes
byte_chars val i =
    bit_char val (7 + i * 8)
    ∷ bit_char val (6 + i * 8)
    ∷ bit_char val (5 + i * 8)
    ∷ bit_char val (4 + i * 8)
    ∷ bit_char val (3 + i * 8)
    ∷ bit_char val (2 + i * 8)
    ∷ bit_char val (1 + i * 8)
    ∷ bit_char val (0 + i * 8)
    ∷ []

-- The bits of the bytes of memory, the last byte first.
unfoldable pub memory_bits : List ℕ → Bytes
memory_bits [] = []
memory_bits (c ∷ cs) = memory_bits cs ++ byte_chars c 0

-- `bit_to_str`, on numbers of 64 bits: the shift by 64 or more is undefined.
unfoldable pub bit_to_str : ℕ → ℕ → Result ℕ
bit_to_str c pos = elim (ltb pos 64) [ true ↦ ok (bit_char c pos) | false ↦ err crashed ]

-- The eight digits of a byte that stands at the position `i * 8`, the highest first.
unfoldable pub byte_bits : ℕ → ℕ → Result Bytes
byte_bits val i = do
  b₇ ← bit_to_str val (7 + i * 8)
  b₆ ← bit_to_str val (6 + i * 8)
  b₅ ← bit_to_str val (5 + i * 8)
  b₄ ← bit_to_str val (4 + i * 8)
  b₃ ← bit_to_str val (3 + i * 8)
  b₂ ← bit_to_str val (2 + i * 8)
  b₁ ← bit_to_str val (1 + i * 8)
  b₀ ← bit_to_str val (0 + i * 8)
  ok (b₇ ∷ b₆ ∷ b₅ ∷ b₄ ∷ b₃ ∷ b₂ ∷ b₁ ∷ b₀ ∷ [])

-- `for (auto i = size; i != 0; ) { i--; … }`
unfoldable pub all_bits : ℕ → ℕ → Result Bytes
all_bits val zero = ok []
all_bits val (suc i) = do byte ← byte_bits val i; rest ← all_bits val i; ok (byte ++ rest)

-- `push_back` drops the zeros before the first one.
unfoldable pub skip_zeros : Bytes → Bytes
skip_zeros [] = []
skip_zeros (c ∷ s) = if c == b'0' then skip_zeros s else c ∷ s

abbrev pub or_zero : Bytes → Bytes
or_zero [] = codes "0"
or_zero (c ∷ s) = c ∷ s

unfoldable pub binary_text : ℕ → ℕ → Result Bytes
binary_text val size = do bits ← all_bits val size; ok (or_zero (skip_zeros bits))
