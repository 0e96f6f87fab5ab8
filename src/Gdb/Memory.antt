-- ===== src/Gdb/Memory.antt =====
-- The blocks of memory that a frame reads (`frame_impl::read_memory` in
-- src/mw/gdb/mi2/frame_impl.cpp).
use mw_dbg_runner.Common.{ℕ, ◌+◌, ◌-◌, List, [], ◌∷◌, ◌++◌, length, take, drop, replicate}
use mw_dbg_runner.Types.Memory.{ReadMemoryBytes}

-- `vec.resize(n)`
unfoldable pub resize_bytes : ℕ → List ℕ → List ℕ
resize_bytes n vec = take n vec ++ replicate (n - length vec) 0

-- `std::copy(contents.begin(), contents.end(), vec.begin() + offset)`, which fits.
unfoldable pub copy_at : ℕ → List ℕ → List ℕ → List ℕ
copy_at offset contents vec = take offset vec ++ contents ++ drop (offset + length contents) vec

unfoldable pub read_block : ReadMemoryBytes → List ℕ → List ℕ
read_block d vec = copy_at d.offset d.contents (resize_bytes (d.offset + length d.contents) vec)

unfoldable pub read_blocks : List ReadMemoryBytes → List ℕ → List ℕ
read_blocks [] vec = vec
read_blocks (d ∷ ds) vec = read_blocks ds (read_block d vec)
