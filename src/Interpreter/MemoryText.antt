-- ===== src/Interpreter/MemoryText.antt =====
-- The bytes that `-data-write-memory-bytes` sends (src/mw/gdb/mi2/interpreter.cpp) are those that the
-- contents of a memory read in the same spelling give (src/mw/gdb/mi2/types.cpp).
use mw_dbg_runner.Common.{ℕ, ◌<◌, ◌/◌, ◌%◌, ◌≡◌, refl, ap, arith, List, [], ◌∷◌, All}
use mw_dbg_runner.Numbers.{digit_char}
use mw_dbg_runner.Types.Contents.{hex_value, hex_bytes}
use mw_dbg_runner.Interpreter.Commands.{each}
use mw_dbg_runner.Interpreter.Data.{hex_pair, contents_text}

hex_value-digit_char : (d : ℕ) → d < 16 → hex_value (digit_char d) ≡ d
unfolding hex_value
hex_value-digit_char d h = ground arith

-- Bytes that are written are the bytes that the text of the command gives when it is read as the
-- contents of a memory read.
pub hex_bytes-contents_text :
    (ns : List ℕ) → All (λ n. n < 256) ns → hex_bytes (contents_text ns) ≡ ns
unfolding hex_bytes contents_text hex_pair each
hex_bytes-contents_text [] h = refl
hex_bytes-contents_text (n ∷ ns) (lt, h) =
    rw
      (
        hex_value-digit_char (n / 16 % 16) (omega arith),
        hex_value-digit_char (n % 16) (omega arith),
        hex_bytes-contents_text ns h,
      )
      (ap (λ x. x ∷ ns) (omega arith))
