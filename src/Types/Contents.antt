-- ===== src/Types/Contents.antt =====
-- The bytes of memory as the debugger writes them (src/mw/gdb/mi2/types.cpp, the loops over `data`
-- and `contents`).
use mw_dbg_runner.Common.{
  ℕ, ◌*◌, ◌+◌, ◌-◌, ◌%◌, ◌^◌, ◌&&◌, Bytes, List, [], ◌∷◌, if◌then◌else◌, leb,
}
use mw_dbg_runner.Error.{Result, ok, ◌>>=◌}
use mw_dbg_runner.Numbers.{hexadecimal, stoull}
use mw_dbg_runner.Output.{Value, as_string}

-- `to_int` of one character: the value of a hexadecimal digit, and 0 for any other character.
unfoldable pub hex_value : ℕ → ℕ
hex_value c =
    if leb b'0' c && leb c b'9'
    then c - b'0'
    else if leb b'A' c && leb c b'F'
    then c - b'A' + 10
    else if leb b'a' c && leb c b'f'
    then c - b'a' + 10
    else 0

-- `c = to_int(*itr++) << 4; c |= to_int(*itr++);` for each byte of `resize(size / 2)`. Both digits are
-- below 16, so `|=` adds.
unfoldable pub hex_bytes : Bytes → List ℕ
hex_bytes (h ∷ l ∷ s) = (hex_value h * 16 + hex_value l) % 256 ∷ hex_bytes s
hex_bytes _ = []

-- `c = to_int(*itr++); c |= to_int(*itr++) << 8;`, stored in 8 bits.
unfoldable pub region_bytes : Bytes → List ℕ
region_bytes (l ∷ h ∷ s) = (hex_value l + hex_value h * 2 ^ 8) % 256 ∷ region_bytes s
region_bytes _ = []

-- `static_cast<std::uint8_t>(std::stoul(d.as_string(), nullptr, 16))`, where `unsigned long` has 64
-- bits.
unfoldable pub memory_byte : Value → Result ℕ
memory_byte v = do s ← as_string v; n ← stoull hexadecimal s; ok (n % 256)
