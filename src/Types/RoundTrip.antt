-- ===== src/Types/RoundTrip.antt =====
-- Bytes of memory written in hexadecimal are read back (src/mw/gdb/mi2/types.cpp,
-- `parse_result<read_memory_bytes>`), while `parse_result<memory_region>` loses a digit.
use mw_dbg_runner.Common.{
  ℕ, ◌+◌, ◌-◌, ◌/◌, ◌%◌, ◌<◌, ◌≡◌, refl, ap, arith, Bool, Bytes, List, [], ◌∷◌, map, All,
  if◌then◌else◌, ltb,
}
use mw_dbg_runner.Types.Contents.{hex_value, hex_bytes, region_bytes}

-- One digit, in lower or in upper case.
unfoldable pub show_digit : Bool → ℕ → ℕ
show_digit upper d = if ltb d 10 then d + b'0' else if upper then d - 10 + b'A' else d - 10 + b'a'

-- Each byte as two digits, the high one first.
unfoldable pub show_bytes : Bool → List ℕ → Bytes
show_bytes upper [] = []
show_bytes upper (n ∷ ns) =
    show_digit upper (n / 16) ∷ show_digit upper (n % 16) ∷ show_bytes upper ns

pub hex_value-show_digit : (upper : Bool) (d : ℕ) → d < 16 → hex_value (show_digit upper d) ≡ d
unfolding hex_value show_digit
hex_value-show_digit upper d h = ground arith

-- Bytes written as pairs of hexadecimal digits, in either case, are read back.
pub hex_bytes-show_bytes :
    (upper : Bool) (ns : List ℕ) → All (λ n. n < 256) ns → hex_bytes (show_bytes upper ns) ≡ ns
unfolding hex_bytes show_bytes
hex_bytes-show_bytes upper [] h = refl
hex_bytes-show_bytes upper (n ∷ ns) (lt, h) =
    rw
      (
        hex_value-show_digit upper (n / 16) (omega arith),
        hex_value-show_digit upper (n % 16) (omega arith),
        hex_bytes-show_bytes upper ns h,
      )
      (ap (λ x. x ∷ ns) (omega arith))

-- The first of two digits is kept, in the low half of the byte.
pub region_bytes-show_bytes :
    (upper : Bool) (ns : List ℕ)
    → All (λ n. n < 256) ns
    → region_bytes (show_bytes upper ns) ≡ map (λ n. n / 16) ns
unfolding region_bytes show_bytes
region_bytes-show_bytes upper [] h = refl
region_bytes-show_bytes upper (n ∷ ns) (lt, h) =
    rw
      (
        hex_value-show_digit upper (n / 16) (omega arith),
        hex_value-show_digit upper (n % 16) (omega arith),
        region_bytes-show_bytes upper ns h,
      )
      (ap (λ x. x ∷ map (λ n. n / 16) ns) (omega arith))
