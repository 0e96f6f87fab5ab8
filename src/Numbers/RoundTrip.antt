-- ===== src/Numbers/RoundTrip.antt =====
-- A number that was printed is read back, at every base.
use mw_dbg_runner.Common.{
  All, ℕ, zero, suc, ◌+◌, ◌*◌, ◌/◌, ◌%◌, ◌<◌, ◌≤◌, ◌≡◌, refl, ◌∙◌, true, false, some, [], ◌∷◌,
  arith, Bytes, Bool-cases, inl, inr, ltb, ℤ, pos, negsuc,
}
use mw_dbg_runner.Error.{ok}
use mw_dbg_runner.Numbers.{
  Base, octal, decimal, hexadecimal, radix, digit_value, scan, digit_char, print, to_string,
  int_to_string, skip_space, skip_sign, skip_prefix, starts_digit, strto, stoi, stoull, my_stoull,
  u64_mod, int_limit,
}

digit_value-digit_char : (d : ℕ) → d < 16 → digit_value (digit_char d) ≡ d
unfolding digit_value
digit_value-digit_char d h = ground arith

mod-lt_radix : (b : Base) (n : ℕ) → n % radix b < radix b
mod-lt_radix octal n = omega arith
mod-lt_radix decimal n = omega arith
mod-lt_radix hexadecimal n = omega arith

radix-le : (b : Base) → radix b ≤ 16
radix-le octal = omega arith
radix-le decimal = omega arith
radix-le hexadecimal = omega arith

div_mod_radix : (b : Base) (n : ℕ) → n / radix b * radix b + n % radix b ≡ n
div_mod_radix octal n = omega arith
div_mod_radix decimal n = omega arith
div_mod_radix hexadecimal n = omega arith

div_lt : (b : Base) (n f : ℕ) → n < suc f → ltb n (radix b) ≡ false → n / radix b < f
div_lt octal n f h k = ground arith
div_lt decimal n f h k = ground arith
div_lt hexadecimal n f h k = ground arith

small_mod : (b : Base) (n : ℕ) → ltb n (radix b) ≡ true → n % radix b ≡ n
small_mod octal n h = ground arith
small_mod decimal n h = ground arith
small_mod hexadecimal n h = ground arith

last_digit : (b : Base) (n : ℕ) → digit_value (digit_char (n % radix b)) ≡ n % radix b
last_digit b n = digit_value-digit_char _ (omega (arith, mod-lt_radix b n, radix-le b))

scan_digit :
    (b : Base) (acc n : ℕ) (out : Bytes)
    → scan b acc (digit_char (n % radix b) ∷ out) ≡ scan b (acc * radix b + n % radix b) out
unfolding scan
scan_digit b acc n out = rw (last_digit b n) (ground (arith, mod-lt_radix b n))

scan-print : (b : Base) (f n : ℕ) (out : Bytes) → n < f → scan b 0 (print b f n out) ≡ scan b n out
unfolding print
scan-print b zero n out h = absurd (omega arith)
scan-print b (suc f) n out h = elim (Bool-cases (ltb n (radix b))) [
  | inl small ↦ rw (small, scan_digit b 0 n out, small_mod b n small) (ground arith)
  | inr large ↦ rw large (
      scan-print b f (n / radix b) (digit_char (n % radix b) ∷ out) (div_lt b n f h large)
      ∙ scan_digit b (n / radix b) n out
      ∙ rw (div_mod_radix b n) refl)
]

-- The text begins with a digit of the base.
abbrev Shows : Base → Bytes → Type 0
Shows b s = (d : ℕ) × (t : Bytes) × (d < radix b) × (s ≡ digit_char d ∷ t)

print-Shows : (b : Base) (f n : ℕ) (out : Bytes) → n < f → Shows b (print b f n out)
unfolding print
print-Shows b zero n out h = absurd (omega arith)
print-Shows b (suc f) n out h = elim (Bool-cases (ltb n (radix b))) [
  | inl small ↦ (n % radix b, out, mod-lt_radix b n, rw small)
  | inr large ↦
      rw large
        (print-Shows b f (n / radix b) (digit_char (n % radix b) ∷ out) (div_lt b n f h large))
]

to_string-Shows : (b : Base) (n : ℕ) → Shows b (to_string b n)
unfolding to_string
to_string-Shows b n = print-Shows b (n + 1) n [] (omega arith)

scan-to_string : (b : Base) (n : ℕ) → scan b 0 (to_string b n) ≡ n
unfolding to_string scan
scan-to_string b n = scan-print b (n + 1) n [] (omega arith)

starts-Shows : (b : Base) (s : Bytes) → Shows b s → starts_digit b s ≡ true
unfolding starts_digit
starts-Shows b s (d, t, small, e) =
    rw (e, digit_value-digit_char d (omega (arith, radix-le b))) (ground arith)

unsigned-Shows : (s : Bytes) → Shows decimal s → skip_sign (skip_space s) ≡ (false, s)
unfolding skip_sign skip_space
unsigned-Shows s (d, t, small, e) = rw e (ground arith)

strto-digits : (s : Bytes) → Shows decimal s → strto decimal s ≡ some (false, scan decimal 0 s)
unfolding strto skip_prefix
strto-digits s h = rw (unsigned-Shows s h, starts-Shows decimal s h)

strto-minus :
    (s : Bytes) → Shows decimal s → strto decimal (b'-' ∷ s) ≡ some (true, scan decimal 0 s)
unfolding strto skip_prefix skip_space skip_sign
strto-minus s h = rw (starts-Shows decimal s h)

my_stoull-positive :
    (b : Base) (s : Bytes) (n : ℕ)
    → n < u64_mod
    → strto b s ≡ some (false, n)
    → my_stoull b s ≡ ok n
unfolding my_stoull stoull
my_stoull-positive b s n h e = ground arith

-- Every number below 2^64 is read back from its decimal print.
pub my_stoull-to_string : (n : ℕ) → n < u64_mod → my_stoull decimal (to_string decimal n) ≡ ok n
my_stoull-to_string n h =
    my_stoull-positive decimal _ n h
      (rw (strto-digits _ (to_string-Shows decimal n), scan-to_string decimal n))

-- The range of `int`.
abbrev pub IsInt : ℤ → Type 0
IsInt (pos n) = n < int_limit
IsInt (negsuc n) = n < int_limit

-- Every `int` is read back from its decimal print.
pub stoi-int_to_string : (z : ℤ) → IsInt z → stoi decimal (int_to_string z) ≡ ok z
unfolding stoi int_to_string
stoi-int_to_string (pos n) h =
    rw (strto-digits _ (to_string-Shows decimal n), scan-to_string decimal n) (ground arith)
stoi-int_to_string (negsuc n) h =
    rw (strto-minus _ (to_string-Shows decimal (n + 1)), scan-to_string decimal (n + 1))
      (ground arith)

digit_char-between : (n : ℕ) → (b'0' ≤ digit_char (n % 10)) × (digit_char (n % 10) ≤ b'9')
digit_char-between n = ground arith

print-digits :
    (f n : ℕ) (out : Bytes)
    → All (λ c. (b'0' ≤ c) × (c ≤ b'9')) out
    → All (λ c. (b'0' ≤ c) × (c ≤ b'9')) (print decimal f n out)
unfolding print
print-digits zero n out h = h
print-digits (suc f) n out h = elim (Bool-cases (ltb n 10)) [
  | inl small ↦ rw small (digit_char-between n, h)
  | inr large ↦ rw large (print-digits f (n / 10) _ (digit_char-between n, h))
]

-- A decimal print consists of digits, and is not empty.
pub to_string-digits : (n : ℕ) → All (λ c. (b'0' ≤ c) × (c ≤ b'9')) (to_string decimal n)
unfolding to_string
to_string-digits n = print-digits (n + 1) n [] tt

pub to_string-cons : (n : ℕ) → (d : ℕ) × (t : Bytes) × (to_string decimal n ≡ d ∷ t)
to_string-cons n = let (d, t, small, e) = to_string-Shows decimal n in (digit_char d, t, e)
