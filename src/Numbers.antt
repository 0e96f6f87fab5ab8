-- ===== src/Numbers.antt =====
-- The number conversions of the C++ library as the sources use them: `std::stoi`, `stoul`,
-- `stoull`, `stoll` at the bases 8, 10 and 16, and `std::to_string`. `int` has 32 bits,
-- `long`, `size_t` and `long long` have 64.
pub mod RoundTrip
use mw_dbg_runner.Common.{
  ℕ, zero, suc, ◌+◌, ◌-◌, ◌/◌, ◌%◌, ◌*◌, ◌^◌, ◌≡◌, refl, Bool, true, false, ◌&&◌, ◌||◌, Option,
  none, some, [], ◌∷◌, ltb, leb, ◌==◌, if◌then◌else◌, Bytes, codes, ℤ, pos, negsuc, neg, neg,
}
use mw_dbg_runner.Error.{Result, ok, err, invalid_argument, out_of_range, parser_error}

pub data Base : Type 0 where
  octal decimal hexadecimal : Base

abbrev pub radix : Base → ℕ
radix octal = 8
radix decimal = 10
radix hexadecimal = 16

abbrev pub is_space : ℕ → Bool
is_space c = (c == 32) || (leb 9 c && leb c 13)

-- What a character stands for as a digit of base 36; 36 if it is none.
unfoldable pub digit_value : ℕ → ℕ
digit_value c =
    if leb b'0' c && leb c b'9'
    then c - 48
    else if leb b'a' c && leb c b'z'
    then c - 87
    else if leb b'A' c && leb c b'Z'
    then c - 55
    else 36

abbrev pub is_digit : Base → ℕ → Bool
is_digit b c = ltb (digit_value c) (radix b)

unfoldable pub skip_space : Bytes → Bytes
skip_space [] = []
skip_space (c ∷ s) = if is_space c then skip_space s else c ∷ s

-- Digits up to the first character that is none.
unfoldable pub scan : Base → ℕ → Bytes → ℕ
scan b acc [] = acc
scan b acc (c ∷ s) =
    let rest = scan b (acc * radix b + digit_value c) s in if is_digit b c then rest else acc

unfoldable pub starts_digit : Base → Bytes → Bool
starts_digit b [] = false
starts_digit b (c ∷ s) = is_digit b c

-- `0x` is skipped at base 16 if a digit follows.
unfoldable pub skip_prefix : Base → Bytes → Bytes
skip_prefix hexadecimal (z ∷ x ∷ s) =
    if (z == b'0') && ((x == b'x') || (x == b'X')) && starts_digit hexadecimal s
    then s
    else z ∷ x ∷ s
skip_prefix b s = s

unfoldable pub skip_sign : Bytes → Bool × Bytes
skip_sign [] = (false, [])
skip_sign (c ∷ s) =
    if c == b'-' then (true, s) else if c == b'+' then (false, s) else (false, c ∷ s)

-- `strtol` and its kin: a sign and a magnitude, unless there is no digit.
unfoldable pub strto : Base → Bytes → Option (Bool × ℕ)
strto b s =
    let signed = skip_sign (skip_space s) in
    let body = skip_prefix b signed.1 in
    if starts_digit b body then some (signed.0, scan b 0 body) else none

abbrev pub int_limit : ℕ
int_limit = 2 ^ 31

abbrev pub u64_mod : ℕ
u64_mod = 2 ^ 64

-- A signed value within -limit and limit - 1.
abbrev signed_within : ℕ → Option (Bool × ℕ) → Result ℤ
signed_within limit none = err invalid_argument
signed_within limit (some (true, m)) = if leb m limit then ok (neg m) else err out_of_range
signed_within limit (some (false, m)) = if ltb m limit then ok (pos m) else err out_of_range

-- A negative value wraps around.
abbrev unsigned_within : Option (Bool × ℕ) → Result ℕ
unsigned_within none = err invalid_argument
unsigned_within (some (true, m)) =
    if ltb m u64_mod then ok ((u64_mod - m) % u64_mod) else err out_of_range
unsigned_within (some (false, m)) = if ltb m u64_mod then ok m else err out_of_range

-- The value alone; 0 if there is no digit (`std::atoi`).
abbrev pub neg_or_pos : Option (Bool × ℕ) → ℤ
neg_or_pos none = pos 0
neg_or_pos (some (true, m)) = neg m
neg_or_pos (some (false, m)) = pos m

unfoldable pub stoi : Base → Bytes → Result ℤ
stoi b s = signed_within int_limit (strto b s)

unfoldable pub stoll : Bytes → Result ℤ
stoll s = signed_within (2 ^ 63) (strto decimal s)

unfoldable pub stoull : Base → Bytes → Result ℕ
stoull b s = unsigned_within (strto b s)

-- The two `catch` clauses.
abbrev pub as_parser_error : Result ℕ → Result ℕ
as_parser_error (ok n) = ok n
as_parser_error (err e) = err parser_error

-- `my_stoull`: both exceptions become a `parser_error`.
unfoldable pub my_stoull : Base → Bytes → Result ℕ
my_stoull b s = as_parser_error (stoull b s)

abbrev pub digit_char : ℕ → ℕ
digit_char d = if ltb d 10 then 48 + d else 87 + d

-- The digits of `n`, in front of `out`; `n + 1` rounds are enough.
unfoldable pub print : Base → ℕ → ℕ → Bytes → Bytes
print b zero n out = out
print b (suc f) n out =
    let shown = digit_char (n % radix b) ∷ out in
    let rest = print b f (n / radix b) shown in if ltb n (radix b) then shown else rest

-- `std::to_string` of an unsigned number, and the stream with `std::hex` at base 16.
unfoldable pub to_string : Base → ℕ → Bytes
unfolding print
to_string b n = print b (n + 1) n []

-- `std::to_string(int)`
unfoldable pub int_to_string : ℤ → Bytes
unfolding to_string
int_to_string (pos n) = to_string decimal n
int_to_string (negsuc n) = b'-' ∷ to_string decimal (n + 1)

stoi_tests :
    (stoi decimal (codes " -12x") ≡ ok (negsuc 11))
    × (stoi decimal (codes "x") ≡ err invalid_argument)
    × (stoi decimal (codes "2147483648") ≡ err out_of_range)
    × (stoi octal (codes "017") ≡ ok (pos 15))
unfolding stoi strto digit_value skip_space skip_sign skip_prefix starts_digit scan
stoi_tests = (refl, refl, refl, refl)

stoull_tests :
    (stoull hexadecimal (codes "0x1F") ≡ ok 31)
    × (stoull hexadecimal (codes "0xg") ≡ ok 0)
    × (my_stoull decimal (codes "") ≡ err parser_error)
unfolding stoull my_stoull strto digit_value skip_space skip_sign skip_prefix starts_digit scan
stoull_tests = (refl, refl, refl)

to_string_tests :
    (int_to_string (negsuc 41) ≡ codes "-42") × (to_string hexadecimal 0x08048564 ≡ codes "8048564")
unfolding int_to_string to_string
to_string_tests = (refl, refl)
