-- ===== src/Types/Access.antt =====
-- The expressions that the `parse_result` functions are made of: a result by its name, required or
-- optional, read as text or as a number.
use mw_dbg_runner.Common.{
  ℕ, ◌-◌, Option, none, some, Bytes, lit, bytes_eq, List, ℤ, pos, negsuc, Bool,
}
use mw_dbg_runner.Error.{Result, ok, err, ◌>>=◌, traverse}
use mw_dbg_runner.Numbers.{decimal, hexadecimal, stoi, my_stoull, u64_mod}
use mw_dbg_runner.Output.{Entry, Value, as_string, as_tuple, as_list, as_values, as_results}
use mw_dbg_runner.Types.{find, find_if}

-- `find(r, id).as_string()`
abbrev pub string_at : List Entry → Bytes → Result Bytes
string_at r id = find r id >>= as_string

-- `std::stoi(find(r, id).as_string())`
abbrev pub int_at : List Entry → Bytes → Result ℤ
int_at r id = string_at r id >>= stoi decimal

-- `my_stoull(find(r, id).as_string(), nullptr, 16)`
abbrev pub hex_at : List Entry → Bytes → Result ℕ
hex_at r id = string_at r id >>= my_stoull hexadecimal

-- `my_stoull(find(r, id).as_string())`
abbrev pub size_at : List Entry → Bytes → Result ℕ
size_at r id = string_at r id >>= my_stoull decimal

module _ {A : Type 0} where
  abbrev some_result : Result A → Result (Option A)
  some_result (ok a) = ok (some a)
  some_result (err e) = err e

  -- `if (auto v = find_if(r, id)) … f(*v)`
  abbrev pub when_found : Option Value → (Value → Result A) → Result (Option A)
  when_found none f = ok none
  when_found (some v) f = some_result (f v)

abbrev pub string_if : List Entry → Bytes → Result (Option Bytes)
string_if r id = when_found (find_if r id) as_string

abbrev pub int_if : List Entry → Bytes → Result (Option ℤ)
int_if r id = when_found (find_if r id) λ v. as_string v >>= stoi decimal

abbrev pub hex_if : List Entry → Bytes → Result (Option ℕ)
hex_if r id = when_found (find_if r id) λ v. as_string v >>= my_stoull hexadecimal

abbrev pub size_if : List Entry → Bytes → Result (Option ℕ)
size_if r id = when_found (find_if r id) λ v. as_string v >>= my_stoull decimal

abbrev pub flag_if : List Entry → Bytes → (Bytes → Bool) → Result (Option Bool)
flag_if r id test = when_found (find_if r id) λ v. do s ← as_string v; ok (test s)

-- `v.as_list().as_values()` and `v.as_list().as_results()`
abbrev pub values_of : Value → Result (List Value)
values_of v = as_list v >>= as_values

abbrev pub results_of : Value → Result (List Entry)
results_of v = as_list v >>= as_results

-- An `int` stored in a `std::size_t`.
abbrev pub to_size : ℤ → ℕ
to_size (pos n) = n
to_size (negsuc n) = u64_mod - 1 - n

abbrev pub is_some {ℓ} : {A : Type ℓ} → Option A → Bool
is_some none = Bool.false
is_some (some a) = Bool.true

-- `static_cast<bool>(find_if(r, id))`
abbrev pub has : List Entry → Bytes → Bool
has r id = is_some (find_if r id)

abbrev pub or_empty {ℓ} : {A : Type ℓ} → Option (List A) → List A
or_empty none = List.[]
or_empty (some l) = l

-- `s == "1"`
abbrev pub is_one : Bytes → Bool
is_one s = bytes_eq s (lit "1")

-- A list of tuples, each read by `parse_result`.
abbrev pub tuples_of {ℓ} : {A : Type ℓ} → (List Entry → Result A) → Value → Result (List A)
tuples_of f v = do vs ← values_of v; traverse (λ x. as_tuple x >>= f) vs
