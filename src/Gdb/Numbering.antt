-- ===== src/Gdb/Numbering.antt =====
-- `_break_point_map`, a `std::map` from the numbers that gdb gave to the break points
-- (include/mw/gdb/process.hpp), as the list of its entries in the order of the numbers.
use mw_dbg_runner.Common.{
  ℕ, ◌==◌, List, [], ◌∷◌, Option, none, some, if◌then◌else◌, ℤ, int_eq, int_lt,
}

-- `_break_point_map[num] = bp`
unfoldable pub insert : ℤ → ℕ → List (ℤ × ℕ) → List (ℤ × ℕ)
insert num bp [] = (num, bp) ∷ []
insert num bp ((k, q) ∷ rest) =
    let later = insert num bp rest in
    if int_eq num k
    then (num, bp) ∷ rest
    else if int_lt num k
    then (num, bp) ∷ (k, q) ∷ rest
    else (k, q) ∷ later

-- `_break_point_map[num]`; `none` stands for the null pointer that a missing number yields.
unfoldable pub lookup : ℤ → List (ℤ × ℕ) → Option ℕ
lookup num [] = none
lookup num ((k, q) ∷ rest) = if int_eq num k then some q else lookup num rest

-- `std::find_if` over the map for a break point.
unfoldable pub number_of : ℕ → List (ℤ × ℕ) → Option ℤ
number_of bp [] = none
number_of bp ((num, q) ∷ rest) = if q == bp then some num else number_of bp rest
