-- ===== src/Error.antt =====
-- The exceptions that the debugger driver throws (include/mw/gdb/mi2/interpreter_error.hpp,
-- types.hpp, interpreter.hpp), and computations that may throw one.
use mw_dbg_runner.Common.{ℕ, ◌≡◌, ◌≢◌, refl, Bool, true, false, Option, List, [], ◌∷◌, Bytes}

-- `enum class result_class` (include/mw/gdb/mi2/output.hpp)
pub data ResultClass : Type 0 where
  done running connected error exit : ResultClass

-- One constructor for each type of exception. `out_of_fuel` has no counterpart in the program;
-- `crashed` stands where the behaviour of the program is undefined (an index out of range, a null
-- pointer).
pub data Error : Type 0 where
  invalid_argument out_of_range length_error : Error
  parser_error unexpected_type : Error
  missing_value : Bytes → Error
  interpreter_error : Error
  unexpected_record : Bytes → Error
  unexpected_async_record : ℕ → Bytes → Error
  mismatched_token : ℕ → ℕ → Error
  unexpected_result_class : ResultClass → ResultClass → Bytes → Error
  exception : Bytes → Option Bytes → Error
  system_error : Error
  out_of_fuel crashed : Error

pub data Result {ℓ} (A : Type ℓ) : Type ℓ where
  ok : A → Result A
  err : Error → Result A

module _ {ℓ κ} {A : Type ℓ} {B : Type κ} where
  infixl 5 ◌>>=◌
  abbrev pub ◌>>=◌ : Result A → (A → Result B) → Result B
  err thrown >>= next = err thrown
  ok value >>= next = next value

  -- Where a sequence returns, its first part returned.
  pub >>=-eq-ok :
      (first : Result A) (next : A → Result B) {last : B}
      → (first >>= next) ≡ ok last
      → (middle : A) × (first ≡ ok middle) × (next middle ≡ ok last)
  >>=-eq-ok (err thrown) next returned = cc
  >>=-eq-ok (ok value) next returned = (value, refl, returned)

-- `if (!test) throw thrown;`
abbrev pub guard : (test : Bool) (thrown : Error) → Result (Unit {0})
guard false thrown = err thrown
guard true thrown = ok tt

-- `std::transform`, or a loop of `push_back`, with a function that may throw.
abbrev pub traverse {ℓ κ} : {A : Type ℓ} {B : Type κ} → (A → Result B) → List A → Result (List B)
traverse f [] = ok []
traverse f (x ∷ xs) = do y ← f x; ys ← traverse f xs; ok (y ∷ ys)

-- The computation does not return a value.
abbrev pub Throws {ℓ} : {A : Type ℓ} → Result A → Type 0
Throws (ok a) = ⊥
Throws (err e) = Unit

pub ok-inj {ℓ} : {A : Type ℓ} {a b : A} → ok a ≡ ok b → a ≡ b
ok-inj h = cc

pub never-Throws {ℓ} : {A : Type ℓ} (m : Result A) → ((a : A) → m ≢ ok a) → Throws m
never-Throws (ok a) h = h a refl
never-Throws (err e) h = tt
