-- ===== src/Debug/Act.antt =====
-- Computations that change the state `W` of the whole program and may throw.
use mw_dbg_runner.Common.{◌≡◌, refl, ◌⊎◌, inl, inr, Bool, true, false, List, [], ◌∷◌}
use mw_dbg_runner.Error.{
  Error, Result, ok, err, invalid_argument, out_of_range, length_error, system_error, out_of_fuel,
  crashed,
}

-- The exceptions derived from `interpreter_error`.
unfoldable pub is_interpreter_error : Error → Bool
is_interpreter_error invalid_argument = false
is_interpreter_error out_of_range = false
is_interpreter_error length_error = false
is_interpreter_error system_error = false
is_interpreter_error out_of_fuel = false
is_interpreter_error crashed = false
is_interpreter_error _ = true

abbrev pub Act : Type 0 → Type 0 → Type 0
Act W A = W → Result A × W

module _ {W : Type 0} where
  abbrev pub give : {A : Type 0} → A → Act W A
  give a w = (ok a, w)

  abbrev pub throw : {A : Type 0} → Error → Act W A
  throw e w = (err e, w)

  -- A computation without state.
  abbrev pub from : {A : Type 0} → Result A → Act W A
  from r w = (r, w)

  abbrev pub continue : {A B : Type 0} → (A → Act W B) → Result A × W → Result B × W
  continue f (ok a, w) = f a w
  continue f (err e, w) = (err e, w)

  infixl 5 ◌>>=◌
  abbrev pub ◌>>=◌ : {A B : Type 0} → Act W A → (A → Act W B) → Act W B
  (m >>= f) w = continue f (m w)

  abbrev pub caught_by : {A : Type 0} → (Error → Act W A) → Result A × W → Result A × W
  caught_by handler (ok a, w) = (ok a, w)
  caught_by handler (err e, w) = handler e w

  -- `try { … } catch …`: the handler sees the state in which the exception was thrown.
  abbrev pub catching : {A : Type 0} → Act W A → (Error → Act W A) → Act W A
  catching m handler w = caught_by handler (m w)

  -- `for (auto & x : xs) f(x);`
  abbrev pub for_each : {A : Type 0} → (A → Act W (Unit {0})) → List A → Act W (Unit {0})
  for_each f [] = give tt
  for_each f (x ∷ xs) = do _ ← f x; for_each f xs

  -- A loop that appends f(x) for each x.
  abbrev pub for_all : {A B : Type 0} → (A → Act W B) → List A → Act W (List B)
  for_all f [] = give []
  for_all f (x ∷ xs) = do y ← f x; ys ← for_all f xs; give (y ∷ ys)

-- A computation has returned or thrown.
pub outcome_cases :
    {A W : Type 0} (r : Result A × W)
    → ((a : A) × (w : W) × (r ≡ (ok a, w))) ⊎ ((e : Error) × (w : W) × (r ≡ (err e, w)))
outcome_cases (ok a, w) = inl (a, w, refl)
outcome_cases (err e, w) = inr (e, w, refl)
