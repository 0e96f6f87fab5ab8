-- ===== src/Output/Grammar.antt =====
-- The grammar of src/mw/gdb/mi2/output.cpp over PEGTL's combinators. A rule's state is the object
-- that it fills and the thread-local `last_var_name`, which every `variable` sets, also in an
-- alternative that fails later.
pub mod Values
pub mod Records
pub mod Consumption
pub mod Fuel
pub mod LineRules
pub mod Errors
use mw_dbg_runner.Common.{
  ℕ, ◌-◌, Bytes, lit, List, [], ◌∷◌, ◌++◌, length, take, drop, ltb, ◌==◌, if◌then◌else◌,
}
use mw_dbg_runner.Output.{Entry, Value}
use mw_dbg_runner.Output.Boost.{Boost}
use mw_dbg_runner.Output.Pegtl.{Outcome, matched, failed, raised, PegRule}

abbrev pub State : Type 0 → Type 0
State T = T × Bytes

abbrev pub Rule : Type 0 → Type 0
Rule T = PegRule (State T)

module _ {T U : Type 0} where
  -- The rule runs on a part of the state, which is stored back whether it matches or not.
  abbrev pub refocus : (U → T) → Outcome (State U) → Outcome (State T)
  refocus put (matched (u, n) r) = matched (put u, n) r
  refocus put (failed (u, n)) = failed (put u, n)
  refocus put (raised e) = raised e

  -- `member<Rule, Ptr, ptr>`: the state is a field of the object.
  unfoldable pub member : (T → U) → (U → T → T) → Rule U → Rule T
  member get put a (t, n) i = refocus (λ u. put u t) (a (get t, n) i)

  -- `variant_elem<Rule, Type>`: a fresh object, moved into the variant.
  unfoldable pub variant_elem : U → (U → T) → Rule U → Rule T
  variant_elem fresh inject a (t, n) i = refocus inject (a (fresh, n) i)

-- `push_back<Rule>`: a fresh element, appended also if the rule fails.
unfoldable pub push_back : {U : Type 0} → U → Rule U → Rule (List U)
push_back fresh a (ts, n) i = refocus (λ u. ts ++ u ∷ []) (a (fresh, n) i)

-- What stands between the first and the last character.
abbrev pub inner : Bytes → Bytes
inner t = take (length t - 2) (drop 1 t)

-- The action of `cstring`: `\"` becomes `"`, and then `\\"` becomes `\"`.
unfoldable pub unquote : Boost → Bytes → Bytes
unquote b t =
    let replaced = b.replace_all (inner t) (92 ∷ b'"' ∷ []) (b'"' ∷ []) in
    if ltb 2 (length t) then b.replace_all replaced (92 ∷ 92 ∷ b'"' ∷ []) (92 ∷ b'"' ∷ []) else []

abbrev pub set_variable : Bytes → Entry → Entry
set_variable x e = record e { variable = x }

abbrev pub set_value : Value → Entry → Entry
set_value v e = record e { value_ = v }
