-- ===== src/Output/Boost.antt =====
-- What the sources use of Boost's string algorithms, as an interface with the documented laws.
use mw_dbg_runner.Common.{
  ℕ, zero, suc, ◌≤◌, ◌≡◌, refl, ◌≢◌, arith, Bool, false, [], ◌∷◌, ◌++◌, length, drop, Bytes,
  has_prefix, has_prefix-append, length-append, length-drop-le, ap, if◌then◌else◌,
}

pub record Boost : Type 0 where
  -- `boost::replace_all(input, search, format)` from left to right, for a search text that is not
  -- empty.
  pub replace_all : Bytes → Bytes → Bytes → Bytes
  pub starts_with : Bytes → Bytes → Bool
  pub replace_all-nil : (p f : Bytes) → replace_all [] p f ≡ []
  pub replace_all-miss :
      (c : ℕ) (s p f : Bytes)
      → has_prefix p (c ∷ s) ≡ false
      → replace_all (c ∷ s) p f ≡ c ∷ replace_all s p f
  pub replace_all-hit : (s p f : Bytes) → p ≢ [] → replace_all (p ++ s) p f ≡ f ++ replace_all s p f
  pub starts_with_lem : (s p : Bytes) → starts_with s p ≡ has_prefix p s

-- With fuel for each character of the input.
unfoldable pub replace_fuel : ℕ → Bytes → Bytes → Bytes → Bytes
replace_fuel zero s p f = []
replace_fuel (suc n) [] p f = []
replace_fuel (suc n) (c ∷ s) p f =
    let hit = f ++ replace_fuel n (drop (length p) (c ∷ s)) p f in
    let miss = c ∷ replace_fuel n s p f in if has_prefix p (c ∷ s) then hit else miss

unfoldable pub replace : Bytes → Bytes → Bytes → Bytes
unfolding replace_fuel
replace s p f = replace_fuel (length s) s p f

replace_fuel_any :
    (n m : ℕ) (s : Bytes) (q : ℕ) (p f : Bytes)
    → length s ≤ n
    → length s ≤ m
    → replace_fuel n s (q ∷ p) f ≡ replace_fuel m s (q ∷ p) f
unfolding replace_fuel
replace_fuel_any zero zero s q p f h k = refl
replace_fuel_any zero (suc m) [] q p f h k = refl
replace_fuel_any (suc n) zero [] q p f h k = refl
replace_fuel_any zero (suc m) (c ∷ s) q p f h k = absurd (omega arith)
replace_fuel_any (suc n) zero (c ∷ s) q p f h k = absurd (omega arith)
replace_fuel_any (suc n) (suc m) [] q p f h k = refl
replace_fuel_any (suc n) (suc m) (c ∷ s) q p f h k =
    let shorter = length-drop-le (length p) s in
    rw (
      replace_fuel_any n m s q p f (omega arith) (omega arith),
      replace_fuel_any n m (drop (length p) s) q p f (omega arith) (omega arith),
    )

pub replace-miss :
    (c : ℕ) (s p f : Bytes) → has_prefix p (c ∷ s) ≡ false → replace (c ∷ s) p f ≡ c ∷ replace s p f
unfolding replace has_prefix
replace-miss c s [] f h = cc
replace-miss c s (q ∷ p) f h = rw h

drop-append : (p s : Bytes) → drop (length p) (p ++ s) ≡ s
drop-append [] s = refl
drop-append (c ∷ p) s = drop-append p s

pub replace-hit : (s p f : Bytes) → p ≢ [] → replace (p ++ s) p f ≡ f ++ replace s p f
unfolding replace
replace-hit s [] f h = absurd (h refl)
replace-hit s (q ∷ p) f h =
    rw (has_prefix-append (q ∷ p) s, drop-append p s)
      (ap (◌++◌ f) (replace_fuel_any _ _ s q p f (omega (arith, length-append p s)) (omega arith)))

unfoldable pub boost : Boost
unfolding replace
boost = record {
  replace_all = replace;
  starts_with = λ s p. has_prefix p s;
  replace_all-nil = λ p f. refl;
  replace_all-miss = replace-miss;
  replace_all-hit = replace-hit;
  starts_with_lem = λ s p. refl;
}
