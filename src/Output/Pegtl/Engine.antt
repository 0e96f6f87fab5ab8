-- ===== src/Output/Pegtl/Engine.antt =====
-- A PEGTL by the documented behaviour, for runs at concrete input. A repetition takes as many
-- rounds as there are characters left, and one.
use mw_dbg_runner.Common.{
  ℕ, zero, suc, ◌<◌, ◌≡◌, refl, arith, Bytes, length, drop, has_prefix, if◌then◌else◌,
}
use mw_dbg_runner.Error.{out_of_fuel}
use mw_dbg_runner.Output.Pegtl.{
  Outcome, matched, failed, raised, PegRule, and_then, or_else, optional, round, one_char, at_end,
  with_action, Shorter, Consumes, one_of, in_ranges, is_not, Pegtl,
}

module _ {S : Type 0} where
  unfoldable pub star_fuel : ℕ → PegRule S → PegRule S
  star_fuel zero a s i = raised out_of_fuel
  star_fuel (suc n) a s i = round (a s i) (star_fuel n a) i

  unfoldable pub star : PegRule S → PegRule S
  unfolding star_fuel
  star a s i = star_fuel (suc (length i)) a s i

  round-cong :
      (o : Outcome S) (f g : PegRule S) (i : Bytes)
      → Shorter i o
      → ((s : S) (r : Bytes) → length r < length i → f s r ≡ g s r)
      → round o f i ≡ round o g i
  round-cong (matched s r) f g i h k = k s r h
  round-cong (failed s) f g i h k = refl
  round-cong (raised e) f g i h k = refl

  star_fuel_any :
      (n m : ℕ) (a : PegRule S) (s : S) (i : Bytes)
      → Consumes a
      → length i < n
      → length i < m
      → star_fuel n a s i ≡ star_fuel m a s i
  unfolding star_fuel
  star_fuel_any zero m a s i c h k = absurd (omega arith)
  star_fuel_any (suc n) zero a s i c h k = absurd (omega arith)
  star_fuel_any (suc n) (suc m) a s i c h k =
      round-cong (a s i) (star_fuel n a) (star_fuel m a) i (c s i)
        λ s' r lt. star_fuel_any n m a s' r c (omega arith) (omega arith)

  pub star_step :
      (a : PegRule S) (s : S) (i : Bytes) → Consumes a → star a s i ≡ round (a s i) (star a) i
  unfolding star star_fuel
  star_step a s i c =
      round-cong (a s i) (star_fuel (length i) a) (λ s' r. star_fuel (suc (length r)) a s' r) i
        (c s i) λ s' r lt. star_fuel_any (length i) (suc (length r)) a s' r c lt (omega arith)

unfoldable pub seq : {S : Type 0} → PegRule S → PegRule S → PegRule S
seq a b s i = and_then (a s i) b

unfoldable pub engine : Pegtl
unfolding star seq
engine = record {
  success = λ S s i. matched s i;
  eof = λ S. at_end;
  one = λ S cs. one_char (one_of cs);
  not_one = λ S d. one_char (is_not d);
  ranges = λ S rs. one_char (in_ranges rs);
  string = λ S p s i. if has_prefix p i then matched s (drop (length p) i) else failed s;
  seq = λ S. seq;
  sor = λ S a b s i. or_else (a s i) b i;
  opt = λ S a s i. optional (a s i) i;
  star = λ S. star;
  plus = λ S a. seq a (star a);
  list = λ S a d. seq a (star (seq d a));
  act = λ S f a s i. with_action f i (a s i);
  success_lem = λ S s i. refl;
  eof_lem = λ S s i. refl;
  one_lem = λ S cs s i. refl;
  not_one_lem = λ S d s i. refl;
  ranges_lem = λ S rs s i. refl;
  string_lem = λ S p s i. refl;
  seq_lem = λ S a b s i. refl;
  sor_lem = λ S a b s i. refl;
  opt_lem = λ S a s i. refl;
  star_lem = λ S a s i c. star_step a s i c;
  plus_lem = λ S a s i. refl;
  list_lem = λ S a d s i. refl;
  act_lem = λ S f a s i. refl;
}
