-- ===== src/Output/Pegtl/Consumption.antt =====
-- How much input the combinators use up: what lets a repetition end.
use mw_dbg_runner.Common.{
  ℕ, zero, suc, ◌≤◌, ◌<◌, arith, Bool, Bytes, [], ◌∷◌, length, drop, length-drop-le, has_prefix,
  if◌then◌else◌, Bool-cases, inl, inr,
}
use mw_dbg_runner.Output.Pegtl.{
  Outcome, matched, failed, raised, PegRule, and_then, or_else, optional, round, one_char, one_of,
  in_ranges, is_not, with_action, Shorter, Consumes, Pegtl,
}

-- The rest is no longer than the input.
abbrev pub AtMost : {S : Type 0} → Bytes → Outcome S → Type 0
AtMost i (matched s r) = length r ≤ length i
AtMost i (failed s) = Unit
AtMost i (raised e) = Unit

abbrev pub Keeps : {S : Type 0} → PegRule S → Type 0
Keeps {S} a = (s : S) (i : Bytes) → AtMost i (a s i)

module _ {S : Type 0} where
  AtMost-of_Shorter : (i : Bytes) (o : Outcome S) → Shorter i o → AtMost i o
  AtMost-of_Shorter i (matched s r) h = omega arith
  AtMost-of_Shorter i (failed s) h = tt
  AtMost-of_Shorter i (raised e) h = tt

  pub Keeps-of_Consumes : (a : PegRule S) → Consumes a → Keeps a
  Keeps-of_Consumes a c s i = AtMost-of_Shorter i (a s i) (c s i)

  AtMost-le : (i j : Bytes) (o : Outcome S) → length i ≤ length j → AtMost i o → AtMost j o
  AtMost-le i j (matched s r) h k = omega arith
  AtMost-le i j (failed s) h k = tt
  AtMost-le i j (raised e) h k = tt

  Shorter-lt : (i j : Bytes) (o : Outcome S) → length i < length j → AtMost i o → Shorter j o
  Shorter-lt i j (matched s r) h k = omega arith
  Shorter-lt i j (failed s) h k = tt
  Shorter-lt i j (raised e) h k = tt

  Shorter-le : (i j : Bytes) (o : Outcome S) → length i ≤ length j → Shorter i o → Shorter j o
  Shorter-le i j (matched s r) h k = omega arith
  Shorter-le i j (failed s) h k = tt
  Shorter-le i j (raised e) h k = tt

  and_then-AtMost :
      (i : Bytes) (o : Outcome S) (b : PegRule S) → AtMost i o → Keeps b → AtMost i (and_then o b)
  and_then-AtMost i (matched s r) b h k = AtMost-le r i (b s r) h (k s r)
  and_then-AtMost i (failed s) b h k = tt
  and_then-AtMost i (raised e) b h k = tt

  and_then-Shorter :
      (i : Bytes) (o : Outcome S) (b : PegRule S) → Shorter i o → Keeps b → Shorter i (and_then o b)
  and_then-Shorter i (matched s r) b h k = Shorter-lt r i (b s r) h (k s r)
  and_then-Shorter i (failed s) b h k = tt
  and_then-Shorter i (raised e) b h k = tt

  and_then-Shorter_right :
      (i : Bytes) (o : Outcome S) (b : PegRule S)
      → AtMost i o
      → Consumes b
      → Shorter i (and_then o b)
  and_then-Shorter_right i (matched s r) b h k = Shorter-le r i (b s r) h (k s r)
  and_then-Shorter_right i (failed s) b h k = tt
  and_then-Shorter_right i (raised e) b h k = tt

  or_else-Shorter :
      (i : Bytes) (o : Outcome S) (b : PegRule S)
      → Shorter i o
      → Consumes b
      → Shorter i (or_else o b i)
  or_else-Shorter i (matched s r) b h k = h
  or_else-Shorter i (failed s) b h k = k s i
  or_else-Shorter i (raised e) b h k = tt

  optional-AtMost : (i : Bytes) (o : Outcome S) → AtMost i o → AtMost i (optional o i)
  optional-AtMost i (matched s r) h = h
  optional-AtMost i (failed s) h = omega arith
  optional-AtMost i (raised e) h = tt

  with_action-Shorter :
      (f : Bytes → S → S) (i : Bytes) (o : Outcome S) → Shorter i o → Shorter i (with_action f i o)
  with_action-Shorter f i (matched s r) h = h
  with_action-Shorter f i (failed s) h = tt
  with_action-Shorter f i (raised e) h = tt

  with_action-AtMost :
      (f : Bytes → S → S) (i : Bytes) (o : Outcome S) → AtMost i o → AtMost i (with_action f i o)
  with_action-AtMost f i (matched s r) h = h
  with_action-AtMost f i (failed s) h = tt
  with_action-AtMost f i (raised e) h = tt

  one_char-Consumes : (q : ℕ → Bool) → Consumes {S = S} (one_char q)
  one_char-Consumes q s [] = tt
  one_char-Consumes q s (c ∷ i) = elim (Bool-cases (q c)) [
    | inl e ↦ rw e (omega arith)
    | inr e ↦ rw e tt
  ]

  round-AtMost :
      (i : Bytes) (o : Outcome S) (again : PegRule S)
      → Shorter i o
      → ((s : S) (r : Bytes) → length r < length i → AtMost r (again s r))
      → AtMost i (round o again i)
  round-AtMost i (matched s r) again h k = AtMost-le r i (again s r) (omega arith) (k s r h)
  round-AtMost i (failed s) again h k = omega arith
  round-AtMost i (raised e) again h k = tt

  prefix-Shorter :
      (c : ℕ) (w : Bytes) (s : S) (i : Bytes)
      → Shorter i (if has_prefix (c ∷ w) i then matched s (drop (suc (length w)) i) else failed s)
  unfolding has_prefix
  prefix-Shorter c w s [] = tt
  prefix-Shorter c w s (d ∷ i) = elim (Bool-cases (has_prefix (c ∷ w) (d ∷ i))) [
    | inl e ↦ rw e (omega (arith, length-drop-le (length w) i))
    | inr e ↦ rw e tt
  ]

module _ (p : Pegtl) {S : Type 0} where
  pub one-Consumes : (cs : Bytes) → Consumes (p.one S cs)
  one-Consumes cs s i = rw (p.one_lem S cs s i) (one_char-Consumes (one_of cs) s i)

  pub not_one-Consumes : (c : ℕ) → Consumes (p.not_one S c)
  not_one-Consumes c s i = rw (p.not_one_lem S c s i) (one_char-Consumes (is_not c) s i)

  pub ranges-Consumes : (rs : _) → Consumes (p.ranges S rs)
  ranges-Consumes rs s i = rw (p.ranges_lem S rs s i) (one_char-Consumes (in_ranges rs) s i)

  pub string-Consumes : (c : ℕ) (w : Bytes) → Consumes (p.string S (c ∷ w))
  string-Consumes c w s i = rw (p.string_lem S (c ∷ w) s i) (prefix-Shorter c w s i)

  pub success-Keeps : Keeps (p.success S)
  success-Keeps s i = rw (p.success_lem S s i) (omega arith)

  pub eof-Keeps : Keeps (p.eof S)
  eof-Keeps s [] = rw (p.eof_lem S s []) (omega arith)
  eof-Keeps s (c ∷ i) = rw (p.eof_lem S s (c ∷ i)) tt

  pub seq-Keeps : (a b : PegRule S) → Keeps a → Keeps b → Keeps (p.seq S a b)
  seq-Keeps a b h k s i = rw (p.seq_lem S a b s i) (and_then-AtMost i (a s i) b (h s i) k)

  pub seq-Consumes : (a b : PegRule S) → Consumes a → Keeps b → Consumes (p.seq S a b)
  seq-Consumes a b h k s i = rw (p.seq_lem S a b s i) (and_then-Shorter i (a s i) b (h s i) k)

  pub seq-Consumes_right : (a b : PegRule S) → Keeps a → Consumes b → Consumes (p.seq S a b)
  seq-Consumes_right a b h k s i =
      rw (p.seq_lem S a b s i) (and_then-Shorter_right i (a s i) b (h s i) k)

  pub sor-Consumes : (a b : PegRule S) → Consumes a → Consumes b → Consumes (p.sor S a b)
  sor-Consumes a b h k s i = rw (p.sor_lem S a b s i) (or_else-Shorter i (a s i) b (h s i) k)

  pub opt-Keeps : (a : PegRule S) → Keeps a → Keeps (p.opt S a)
  opt-Keeps a h s i = rw (p.opt_lem S a s i) (optional-AtMost i (a s i) (h s i))

  pub act-Consumes : (f : Bytes → S → S) (a : PegRule S) → Consumes a → Consumes (p.act S f a)
  act-Consumes f a h s i = rw (p.act_lem S f a s i) (with_action-Shorter f i (a s i) (h s i))

  pub act-Keeps : (f : Bytes → S → S) (a : PegRule S) → Keeps a → Keeps (p.act S f a)
  act-Keeps f a h s i = rw (p.act_lem S f a s i) (with_action-AtMost f i (a s i) (h s i))

  star-AtMost :
      (n : ℕ) (a : PegRule S) (s : S) (i : Bytes)
      → Consumes a
      → length i < n
      → AtMost i (p.star S a s i)
  star-AtMost zero a s i c h = absurd (omega arith)
  star-AtMost (suc n) a s i c h =
      rw (p.star_lem S a s i c) (
        round-AtMost i (a s i) (p.star S a) (c s i) λ s' r lt. star-AtMost n a s' r c (omega arith))

  pub star-Keeps : (a : PegRule S) → Consumes a → Keeps (p.star S a)
  star-Keeps a c s i = star-AtMost (suc (length i)) a s i c (omega arith)

  pub plus-Consumes : (a : PegRule S) → Consumes a → Consumes (p.plus S a)
  plus-Consumes a c s i =
      rw (p.plus_lem S a s i) (seq-Consumes a (p.star S a) c (star-Keeps a c) s i)

  pub list-Consumes : (a d : PegRule S) → Consumes a → Consumes d → Consumes (p.list S a d)
  list-Consumes a d h k s i = rw (p.list_lem S a d s i) (
      seq-Consumes a (p.star S (p.seq S d a)) h
        (star-Keeps (p.seq S d a) (seq-Consumes d a k (Keeps-of_Consumes a h))) s i)
