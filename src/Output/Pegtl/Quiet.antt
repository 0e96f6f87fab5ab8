-- ===== src/Output/Pegtl/Quiet.antt =====
-- Rules that throw nothing on inputs below a length: what shows that the fuel of a recursive rule
-- is enough.
use mw_dbg_runner.Common.{ℕ, zero, suc, ◌<◌, arith, Bool, Bytes, List, [], ◌∷◌, length}
use mw_dbg_runner.Output.Pegtl.{
  Outcome, matched, failed, raised, PegRule, and_then, or_else, optional, round, one_char, one_of,
  in_ranges, is_not, with_action, Shorter, Consumes, Pegtl,
}
use mw_dbg_runner.Output.Pegtl.Consumption.{AtMost, Keeps, Keeps-of_Consumes, seq-Consumes}

-- No exception.
abbrev pub Quiet : {S : Type 0} → Outcome S → Type 0
Quiet (matched s r) = Unit
Quiet (failed s) = Unit
Quiet (raised e) = ⊥

abbrev pub QuietBelow : {S : Type 0} → ℕ → PegRule S → Type 0
QuietBelow {S} n a = (s : S) (i : Bytes) → length i < n → Quiet (a s i)

module _ {S : Type 0} where
  and_then-Quiet :
      (n : ℕ) (i : Bytes) (o : Outcome S) (b : PegRule S)
      → length i < n
      → Quiet o
      → AtMost i o
      → QuietBelow n b
      → Quiet (and_then o b)
  and_then-Quiet n i (matched s r) b lt h k q = q s r (omega arith)
  and_then-Quiet n i (failed s) b lt h k q = tt
  and_then-Quiet n i (raised e) b lt h k q = h

  and_then-Quiet-Shorter :
      (n : ℕ) (i : Bytes) (o : Outcome S) (b : PegRule S)
      → length i < suc n
      → Quiet o
      → Shorter i o
      → QuietBelow n b
      → Quiet (and_then o b)
  and_then-Quiet-Shorter n i (matched s r) b lt h k q = q s r (omega arith)
  and_then-Quiet-Shorter n i (failed s) b lt h k q = tt
  and_then-Quiet-Shorter n i (raised e) b lt h k q = h

  or_else-Quiet :
      (n : ℕ) (i : Bytes) (o : Outcome S) (b : PegRule S)
      → length i < n
      → Quiet o
      → QuietBelow n b
      → Quiet (or_else o b i)
  or_else-Quiet n i (matched s r) b lt h q = tt
  or_else-Quiet n i (failed s) b lt h q = q s i lt
  or_else-Quiet n i (raised e) b lt h q = h

  optional-Quiet : (i : Bytes) (o : Outcome S) → Quiet o → Quiet (optional o i)
  optional-Quiet i (matched s r) h = tt
  optional-Quiet i (failed s) h = tt
  optional-Quiet i (raised e) h = h

  with_action-Quiet :
      (f : Bytes → S → S) (i : Bytes) (o : Outcome S) → Quiet o → Quiet (with_action f i o)
  with_action-Quiet f i (matched s r) h = tt
  with_action-Quiet f i (failed s) h = tt
  with_action-Quiet f i (raised e) h = h

  one_char-Quiet : (q : ℕ → Bool) (s : S) (i : Bytes) → Quiet (one_char q s i)
  one_char-Quiet q s [] = tt
  one_char-Quiet q s (c ∷ i) = ground arith

  round-Quiet :
      (i : Bytes) (o : Outcome S) (again : PegRule S)
      → Quiet o
      → Shorter i o
      → ((s : S) (r : Bytes) → length r < length i → Quiet (again s r))
      → Quiet (round o again i)
  round-Quiet i (matched s r) again h k q = q s r k
  round-Quiet i (failed s) again h k q = tt
  round-Quiet i (raised e) again h k q = h

module _ (p : Pegtl) {S : Type 0} (n : ℕ) where
  pub one-Quiet : (cs : Bytes) → QuietBelow n (p.one S cs)
  one-Quiet cs s i lt = rw (p.one_lem S cs s i) (one_char-Quiet (one_of cs) s i)

  pub not_one-Quiet : (c : ℕ) → QuietBelow n (p.not_one S c)
  not_one-Quiet c s i lt = rw (p.not_one_lem S c s i) (one_char-Quiet (is_not c) s i)

  pub ranges-Quiet : (rs : List (ℕ × ℕ)) → QuietBelow n (p.ranges S rs)
  ranges-Quiet rs s i lt = rw (p.ranges_lem S rs s i) (one_char-Quiet (in_ranges rs) s i)

  pub eof-Quiet : QuietBelow n (p.eof S)
  eof-Quiet s [] lt = rw (p.eof_lem S s []) tt
  eof-Quiet s (c ∷ i) lt = rw (p.eof_lem S s (c ∷ i)) tt

  pub opt-Quiet : (a : PegRule S) → QuietBelow n a → QuietBelow n (p.opt S a)
  opt-Quiet a h s i lt = rw (p.opt_lem S a s i) (optional-Quiet i (a s i) (h s i lt))

  pub string-Quiet : (w : Bytes) → QuietBelow n (p.string S w)
  string-Quiet w s i lt = rw (p.string_lem S w s i) (ground arith)

  pub success-Quiet : QuietBelow n (p.success S)
  success-Quiet s i lt = rw (p.success_lem S s i) tt

  pub seq-Quiet :
      (a b : PegRule S) → QuietBelow n a → Keeps a → QuietBelow n b → QuietBelow n (p.seq S a b)
  seq-Quiet a b h k q s i lt =
      rw (p.seq_lem S a b s i) (and_then-Quiet n i (a s i) b lt (h s i lt) (k s i) q)

  -- What follows a rule that uses up input may count on one character less.
  pub seq-Quiet_shorter :
      (a b : PegRule S)
      → QuietBelow (suc n) a
      → Consumes a
      → QuietBelow n b
      → QuietBelow (suc n) (p.seq S a b)
  seq-Quiet_shorter a b h k q s i lt =
      rw (p.seq_lem S a b s i) (and_then-Quiet-Shorter n i (a s i) b lt (h s i lt) (k s i) q)

  pub sor-Quiet : (a b : PegRule S) → QuietBelow n a → QuietBelow n b → QuietBelow n (p.sor S a b)
  sor-Quiet a b h q s i lt = rw (p.sor_lem S a b s i) (or_else-Quiet n i (a s i) b lt (h s i lt) q)

  pub act-Quiet : (f : Bytes → S → S) (a : PegRule S) → QuietBelow n a → QuietBelow n (p.act S f a)
  act-Quiet f a h s i lt = rw (p.act_lem S f a s i) (with_action-Quiet f i (a s i) (h s i lt))

  star-Quiet_rounds :
      (m : ℕ) (a : PegRule S) (s : S) (i : Bytes)
      → Consumes a
      → QuietBelow n a
      → length i < m
      → length i < n
      → Quiet (p.star S a s i)
  star-Quiet_rounds zero a s i c h lt le = absurd (omega arith)
  star-Quiet_rounds (suc m) a s i c h lt le = rw (p.star_lem S a s i c) (
      round-Quiet i (a s i) (p.star S a) (h s i le) (c s i)
        λ s' r k. star-Quiet_rounds m a s' r c h (omega arith) (omega arith))

  pub star-Quiet : (a : PegRule S) → Consumes a → QuietBelow n a → QuietBelow n (p.star S a)
  star-Quiet a c h s i lt = star-Quiet_rounds n a s i c h lt lt

  pub plus-Quiet : (a : PegRule S) → Consumes a → QuietBelow n a → QuietBelow n (p.plus S a)
  plus-Quiet a c h s i lt =
      rw (p.plus_lem S a s i)
        (seq-Quiet a (p.star S a) h (Keeps-of_Consumes a c) (star-Quiet a c h) s i lt)

  pub list-Quiet :
      (a d : PegRule S)
      → Consumes a
      → Consumes d
      → QuietBelow n a
      → QuietBelow n d
      → QuietBelow n (p.list S a d)
  list-Quiet a d ca cd ha hd s i lt =
      let again = seq-Quiet d a hd (Keeps-of_Consumes d cd) ha in
      let used = seq-Consumes p d a cd (Keeps-of_Consumes a ca) in
      rw (p.list_lem S a d s i) (
        seq-Quiet a (p.star S (p.seq S d a)) ha (Keeps-of_Consumes a ca)
          (star-Quiet (p.seq S d a) used again) s i lt)
