-- ===== src/Output/Pegtl.antt =====
-- The PEGTL combinators that src/mw/gdb/mi2/output.cpp builds its grammar from. The library is not
-- part of the repository: its combinators are the fields of an interface, with what its rule
-- reference documents as laws. `Pegtl.Engine` shows that the laws can be met.
pub mod Engine
pub mod Consumption
pub mod Steps
pub mod Quiet
use mw_dbg_runner.Common.{
  ℕ, ◌<◌, ◌-◌, ◌≡◌, Bool, true, false, ◌||◌, ◌&&◌, List, [], ◌∷◌, length, take, drop, ◌==◌, leb,
  if◌then◌else◌, Bytes, has_prefix,
}
use mw_dbg_runner.Error.{Error}

-- A rule matches and leaves the rest of the input, or fails and rewinds to where it began; what an
-- action wrote into the state stays written. An action may throw.
pub data Outcome (S : Type 0) : Type 0 where
  matched : S → Bytes → Outcome S
  failed : S → Outcome S
  raised : Error → Outcome S

abbrev pub PegRule : Type 0 → Type 0
PegRule S = S → Bytes → Outcome S

module _ {S : Type 0} where
  -- The second rule goes on where the first one stopped.
  abbrev pub and_then : Outcome S → PegRule S → Outcome S
  and_then (matched s i) b = b s i
  and_then (failed s) b = failed s
  and_then (raised e) b = raised e

  -- The second rule is tried at the same input if the first one fails.
  abbrev pub or_else : Outcome S → PegRule S → Bytes → Outcome S
  or_else (matched s r) b i = matched s r
  or_else (failed s) b i = b s i
  or_else (raised e) b i = raised e

  abbrev pub optional : Outcome S → Bytes → Outcome S
  optional (matched s r) i = matched s r
  optional (failed s) i = matched s i
  optional (raised e) i = raised e

  -- One round of a repetition that goes on by `again`.
  abbrev pub round : Outcome S → PegRule S → Bytes → Outcome S
  round (matched s r) again i = again s r
  round (failed s) again i = matched s i
  round (raised e) again i = raised e

  abbrev pub one_char : (ℕ → Bool) → PegRule S
  one_char p s [] = failed s
  one_char p s (c ∷ i) = if p c then matched s i else failed s

  abbrev pub at_end : PegRule S
  at_end s [] = matched s []
  at_end s (c ∷ i) = failed s

  -- The action runs on what was matched.
  abbrev pub with_action : (Bytes → S → S) → Bytes → Outcome S → Outcome S
  with_action f i (matched s r) = matched (f (take (length i - length r) i) s) r
  with_action f i (failed s) = failed s
  with_action f i (raised e) = raised e

  abbrev pub Shorter : Bytes → Outcome S → Type 0
  Shorter i (matched s r) = length r < length i
  Shorter i (failed s) = Unit
  Shorter i (raised e) = Unit

  -- Whatever it matches, the rule uses up some input.
  abbrev pub Consumes : PegRule S → Type 0
  Consumes a = (s : S) (i : Bytes) → Shorter i (a s i)

abbrev pub one_of : Bytes → ℕ → Bool
one_of [] c = false
one_of (d ∷ ds) c = (c == d) || one_of ds c

abbrev pub in_ranges : List (ℕ × ℕ) → ℕ → Bool
in_ranges [] c = false
in_ranges ((lo, hi) ∷ rs) c = (leb lo c && leb c hi) || in_ranges rs c

abbrev pub is_not : ℕ → ℕ → Bool
is_not d c = if c == d then false else true

pub record Pegtl : Type 1 where
  pub success : (S : Type 0) → PegRule S
  pub eof : (S : Type 0) → PegRule S
  pub one : (S : Type 0) → Bytes → PegRule S
  pub not_one : (S : Type 0) → ℕ → PegRule S
  pub ranges : (S : Type 0) → List (ℕ × ℕ) → PegRule S
  pub string : (S : Type 0) → Bytes → PegRule S
  pub seq : (S : Type 0) → PegRule S → PegRule S → PegRule S
  pub sor : (S : Type 0) → PegRule S → PegRule S → PegRule S
  pub opt : (S : Type 0) → PegRule S → PegRule S
  pub star : (S : Type 0) → PegRule S → PegRule S
  pub plus : (S : Type 0) → PegRule S → PegRule S
  pub list : (S : Type 0) → PegRule S → PegRule S → PegRule S
  pub act : (S : Type 0) → (Bytes → S → S) → PegRule S → PegRule S
  pub success_lem : (S : Type 0) (s : S) (i : Bytes) → success S s i ≡ matched s i
  pub eof_lem : (S : Type 0) (s : S) (i : Bytes) → eof S s i ≡ at_end s i
  pub one_lem :
      (S : Type 0) (cs : Bytes) (s : S) (i : Bytes) → one S cs s i ≡ one_char (one_of cs) s i
  pub not_one_lem :
      (S : Type 0) (d : ℕ) (s : S) (i : Bytes) → not_one S d s i ≡ one_char (is_not d) s i
  pub ranges_lem :
      (S : Type 0) (rs : List (ℕ × ℕ)) (s : S) (i : Bytes)
      → ranges S rs s i ≡ one_char (in_ranges rs) s i
  pub string_lem :
      (S : Type 0) (p : Bytes) (s : S) (i : Bytes)
      → string S p s i ≡ (if has_prefix p i then matched s (drop (length p) i) else failed s)
  pub seq_lem :
      (S : Type 0) (a b : PegRule S) (s : S) (i : Bytes) → seq S a b s i ≡ and_then (a s i) b
  pub sor_lem :
      (S : Type 0) (a b : PegRule S) (s : S) (i : Bytes) → sor S a b s i ≡ or_else (a s i) b i
  pub opt_lem : (S : Type 0) (a : PegRule S) (s : S) (i : Bytes) → opt S a s i ≡ optional (a s i) i
  pub star_lem :
      (S : Type 0) (a : PegRule S) (s : S) (i : Bytes)
      → Consumes a
      → star S a s i ≡ round (a s i) (star S a) i
  pub plus_lem :
      (S : Type 0) (a : PegRule S) (s : S) (i : Bytes) → plus S a s i ≡ seq S a (star S a) s i
  pub list_lem :
      (S : Type 0) (a d : PegRule S) (s : S) (i : Bytes)
      → list S a d s i ≡ seq S a (star S (seq S d a)) s i
  pub act_lem :
      (S : Type 0) (f : Bytes → S → S) (a : PegRule S) (s : S) (i : Bytes)
      → act S f a s i ≡ with_action f i (a s i)
