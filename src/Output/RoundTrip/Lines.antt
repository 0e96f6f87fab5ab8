-- ===== src/Output/RoundTrip/Lines.antt =====
-- A line of asynchronous output is read back (src/mw/gdb/mi2/output.cpp, `parse_async_output`).
use mw_dbg_runner.Common.{
  ℕ, ◌≤◌, ◌<◌, ◌≡◌, refl, ◌∙◌, ap, arith, Bool, true, false, Bytes, List, [], ◌∷◌, ◌++◌, length,
  some, All,
}
use mw_dbg_runner.Numbers.{decimal, to_string, my_stoull, u64_mod}
use mw_dbg_runner.Numbers.RoundTrip.{my_stoull-to_string, to_string-digits, to_string-cons}
use mw_dbg_runner.Output.{Results, no_results, result, entries, AsyncType, exec, AsyncOutput}
use mw_dbg_runner.Output.Boost.{Boost}
use mw_dbg_runner.Output.Pegtl.{Pegtl, matched, failed, one_of, in_ranges}
use mw_dbg_runner.Output.Pegtl.Steps.{
  seq_next, seq_stop, star_more, star_end, opt_some, opt_none, act_matched, one_hit, take-consumed,
}
use mw_dbg_runner.Output.Pegtl.Consumption.{ranges-Consumes}
use mw_dbg_runner.Output.Grammar.{State}
use mw_dbg_runner.Output.Grammar.Values.{value_rule}
use mw_dbg_runner.Output.Grammar.Records.{
  Line, digits, set_token, token_outcome, take_token, async_type, async_class_rule,
  async_output_type, end_of_line, async_results, async_output_rule, read_token, fresh_async,
}
use mw_dbg_runner.Output.Syntax.{show_more_results, ArePlain}
use mw_dbg_runner.Output.RoundTrip.Values.{NoComma, member_matched}
use mw_dbg_runner.Output.RoundTrip.Nested.{reads_more}

-- The input does not begin with a character of the ranges.
abbrev pub StopsAt : List (ℕ × ℕ) → Bytes → Type 0
StopsAt rs [] = Unit
StopsAt rs (c ∷ i) = in_ranges rs c ≡ false

-- An optional carriage return.
abbrev pub line_end : Bool → Bytes
line_end true = 13 ∷ []
line_end false = []

module _ (p : Pegtl) {S : Type 0} (rs : List (ℕ × ℕ)) where
  ranges_hit :
      (c : ℕ) (s : S) (i : Bytes) → in_ranges rs c ≡ true → p.ranges _ rs s (c ∷ i) ≡ matched s i
  ranges_hit c s i h = p.ranges_lem S rs s (c ∷ i) ∙ rw h refl

  ranges_stop : (s : S) (i : Bytes) → StopsAt rs i → p.ranges _ rs s i ≡ failed s
  ranges_stop s [] h = p.ranges_lem S rs s []
  ranges_stop s (c ∷ i) h = p.ranges_lem S rs s (c ∷ i) ∙ rw h refl

  star_ranges :
      (xs : Bytes) (s : S) (rest : Bytes)
      → All (λ c. in_ranges rs c ≡ true) xs
      → StopsAt rs rest
      → p.star _ (p.ranges _ rs) s (xs ++ rest) ≡ matched s rest
  star_ranges [] s rest h k = star_end p _ s rest (ranges-Consumes p rs) (ranges_stop s rest k)
  star_ranges (c ∷ xs) s rest h k =
      star_more p _ s _ (ranges-Consumes p rs) (ranges_hit c s _ h.0) (star_ranges xs s rest h.1 k)

  plus_ranges :
      (c : ℕ) (xs : Bytes) (s : S) (rest : Bytes)
      → All (λ d. in_ranges rs d ≡ true) (c ∷ xs)
      → StopsAt rs rest
      → p.plus _ (p.ranges _ rs) s ((c ∷ xs) ++ rest) ≡ matched s rest
  plus_ranges c xs s rest h k =
      p.plus_lem S (p.ranges S rs) s _
      ∙ seq_next p _ _ s _ (ranges_hit c s _ h.0) (star_ranges xs s rest h.1 k)

in_digits :
    (xs : Bytes) → All (λ c. (b'0' ≤ c) × (c ≤ b'9')) xs → All (λ c. in_ranges digits c ≡ true) xs
in_digits [] h = tt
in_digits (c ∷ xs) h = (ground arith, in_digits xs h.1)

module _ (p : Pegtl) (b : Boost) where
  -- A decimal token is read as its number.
  pub read_token-to_string :
      {T : Type 0} (tk : ℕ) (l : Line T) (n rest : Bytes)
      → tk < u64_mod
      → StopsAt digits rest
      → read_token p b (l, n) (to_string decimal tk ++ rest)
        ≡ matched (record l { token = some tk }, n) rest
  unfolding read_token
  read_token-to_string {T} tk l n rest h k =
      let (d, t, e) = to_string-cons tk in
      let all = in_digits (to_string decimal tk) (to_string-digits tk) in
      let scanned : p.plus _ (p.ranges _ digits) (l, n) (to_string decimal tk ++ rest)
          ≡ matched (l, n) rest =
        rw e (plus_ranges p digits d t (l, n) rest (rw e at all) k) in
      ap (take_token set_token (to_string decimal tk ++ rest)) scanned
      ∙ ap (λ (x : Bytes). token_outcome set_token (my_stoull decimal x) (l, n) rest)
          (take-consumed (to_string decimal tk) rest)
      ∙ rw (my_stoull-to_string tk h) refl

  -- Without digits no token is read.
  pub read_token-none :
      {T : Type 0} (l : Line T) (n i : Bytes)
      → StopsAt digits i
      → read_token p b (l, n) i ≡ failed (l, n)
  unfolding read_token
  read_token-none l n i k =
      ap (take_token set_token i)
        (p.plus_lem _ _ (l, n) i ∙ seq_stop p _ _ (l, n) i (ranges_stop p digits (l, n) i k))

  pub end_of_line-line_end :
      {T : Type 0} (s : State T) (cr : Bool) → end_of_line p b s (line_end cr) ≡ matched s []
  unfolding end_of_line
  end_of_line-line_end s true =
      seq_next p _ _ s _ (opt_some p _ s _ (one_hit p 13 s [])) (p.eof_lem _ s [])
  end_of_line-line_end s false =
      seq_next p _ _ s _ (opt_none p _ s [] (p.one_lem _ _ s [])) (p.eof_lem _ s [])

  -- The characters of a class name.
  abbrev class_ranges : List (ℕ × ℕ)
  class_ranges = (b'A', b'Z') ∷ (b'a', b'z') ∷ (b'0', b'9') ∷ (b'-', b'-') ∷ []

  abbrev pub IsClass : Bytes → Type 0
  IsClass [] = ⊥
  IsClass (c ∷ cls) = All (λ d. in_ranges class_ranges d ≡ true) (c ∷ cls)

  async_class_rule-class :
      (cls d n rest : Bytes)
      → IsClass cls
      → StopsAt class_ranges rest
      → async_class_rule p b (d, n) (cls ++ rest) ≡ matched (cls, n) rest
  unfolding async_class_rule
  async_class_rule-class [] d n rest h k = absurd h
  async_class_rule-class (c ∷ cls) d n rest h k =
      act_matched p _ _ (d, n) (c ∷ cls) rest (plus_ranges p class_ranges c cls (d, n) rest h k)

  abbrev pub IsAsyncChar : ℕ → Type 0
  IsAsyncChar k = one_of (b'*' ∷ b'+' ∷ b'=' ∷ []) k ≡ true

  async_output_type-char :
      (k : ℕ) (d : AsyncType) (n rest : Bytes)
      → IsAsyncChar k
      → async_output_type p b (d, n) (k ∷ rest) ≡ matched (async_type (k ∷ []) d, n) rest
  unfolding async_output_type
  async_output_type-char k d n rest h =
      act_matched p _ _ (d, n) (k ∷ []) rest (p.one_lem _ _ (d, n) (k ∷ rest) ∙ rw h refl)

  class_end :
      (rs : Results) (cr : Bool) → StopsAt class_ranges (show_more_results rs ++ line_end cr)
  unfolding show_more_results
  class_end no_results true = refl
  class_end no_results false = tt
  class_end (result nm v rs) cr = refl

  line_end-NoComma : (cr : Bool) → NoComma p b (line_end cr)
  line_end-NoComma true = refl
  line_end-NoComma false = tt

  -- What follows the token of an asynchronous record.
  abbrev pub show_async : ℕ → Bytes → Results → Bool → Bytes
  show_async k cls rs cr = k ∷ (cls ++ (show_more_results rs ++ line_end cr))

  abbrev pub async_of : ℕ → Bytes → Results → AsyncOutput
  async_of k cls rs = record { type = async_type (k ∷ []) exec; class_ = cls; results = entries rs }

  pub async_output_rule-show :
      (k : ℕ) (cls : Bytes) (rs : Results) (cr : Bool) (f : ℕ) (n : Bytes)
      → IsAsyncChar k
      → IsClass cls
      → ArePlain rs
      → length (show_more_results rs) ≤ f
      → (n' : Bytes) × (async_output_rule p b
            (value_rule p b f)
            (fresh_async p b, n)
            (show_async k cls rs cr)
          ≡ matched (async_of k cls rs, n') [])
  unfolding async_output_rule async_results
  async_output_rule-show k cls rs cr f n hk hc plain le =
      let (n', e) = reads_more p b rs f plain le [] n (line_end cr) (line_end-NoComma cr) in
      (
        n',
        seq_next p _ _ (fresh_async p b, n) _
            (member_matched AsyncOutput.type _ (async_output_type p b) _ n _
              (async_output_type-char k exec n _ hk))
            (seq_next p _ _ _ _
              (member_matched AsyncOutput.class_ _ (async_class_rule p b) _ n _
                (async_class_rule-class cls [] n _ hc (class_end rs cr)))
              (seq_next p _ _ _ _
                (member_matched AsyncOutput.results _ (async_results p b _) _ n _ e)
                (end_of_line-line_end _ cr))),
      )
