-- ===== src/Output/RoundTrip/Strings.antt =====
-- A quoted text without a backslash is read back; names too.
use mw_dbg_runner.Common.{
  ℕ, ◌-◌, ◌≡◌, ◌≢◌, refl, ◌∙◌, ap, arith, true, false, Bool-cases, inl, inr, Bytes, [], ◌∷◌, ◌++◌,
  append_assoc, length, take-length_append, length-append, ltb, lt→ltb, ◌==◌, has_prefix, All,
}
use mw_dbg_runner.Output.Boost.{Boost}
use mw_dbg_runner.Output.Pegtl.{Pegtl, matched}
use mw_dbg_runner.Output.Pegtl.Steps.{
  seq_next, sor_first, sor_second, star_more, star_end, act_matched, one_hit, not_one_hit,
  not_one_miss, string_miss,
}
use mw_dbg_runner.Output.Grammar.{State, inner, unquote}
use mw_dbg_runner.Output.Grammar.Values.{cstring_body, cstring, variable}
use mw_dbg_runner.Output.Grammar.Consumption.{escaped-Consumes}
use mw_dbg_runner.Output.Pegtl.Consumption.{not_one-Consumes}
use mw_dbg_runner.Output.Syntax.{escape, quoted, IsName}

abbrev pub NoBackslash : Bytes → Type 0
NoBackslash = All (λ c. c ≢ 92)

prefix_miss : (c : ℕ) (w s : Bytes) → c ≢ 92 → has_prefix (92 ∷ w) (c ∷ s) ≡ false
unfolding has_prefix
prefix_miss c w s h = ground arith

quoted_long : (c : ℕ) (s : Bytes) → ltb 2 (length (quoted (c ∷ s))) ≡ true
quoted_long c s = lt→ltb _ _ (ground (arith, length-append (escape (c ∷ s)) (b'"' ∷ [])))

module _ (b : Boost) where
  -- The first replacement undoes the escapes.
  unescape : (s : Bytes) → NoBackslash s → b.replace_all (escape s) (92 ∷ b'"' ∷ []) (b'"' ∷ []) ≡ s
  unescape [] h = b.replace_all-nil _ _
  unescape (c ∷ s) h = elim (Bool-cases (c == b'"')) [
    | inl quote ↦ rw quote (
        b.replace_all-hit (escape s) (92 ∷ b'"' ∷ []) (b'"' ∷ []) (cc)
        ∙ rw (unescape s h.1) (ground arith))
    | inr other ↦
        rw other (
          b.replace_all-miss c (escape s) _ _ (prefix_miss c _ _ h.0) ∙ ap (◌∷◌ c) (unescape s h.1))
  ]

  -- The second one finds nothing.
  unchanged :
      (s : Bytes) → NoBackslash s → b.replace_all s (92 ∷ 92 ∷ b'"' ∷ []) (92 ∷ b'"' ∷ []) ≡ s
  unchanged [] h = b.replace_all-nil _ _
  unchanged (c ∷ s) h =
      b.replace_all-miss c s _ _ (prefix_miss c _ s h.0) ∙ ap (◌∷◌ c) (unchanged s h.1)

  inner-quoted : (s : Bytes) → inner (quoted s) ≡ escape s
  inner-quoted s =
      let e : length (quoted s) - 2 ≡ length (escape s) =
        omega (arith, length-append (escape s) (b'"' ∷ [])) in
      rw e (take-length_append (escape s) (b'"' ∷ []))

  unquote-quoted : (s : Bytes) → NoBackslash s → unquote b (quoted s) ≡ s
  unfolding unquote
  unquote-quoted [] h = refl
  unquote-quoted (c ∷ s) h =
      rw (inner-quoted (c ∷ s), unescape (c ∷ s) h, unchanged (c ∷ s) h, quoted_long c s)

module _ (p : Pegtl) (b : Boost) where
  quote_hit :
      {S : Type 0} (s : S) (i : Bytes) → p.string _ (92 ∷ b'"' ∷ []) s (92 ∷ b'"' ∷ i) ≡ matched s i
  unfolding has_prefix
  quote_hit {S} s i = p.string_lem S (92 ∷ b'"' ∷ []) s (92 ∷ b'"' ∷ i)

  cstring_body-escape :
      (s : Bytes) (st : State Bytes) (rest : Bytes)
      → NoBackslash s
      → cstring_body p b st (escape s ++ b'"' ∷ rest) ≡ matched st (b'"' ∷ rest)
  unfolding cstring_body
  cstring_body-escape [] st rest h = star_end p _ st _ (escaped-Consumes p b) (
      sor_second p _ _ st _ (string_miss p _ st _ (prefix_miss b'"' _ rest (omega arith)))
        (not_one_miss p b'"' st rest))
  cstring_body-escape (c ∷ s) st rest h = elim (Bool-cases (c == b'"')) [
    | inl quote ↦ rw quote (
        star_more p _ st _ (escaped-Consumes p b) (sor_first p _ _ st _ (quote_hit st _))
          (cstring_body-escape s st rest h.1))
    | inr other ↦ rw other (
        star_more p _ st _ (escaped-Consumes p b)
          (sor_second p _ _ st _ (string_miss p _ st _ (prefix_miss c _ _ h.0))
            (not_one_hit p b'"' c st _ other))
          (cstring_body-escape s st rest h.1))
  ]

  -- A quoted text is read as the text, whatever follows it.
  pub cstring-quoted :
      (s d n rest : Bytes)
      → NoBackslash s
      → cstring p b (d, n) (quoted s ++ rest) ≡ matched (s, n) rest
  unfolding cstring
  cstring-quoted s d n rest h =
      act_matched p _ _ (d, n) (quoted s) rest
        (seq_next p _ _ (d, n) _ (one_hit p b'"' (d, n) _)
          (seq_next p _ _ (d, n) _ (rw append_assoc (cstring_body-escape s (d, n) rest h))
            (one_hit p b'"' (d, n) rest)))
      ∙ ap (λ (t : Bytes). matched (t, n) rest) (unquote-quoted b s h)

  name_end :
      (s : Bytes) (st : State Bytes) (rest : Bytes)
      → All (λ c. (c ≢ b'=') × (c ≢ b']')) s
      → p.star _ (p.not_one _ b'=') st (s ++ b'=' ∷ rest) ≡ matched st (b'=' ∷ rest)
  name_end [] st rest h = star_end p _ st _ (not_one-Consumes p b'=') (not_one_miss p b'=' st rest)
  name_end (c ∷ s) st rest h =
      star_more p _ st _ (not_one-Consumes p b'=') (not_one_hit p b'=' c st _ (ground arith))
        (name_end s st rest h.1)

  -- A name is read up to its `=`, and becomes the last variable name.
  pub variable-name :
      (s d n rest : Bytes)
      → IsName s
      → variable p b (d, n) (s ++ b'=' ∷ rest) ≡ matched (s, s) (b'=' ∷ rest)
  unfolding variable
  variable-name [] d n rest h = absurd h
  variable-name (c ∷ s) d n rest h =
      act_matched p _ _ (d, n) (c ∷ s) (b'=' ∷ rest)
        (p.plus_lem _ _ (d, n) _
          ∙ seq_next p _ _ (d, n) _ (not_one_hit p b'=' c (d, n) _ (ground arith))
              (name_end s (d, n) rest h.1))
