-- ===== src/Output/Pegtl/Steps.antt =====
-- How a combinator goes on, by what its first part did.
use mw_dbg_runner.Common.{
  ℕ, ◌-◌, ◌≡◌, ◌∙◌, ap, arith, false, Bytes, [], ◌∷◌, ◌++◌, length, take, length-append,
  take-length_append, has_prefix, ◌==◌,
}
use mw_dbg_runner.Output.Pegtl.{
  Outcome, matched, failed, PegRule, and_then, or_else, optional, round, with_action, Consumes,
  Pegtl,
}

-- What a rule used up is what stands in front of the rest.
pub take-consumed : (xs rest : Bytes) → take (length (xs ++ rest) - length rest) (xs ++ rest) ≡ xs
take-consumed xs rest =
    let same : length (xs ++ rest) - length rest ≡ length xs =
      omega (arith, length-append xs rest) in
    rw same (take-length_append xs rest)

module _ (p : Pegtl) {S : Type 0} where
  pub seq_next :
      (a b : PegRule S) (s : S) (i : Bytes) {s' : S} {r : Bytes} {o : Outcome S}
      → a s i ≡ matched s' r
      → b s' r ≡ o
      → p.seq _ a b s i ≡ o
  seq_next a b s i h k = p.seq_lem S a b s i ∙ ap (λ x. and_then x b) h ∙ k

  pub seq_stop :
      (a b : PegRule S) (s : S) (i : Bytes) {s' : S}
      → a s i ≡ failed s'
      → p.seq _ a b s i ≡ failed s'
  seq_stop a b s i h = p.seq_lem S a b s i ∙ ap (λ x. and_then x b) h

  pub sor_first :
      (a b : PegRule S) (s : S) (i : Bytes) {s' : S} {r : Bytes}
      → a s i ≡ matched s' r
      → p.sor _ a b s i ≡ matched s' r
  sor_first a b s i h = p.sor_lem S a b s i ∙ ap (λ x. or_else x b i) h

  pub sor_second :
      (a b : PegRule S) (s : S) (i : Bytes) {s' : S} {o : Outcome S}
      → a s i ≡ failed s'
      → b s' i ≡ o
      → p.sor _ a b s i ≡ o
  sor_second a b s i h k = p.sor_lem S a b s i ∙ ap (λ x. or_else x b i) h ∙ k

  pub opt_some :
      (a : PegRule S) (s : S) (i : Bytes) {s' : S} {r : Bytes}
      → a s i ≡ matched s' r
      → p.opt _ a s i ≡ matched s' r
  opt_some a s i h = p.opt_lem S a s i ∙ ap (λ x. optional x i) h

  pub opt_none :
      (a : PegRule S) (s : S) (i : Bytes) {s' : S}
      → a s i ≡ failed s'
      → p.opt _ a s i ≡ matched s' i
  opt_none a s i h = p.opt_lem S a s i ∙ ap (λ x. optional x i) h

  pub star_more :
      (a : PegRule S) (s : S) (i : Bytes) {s' : S} {r : Bytes} {o : Outcome S}
      → Consumes a
      → a s i ≡ matched s' r
      → p.star _ a s' r ≡ o
      → p.star _ a s i ≡ o
  star_more a s i c h k = p.star_lem S a s i c ∙ ap (λ x. round x (p.star S a) i) h ∙ k

  pub star_end :
      (a : PegRule S) (s : S) (i : Bytes) {s' : S}
      → Consumes a
      → a s i ≡ failed s'
      → p.star _ a s i ≡ matched s' i
  star_end a s i c h = p.star_lem S a s i c ∙ ap (λ x. round x (p.star S a) i) h

  pub act_matched :
      (f : Bytes → S → S) (a : PegRule S) (s : S) (xs rest : Bytes) {s' : S}
      → a s (xs ++ rest) ≡ matched s' rest
      → p.act _ f a s (xs ++ rest) ≡ matched (f xs s') rest
  act_matched f a s xs rest {s'} h =
      p.act_lem S f a s (xs ++ rest)
      ∙ ap (with_action f (xs ++ rest)) h
      ∙ ap (λ x. matched (f x s') rest) (take-consumed xs rest)

  pub act_failed :
      (f : Bytes → S → S) (a : PegRule S) (s : S) (i : Bytes) {s' : S}
      → a s i ≡ failed s'
      → p.act _ f a s i ≡ failed s'
  act_failed f a s i h = p.act_lem S f a s i ∙ ap (with_action f i) h

  pub one_hit : (c : ℕ) (s : S) (i : Bytes) → p.one _ (c ∷ []) s (c ∷ i) ≡ matched s i
  one_hit c s i = p.one_lem S (c ∷ []) s (c ∷ i) ∙ ground arith

  pub one_miss :
      (c d : ℕ) (s : S) (i : Bytes) → (d == c) ≡ false → p.one _ (c ∷ []) s (d ∷ i) ≡ failed s
  one_miss c d s i h = p.one_lem S (c ∷ []) s (d ∷ i) ∙ ground arith

  pub not_one_hit :
      (c d : ℕ) (s : S) (i : Bytes) → (d == c) ≡ false → p.not_one _ c s (d ∷ i) ≡ matched s i
  not_one_hit c d s i h = p.not_one_lem S c s (d ∷ i) ∙ ground arith

  pub not_one_miss : (c : ℕ) (s : S) (i : Bytes) → p.not_one _ c s (c ∷ i) ≡ failed s
  not_one_miss c s i = p.not_one_lem S c s (c ∷ i) ∙ ground arith

  pub string_miss :
      (w : Bytes) (s : S) (i : Bytes) → has_prefix w i ≡ false → p.string _ w s i ≡ failed s
  string_miss w s i h = p.string_lem S w s i ∙ ground arith
