-- ===== src/Gdb/Values.antt =====
-- The grammar of printed values over PEGTL's combinators (namespace `parser` in
-- src/mw/gdb/mi2/frame_impl.cpp).
use mw_dbg_runner.Common.{
  ℕ, zero, suc, Bool, true, false, Bytes, codes, List, [], ◌∷◌, drop, Option, none, some,
}
use mw_dbg_runner.Error.{Result, ok, err}
use mw_dbg_runner.Numbers.{hexadecimal, my_stoull}
use mw_dbg_runner.Output.Pegtl.{Pegtl, PegRule, Outcome, matched, failed, raised}
use mw_dbg_runner.Debug.Frame.{Cstring, Var}

abbrev pub no_cstring : Cstring
no_cstring = record { value = []; ellipsis = false }

-- A `var` without a value. (Its `ellipsis` is not initialised and stands as false.)
abbrev pub blank_var : Var
blank_var = record { ref = none; value = []; cstring = no_cstring }

abbrev pub with_value : Bytes → Var → Var
with_value x v = record v { value = x }

abbrev with_text : Bytes → Var → Var
with_text x v = record v { cstring = record { value = x; ellipsis = v.cstring.ellipsis } }

abbrev with_ellipsis : Var → Var
with_ellipsis v = record v { cstring = record { value = v.cstring.value; ellipsis = true } }

-- `pegtl::digit` and `pegtl::xdigit`
abbrev digit_ranges : List (ℕ × ℕ)
digit_ranges = (b'0', b'9') ∷ []

abbrev xdigit_ranges : List (ℕ × ℕ)
xdigit_ranges = (b'0', b'9') ∷ (b'a', b'f') ∷ (b'A', b'F') ∷ []

module _ (p : Pegtl) where
  -- `pegtl::minus<pegtl::any, pegtl::one<c>>`: any character but c.
  abbrev any_but : {S : Type 0} → ℕ → PegRule S
  any_but c = p.not_one _ c

  unfoldable pub ellipsis : PegRule Var
  ellipsis = p.act _ (λ t v. with_ellipsis v) (p.string _ (codes "..."))

  unfoldable pub cstring_body : PegRule Var
  cstring_body = p.act _ with_text (p.star _ (p.sor _ (p.string _ (92 ∷ b'"' ∷ [])) (any_but b'"')))

  unfoldable pub cstring_t : PegRule Var
  cstring_t =
      p.seq _ (p.one _ (b'"' ∷ []))
        (p.seq _ cstring_body (p.seq _ (p.one _ (b'"' ∷ [])) (p.opt _ ellipsis)))

  unfoldable pub char_num : PegRule Bytes
  char_num =
      p.act _ (λ t v. t)
        (p.seq _ (p.opt _ (p.one _ (b'-' ∷ []))) (p.plus _ (p.ranges _ digit_ranges)))

  -- At most so many matches, one after another.
  abbrev up_to : {S : Type 0} → ℕ → PegRule S → PegRule S
  up_to zero a = p.success _
  up_to (suc n) a = p.opt _ (p.seq _ a (up_to n a))

  -- A number and a character in quotes. (`rep_max` also demands that no sixth match follows, which
  -- the quote behind it does as well.)
  unfoldable pub char_t : PegRule Bytes
  char_t = p.seq _ char_num (
      p.seq _ (p.star _ (p.one _ (b' ' ∷ []))) (
        p.seq _ (p.one _ (39 ∷ [])) (
          p.seq _ (up_to 5 (p.sor _ (p.string _ (92 ∷ 39 ∷ [])) (any_but 39)))
            (p.one _ (39 ∷ [])))))

  unfoldable pub global_offset : PegRule Var
  global_offset =
      p.seq _ (p.one _ (b'<' ∷ [])) (p.seq _ (p.plus _ (any_but b'>')) (p.one _ (b'>' ∷ [])))

  unfoldable pub hex_num : PegRule Var
  hex_num =
      p.act _ with_value (p.seq _ (p.string _ (codes "0x")) (p.plus _ (p.ranges _ xdigit_ranges)))

  unfoldable pub value_ref : PegRule Var
  value_ref = p.seq _ hex_num (
      p.seq _ (p.opt _ (p.seq _ (p.one _ (b' ' ∷ [])) global_offset))
        (p.opt _ (p.seq _ (p.one _ (b' ' ∷ [])) cstring_t)))

  -- The text that the rule matches; what its action does with it is below.
  unfoldable pub reference : PegRule Bytes
  reference =
      p.act _ (λ t _. t) (p.seq _ (p.string _ (codes "@0x")) (p.plus _ (p.ranges _ xdigit_ranges)))

  abbrev read_ref : Outcome Bytes → Result (Option (ℕ × Bytes))
  read_ref (matched st rest) = elim (my_stoull hexadecimal (drop 1 st)) [
    | ok v ↦ ok (some (v, rest))
    | err e ↦ err e
  ]
  read_ref (failed st) = ok none
  read_ref (raised e) = err e

  -- `pegtl::parse<parser::reference, parser::action>(mi, ref_value)`: the address and what is left of
  -- the input. An address of more than 64 bits is a `parser_error`.
  unfoldable pub parse_reference : Bytes → Result (Option (ℕ × Bytes))
  parse_reference val = read_ref (reference [] val)

  abbrev read_var : Outcome Var → Result (Bool × Var)
  read_var (matched v rest) = ok (true, v)
  read_var (failed v) = ok (false, v)
  read_var (raised e) = err e

  -- `pegtl::parse<parser::value_ref, parser::action>(mi, v)`: whether it matched, and the variable
  -- that the actions have changed.
  unfoldable pub parse_value_ref : Var → Bytes → Result (Bool × Var)
  parse_value_ref v val = read_var (value_ref v val)

  abbrev read_char : Outcome Bytes → Option Bytes
  read_char (matched v rest) = some v
  read_char _ = none

  -- `pegtl::parse<parser::char_t, parser::action>(mi_ref, char_v)`
  unfoldable pub parse_char : Bytes → Option Bytes
  parse_char val = read_char (char_t [] val)

  abbrev or_text : Bytes → Result (Bool × Var) → Result Var
  or_text val (ok (true, v)) = ok v
  or_text val (ok (false, v)) = ok (with_value val v)
  or_text val (err e) = err e

  -- A value: parsed from what is left of the input, or taken as it is.
  unfoldable pub value_or_text : Var → Bytes → Bytes → Result Var
  value_or_text v left val = or_text val (parse_value_ref v left)
