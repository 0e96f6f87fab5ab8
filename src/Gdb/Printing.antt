-- ===== src/Gdb/Printing.antt =====
-- The printing of variables (`frame_impl::print`, `call`, `get_size` and `parse_var` in
-- src/mw/gdb/mi2/frame_impl.cpp).
use mw_dbg_runner.Common.{
  ℕ, ◌+◌, ◌%◌, ◌^◌, Bool, true, false, not, ◌&&◌, ◌||◌, Bytes, codes, lit, bytes_eq, [], ◌∷◌, ◌++◌,
  Option, none, some, ◌==◌, leb, drop, if◌then◌else◌,
}
use mw_dbg_runner.Error.{Error, Result, ok, err, parser_error, unexpected_result_class}
use mw_dbg_runner.Numbers.{decimal, stoull}
use mw_dbg_runner.Output.Boost.{Boost}
use mw_dbg_runner.Output.Pegtl.{Pegtl}
use mw_dbg_runner.Types.Memory.{ReadMemoryBytes}
use mw_dbg_runner.Interpreter.Session.{Listeners, Pipes}
use mw_dbg_runner.Interpreter.Data.{data_evaluate_expression, data_read_memory_bytes}
use mw_dbg_runner.Debug.Act.{Act, give, throw, from, catching, ◌>>=◌}
use mw_dbg_runner.Debug.Frame.{at, Var}
use mw_dbg_runner.Gdb.Values.{blank_var, with_value, parse_reference, parse_char, value_or_text}
use mw_dbg_runner.Gdb.Bits.{binary_text, memory_bits}
use mw_dbg_runner.Gdb.State.{World, on_session}

-- `\w` of `std::regex`
unfoldable pub is_word_char : ℕ → Bool
is_word_char c =
    (leb b'0' c && leb c b'9')
    || (leb b'A' c && leb c b'Z')
    || (leb b'a' c && leb c b'z')
    || (c == b'_')

unfoldable pub all_word_chars : Bytes → Bool
all_word_chars [] = true
all_word_chars (c ∷ s) = is_word_char c && all_word_chars s

-- `[A-Za-z_]`
unfoldable pub starts_name : ℕ → Bool
starts_name c = (leb b'A' c && leb c b'Z') || (leb b'a' c && leb c b'z') || (c == b'_')

-- `regex_match` with `[^A-Za-z_]\w*`: the first character is none of the class.
unfoldable pub is_var : Bytes → Bool
is_var [] = false
is_var (c ∷ s) = not (starts_name c) && all_word_chars s

-- `addr.substr(0, addr.find(' '))`
unfoldable pub first_word : Bytes → Bytes
first_word [] = []
first_word (c ∷ s) = if c == b' ' then [] else c ∷ first_word s

-- Both exceptions of `std::stoull` become a `parser_error`.
abbrev number_or_parser_error : Bytes → Result ℕ
number_or_parser_error s = elim (stoull decimal s) [ ok n ↦ ok n | err e ↦ err parser_error ]

abbrev is_result_class : Error → Bool
is_result_class (unexpected_result_class _ _ _) = true
is_result_class _ = false

unfoldable pub starts_angle : Bytes → Bool
starts_angle [] = false
starts_angle (c ∷ s) = c == b'<'

unfoldable pub ends_angle : Bytes → Bool
ends_angle [] = false
ends_angle (c ∷ []) = c == b'>'
ends_angle (c ∷ d ∷ s) = ends_angle (d ∷ s)

-- A character is shown by its number.
abbrev char_or_same : Option Bytes → Var → Var
char_or_same none v = v
char_or_same (some n) v = with_value n v

-- `stale` is what the input holds after the text under it has been replaced: its arguments are what
-- was left of the old text, and the new text. The program does not say; the text may have been freed.
module _ (p : Pegtl) (b : Boost) (what : Error → Bytes) (io : Pipes) {S : Type 0} (l : Listeners S)
    (stale : Bytes → Bytes → Bytes) (M : Type 0) where
  abbrev Doing : Type 0 → Type 0
  Doing A = Act (World io S M) A

  abbrev evaluate : Bytes → Doing Bytes
  evaluate expr = on_session p b what io l (data_evaluate_expression p b what io l expr)

  unfoldable pub get_size : Bytes → Doing ℕ
  get_size pt = do
    size_st ← evaluate (codes "sizeof(" ++ pt ++ codes ")")
    from (number_or_parser_error size_st)

  abbrev called : Bytes → Option (ℕ × Bytes) → Doing (Option Var)
  called val none = do vr ← from (value_or_text p blank_var val val); give (some vr)
  called val (some (ref_value, left)) = give (some (record blank_var { ref = some ref_value }))

  unfoldable pub call : Bytes → Doing (Option Var)
  call cl = do
    val ← evaluate cl
    elim (bytes_eq val (lit "void")) [
      | true ↦ give none
      | false ↦ do ref ← from (parse_reference p val); called val ref
    ]

  -- A value that is a reference is followed by evaluating `deref` of it.
  abbrev followed : (Bytes → Bytes) → Bytes → Option (ℕ × Bytes) → Doing Var
  followed deref val none = from (value_or_text p blank_var val val)
  followed deref val (some (ref_value, left)) = do
    val' ← evaluate (deref val)
    from (value_or_text p (record blank_var { ref = some ref_value }) (stale left val') val')

  abbrev value_of : (Bytes → Bytes) → Bytes → Doing Var
  value_of deref val = do ref ← from (parse_reference p val); followed deref val ref

  unfoldable pub parse_var : Bytes → Bytes → Doing Var
  parse_var id val = value_of (λ _. codes "&*" ++ id) val

  -- The bits of a variable that has an address.
  unfoldable pub print_memory : Bytes → Doing Var
  print_memory pt = do
    size ← get_size pt
    addr ← evaluate (codes "&" ++ pt)
    vv ← on_session p b what io l (data_read_memory_bytes p b what io l (first_word addr) size none)
    val ← from (at 0 vv)
    give (record blank_var {
      ref = some ((ReadMemoryBytes.begin val + ReadMemoryBytes.offset val) % 2 ^ 64);
      value = memory_bits (ReadMemoryBytes.contents val);
    })

  unfoldable pub print_number : Bytes → Var → Doing Var
  print_number pt v = do
    size ← get_size pt
    val ← from (number_or_parser_error v.value)
    res ← from (binary_text val size)
    give (with_value res v)

  -- The bits of a number if they are asked for, unless it is a remark such as `<optimized out>`.
  unfoldable pub with_bits : Bytes → Bool → Var → Doing Var
  with_bits pt bitwise shown =
      elim (bitwise && not (starts_angle shown.value && ends_angle shown.value)) [
        | true ↦ print_number pt shown
        | false ↦ give shown
      ]

  -- The value as gdb prints it.
  unfoldable pub print_value : Bytes → Bool → Doing Var
  print_value pt bitwise = do
    val ← evaluate pt
    v ← value_of (λ s. codes "*" ++ drop 1 s) val
    with_bits pt bitwise (char_or_same (parse_char p v.value) v)

  unfoldable pub print : Bytes → Bool → Doing Var
  print pt bitwise = elim (bitwise && not (is_var pt)) [
    | true ↦
        catching (print_memory pt)
          (λ e. elim (is_result_class e) [ true ↦ print_value pt bitwise | false ↦ throw e ])
    | false ↦ print_value pt bitwise
  ]
