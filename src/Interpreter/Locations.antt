-- ===== src/Interpreter/Locations.antt =====
-- The locations of breakpoints and their spelling (`loc_for_break` in interpreter.cpp, the location
-- types in include/mw/gdb/mi2/types.hpp).
use mw_dbg_runner.Common.{
  ℕ, Bool, false, not, ◌&&◌, ◌||◌, Bytes, codes, [], ◌∷◌, ◌++◌, Option, none, some, ◌==◌,
  if◌then◌else◌, ℤ, is_pos,
}
use mw_dbg_runner.Numbers.{decimal, hexadecimal, to_string, int_to_string, is_space}

pub record LinespecLocation : Type 0 where
  pub linenum : Option ℕ
  pub offset : Option ℤ
  pub filename : Option Bytes
  pub function : Option Bytes
  pub label : Option Bytes

pub record ExplicitLocation : Type 0 where
  pub source : Option Bytes
  pub function : Option Bytes
  pub label : Option Bytes
  pub line : Option ℕ
  pub line_offset : Option ℤ

pub record AddressLocation : Type 0 where
  pub expression : Option Bytes
  pub funcaddr : Option ℕ
  pub filename : Option Bytes

-- `if (o) text += before + f(*o) + after`
abbrev pub part {ℓ} : {A : Type ℓ} → Option A → (A → Bytes) → Bytes
part none f = []
part (some a) f = f a

-- The branches of the first overload, tried in order.
unfoldable pub linespec : Option ℕ → Option ℤ → Option Bytes → Option Bytes → Option Bytes → Bytes
linespec (some line) offset none function label = to_string decimal line
linespec linenum (some offset) filename function label = int_to_string offset
linespec (some line) none (some filename) function label = filename ++ b':' ∷ to_string decimal line
linespec none none none (some function) none = function
linespec none none filename (some function) (some label) = function ++ b':' ∷ label
linespec none none (some filename) (some function) none = filename ++ b':' ∷ function
linespec none none filename none (some label) = label
linespec none none filename none none = []

unfoldable pub linespec_for_break : LinespecLocation → Bytes
linespec_for_break e = linespec e.linenum e.offset e.filename e.function e.label

-- A positive offset is written with its sign.
unfoldable pub explicit_line : Option ℕ → Option ℤ → Bytes
explicit_line (some line) offset = codes "--line " ++ to_string decimal line
explicit_line none none = []
explicit_line none (some offset) =
    if is_pos offset
    then codes "--line +" ++ int_to_string offset
    else codes "--line " ++ int_to_string offset

unfoldable pub explicit_for_break : ExplicitLocation → Bytes
explicit_for_break e =
    part e.source (λ s. codes "--source " ++ s ++ codes " ")
    ++ part e.function (λ s. codes "--function " ++ s ++ codes " ")
    ++ part e.label (λ s. codes "--label " ++ s ++ codes " ")
    ++ explicit_line e.line e.line_offset

unfoldable pub address : Option Bytes → Option ℕ → Bytes
address none (some addr) = codes "0x" ++ to_string hexadecimal addr
address (some filename) (some addr) =
    codes "'" ++ filename ++ codes "'0x" ++ to_string hexadecimal addr
address filename none = []

-- An expression is used alone.
unfoldable pub address_for_break : AddressLocation → Bytes
address_for_break e = elim e.expression [
  | some expression ↦ b'*' ∷ expression
  | none ↦ b'*' ∷ address e.filename e.funcaddr
]

unfoldable pub has_space : Bytes → Bool
has_space [] = false
has_space (c ∷ s) = is_space c || has_space s

unfoldable pub starts_quoted : Bytes → Bool
starts_quoted [] = false
starts_quoted (c ∷ s) = c == b'"'

-- `back() == '"'`
unfoldable pub ends_quoted : Bytes → Bool
ends_quoted [] = false
ends_quoted (c ∷ []) = c == b'"'
ends_quoted (c ∷ d ∷ s) = ends_quoted (d ∷ s)

-- A text with white space is put in quotes, unless it stands in quotes.
unfoldable pub quote_if : Bytes → Bytes
quote_if s =
    if has_space s && (not (starts_quoted s) || not (ends_quoted s))
    then b'"' ∷ s ++ b'"' ∷ []
    else s
