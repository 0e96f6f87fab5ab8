-- ===== src/Interpreter/Formats.antt =====
-- The formats of values (`format_spec` in include/mw/gdb/mi2/types.hpp) and their words.
use mw_dbg_runner.Common.{Bytes, codes, [], Option, none, some, if◌then◌else◌, bytes_eq, lit}

pub data FormatSpec : Type 0 where
  binary decimal hexadecimal octal natural zero_hexadecimal raw : FormatSpec

-- The word for a format in `-var-set-format`; there is none for `raw`.
unfoldable pub format_word : FormatSpec → Option Bytes
format_word binary = some (codes "binary")
format_word decimal = some (codes "decimal")
format_word hexadecimal = some (codes "hexadecimal")
format_word octal = some (codes "octal")
format_word natural = some (codes "natural")
format_word zero_hexadecimal = some (codes "zero-hexadecimal")
format_word raw = none

-- The comparisons of `var_show_format`; `none` is `static_cast<format_spec>(-1)`.
unfoldable pub format_of : Bytes → Option FormatSpec
format_of var =
    if bytes_eq var (lit "binary")
    then some binary
    else if bytes_eq var (lit "decimal")
    then some decimal
    else if bytes_eq var (lit "hexadecimal")
    then some hexadecimal
    else if bytes_eq var (lit "octal")
    then some octal
    else if bytes_eq var (lit "natural")
    then some natural
    else if bytes_eq var (lit "zero-hexadecimal")
    then some zero_hexadecimal
    else none

-- The letter of a format in `-data-list-register-values`.
unfoldable pub register_letter : FormatSpec → Bytes
register_letter hexadecimal = codes "x"
register_letter octal = codes "o"
register_letter binary = codes "t"
register_letter decimal = codes "d"
register_letter raw = codes "r"
register_letter natural = codes "N"
register_letter zero_hexadecimal = []
