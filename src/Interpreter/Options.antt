-- ===== src/Interpreter/Options.antt =====
-- The enumerations that the commands take (include/mw/gdb/mi2/types.hpp) and the spelling of a
-- location in `-exec-jump` and `-exec-until` (`loc_str` in src/mw/gdb/mi2/interpreter.cpp).
use mw_dbg_runner.Common.{ℕ, Bytes, codes, [], ◌++◌, Option, none, some, ℤ, is_pos, if◌then◌else◌}
use mw_dbg_runner.Numbers.{decimal, to_string, int_to_string}
use mw_dbg_runner.Interpreter.Commands.{space}
use mw_dbg_runner.Interpreter.Locations.{
  LinespecLocation, ExplicitLocation, AddressLocation, linespec, address_for_break, part,
}

pub data PrintValues : Type 0 where
  no_values all_values simple_values : PrintValues

-- `static_cast<int>(print_values)`
unfoldable pub print_code : PrintValues → ℕ
print_code PrintValues.no_values = 0
print_code PrintValues.all_values = 1
print_code PrintValues.simple_values = 2

pub data DisassembleMode : Type 0 where
  disassembly_only mixed_source_and_disassembly_deprecated : DisassembleMode
  disassembly_with_raw_opcodes : DisassembleMode
  mixed_source_and_disassembly_with_raw_opcodes_deprecated : DisassembleMode
  mixed_source_and_disassembly mixed_source_and_disassembly_with_raw_opcodes : DisassembleMode

-- `static_cast<int>(de)`
unfoldable pub mode_code : DisassembleMode → ℕ
mode_code DisassembleMode.disassembly_only = 0
mode_code DisassembleMode.mixed_source_and_disassembly_deprecated = 1
mode_code DisassembleMode.disassembly_with_raw_opcodes = 2
mode_code DisassembleMode.mixed_source_and_disassembly_with_raw_opcodes_deprecated = 3
mode_code DisassembleMode.mixed_source_and_disassembly = 4
mode_code DisassembleMode.mixed_source_and_disassembly_with_raw_opcodes = 5

-- A range of frames, " first second".
abbrev pub range_text : Option (ℕ × ℕ) → Bytes
range_text range =
    part range (λ r. space ++ to_string decimal r.0 ++ space ++ to_string decimal r.1)

unfoldable pub loc_str_linespec : LinespecLocation → Bytes
loc_str_linespec e = linespec e.linenum e.offset e.filename e.function e.label

-- A positive offset is written with its sign.
unfoldable pub loc_str_line : Option ℕ → Option ℤ → Bytes
loc_str_line (some line) offset = codes "-line " ++ to_string decimal line
loc_str_line none none = []
loc_str_line none (some offset) =
    if is_pos offset
    then codes "-line +" ++ int_to_string offset
    else codes "-line " ++ int_to_string offset

unfoldable pub loc_str_explicit : ExplicitLocation → Bytes
loc_str_explicit e =
    part e.source (λ s. codes "-source " ++ s ++ space)
    ++ part e.function (λ s. codes "-function " ++ s ++ space)
    ++ part e.label (λ s. codes "-label " ++ s ++ space)
    ++ loc_str_line e.line e.line_offset

unfoldable pub loc_str_address : AddressLocation → Bytes
loc_str_address e = address_for_break e
