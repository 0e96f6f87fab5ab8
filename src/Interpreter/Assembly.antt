-- ===== src/Interpreter/Assembly.antt =====
-- `data_disassemble` (src/mw/gdb/mi2/interpreter.cpp).
use mw_dbg_runner.Common.{
  ℕ, Bool, true, false, Bytes, codes, lit, [], ◌++◌, Option, none, some, ℤ, pos,
}
use mw_dbg_runner.Error.{Result, ok, Error, ◌>>=◌}
use mw_dbg_runner.Numbers.{decimal, to_string, int_to_string}
use mw_dbg_runner.Output.{Value, list, Items, results, as_list, as_tuple}
use mw_dbg_runner.Output.Boost.{Boost}
use mw_dbg_runner.Output.Pegtl.{Pegtl}
use mw_dbg_runner.Types.{find}
use mw_dbg_runner.Types.Access.{tuples_of, results_of}
use mw_dbg_runner.Types.Vars.{parse_line_asm_insn, SrcAndAsmLine, parse_src_and_asm_line}
use mw_dbg_runner.Interpreter.Session.{Listeners, Pipes}
use mw_dbg_runner.Interpreter.Locations.{part}
use mw_dbg_runner.Interpreter.Commands.{Run, run_query}
use mw_dbg_runner.Interpreter.Options.{DisassembleMode, mode_code}

-- `asm_insns.type() == boost::typeindex::type_id<list>()`
unfoldable pub holds_list : Value → Bool
holds_list (list l) = true
holds_list _ = false

-- `list.type() == boost::typeindex::type_id<std::vector<result>>()`
unfoldable pub holds_results : Items → Bool
holds_results (results rs) = true
holds_results _ = false

-- A value-initialised `src_and_asm_line`.
abbrev pub blank_line : SrcAndAsmLine
blank_line = record { line = pos 0; file = []; fullname = none; insns = none }

-- `find(asm_insns.as_list().as_results(), "src_and_asm_line").as_tuple()`
unfoldable pub source_line : Value → Result SrcAndAsmLine
source_line asm_insns = do
  es ← results_of asm_insns
  v ← find es (lit "src_and_asm_line")
  r ← as_tuple v
  parse_src_and_asm_line r

-- The branch for a value that is no list.
unfoldable pub instructions : Value → Result SrcAndAsmLine
instructions asm_insns = do
  vec ← tuples_of parse_line_asm_insn asm_insns
  ok (record blank_line { insns = some vec })

unfoldable pub disassembled : Value → Result SrcAndAsmLine
disassembled asm_insns = elim (holds_list asm_insns) [
  | true ↦ source_line asm_insns
  | false ↦ instructions asm_insns
]

unfoldable pub disassembled_range : Value → Result SrcAndAsmLine
disassembled_range asm_insns = elim (holds_list asm_insns) [
  | true ↦ do
    l ← as_list asm_insns
    elim (holds_results l) [ true ↦ source_line asm_insns | false ↦ ok blank_line ]
  | false ↦ instructions asm_insns
]

abbrev mode_text : DisassembleMode → Bytes
mode_text de = codes " -- " ++ to_string decimal (mode_code de)

module _ (p : Pegtl) (b : Boost) (what : Error → Bytes) (io : Pipes) {S : Type 0}
    (l : Listeners S) where
  abbrev query : Bytes → (Value → Result SrcAndAsmLine) → Run p b what io l SrcAndAsmLine
  query text read = run_query p b what io l text λ rc. find rc.results (lit "asm_insns") >>= read

  unfoldable pub data_disassemble : DisassembleMode → Run p b what io l SrcAndAsmLine
  data_disassemble de = query (codes "-data-disassemble" ++ mode_text de) disassembled

  unfoldable pub data_disassemble_range : DisassembleMode → ℕ → ℕ → Run p b what io l SrcAndAsmLine
  data_disassemble_range de start_addr end_addr =
      query
        (codes "-data-disassemble"
          ++ codes " -s "
          ++ to_string decimal start_addr
          ++ codes " -e "
          ++ to_string decimal end_addr
          ++ mode_text de)
        disassembled_range

  unfoldable pub data_disassemble_file :
      DisassembleMode → Bytes → ℕ → Option ℤ → Run p b what io l SrcAndAsmLine
  data_disassemble_file de filename linenum lines =
      query
        (codes "-data-disassemble "
          ++ codes " -f "
          ++ filename
          ++ codes " -l "
          ++ to_string decimal linenum
          ++ part lines (λ n. codes " -n " ++ int_to_string n)
          ++ mode_text de)
        disassembled
