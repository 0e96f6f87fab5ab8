-- ===== src/Gdb/Frames.antt =====
-- `frame_impl` apart from the printing of variables (src/mw/gdb/mi2/frame_impl.cpp). The timer of the
-- process, which its functions reset, is not part of the state.
use mw_dbg_runner.Common.{
  map, ℕ, ◌+◌, Bool, true, false, ◌&&◌, Bytes, codes, List, [], ◌∷◌, ◌++◌, Option, none, some, ◌==◌,
  ltb, length, if◌then◌else◌, ℤ,
}
use mw_dbg_runner.Debug.Act.{is_interpreter_error}
use mw_dbg_runner.Error.{Error, Result, ok, err, crashed}
use mw_dbg_runner.Numbers.{decimal, hexadecimal, to_string, stoull}
use mw_dbg_runner.Output.Boost.{Boost}
use mw_dbg_runner.Output.Pegtl.{Pegtl}
use mw_dbg_runner.Types.Access.{to_size, or_empty}
use mw_dbg_runner.Types.Frames.{Frame}
use mw_dbg_runner.Types.Memory.{RegisterValue}
use mw_dbg_runner.Types.Vars.{LineAsmInsn, SrcAndAsmLine}
use mw_dbg_runner.Interpreter.Session.{Listeners, Pipes}
use mw_dbg_runner.Interpreter.Formats.{FormatSpec}
use mw_dbg_runner.Interpreter.Options.{DisassembleMode}
use mw_dbg_runner.Interpreter.Data.{
  data_evaluate_expression, data_list_register_names, data_list_register_values,
  data_read_memory_bytes, data_write_memory_bytes,
}
use mw_dbg_runner.Interpreter.Assembly.{data_disassemble_range}
use mw_dbg_runner.Interpreter.Breaks.{break_disable, break_enable}
use mw_dbg_runner.Interpreter.Exec.{exec_return}
use mw_dbg_runner.Interpreter.Frames.{stack_list_frames, stack_select_frame}
use mw_dbg_runner.Debug.Act.{Act, give, from, catching, throw, ◌>>=◌}
use mw_dbg_runner.Debug.Frame.{at, BacktraceElem, AddressInfo}
use mw_dbg_runner.Gdb.Memory.{read_blocks}
use mw_dbg_runner.Gdb.Numbering.{number_of}
use mw_dbg_runner.Gdb.State.{World, Host, host_of, with_host, set_exit_code, on_session}

-- `try {val = std::stoull(r.value, nullptr, 16);} catch(...){}`
abbrev or_zero : Result ℕ → ℕ
or_zero (ok n) = n
or_zero (err e) = 0

-- `reg_names[r.number]`: outside the vector the behaviour is undefined.
abbrev pub name_of : Result Bytes → Result Bytes
name_of (ok n) = ok n
name_of (err e) = err crashed

abbrev pub add_register : ℕ → Result Bytes → Result (List (Bytes × ℕ)) → Result (List (Bytes × ℕ))
add_register val (err e) rest = err e
add_register val (ok name) (err e) = err e
add_register val (ok name) (ok mp) = ok ((name, val) ∷ mp)

-- The loop of `regs`, which takes the registers whose number is greater than the number of names. The
-- map is a list of its entries, in the order of `emplace`.
unfoldable pub named_registers : List Bytes → List RegisterValue → Result (List (Bytes × ℕ))
named_registers reg_names [] = ok []
named_registers reg_names (r ∷ rs) =
    let rest = named_registers reg_names rs in
    let name = name_of (at (to_size r.number) reg_names) in
    if ltb (length reg_names) (to_size r.number)
    then add_register (or_zero (stoull hexadecimal r.value)) name rest
    else rest

unfoldable pub backtrace_elem : Frame → BacktraceElem
backtrace_elem b = record {
  cnt = b.level;
  addr = b.addr;
  func = or_empty b.func;
  file = or_empty b.file;
  line = b.line;
}

unfoldable pub instruction_at : ℕ → List LineAsmInsn → Option LineAsmInsn
instruction_at addr [] = none
instruction_at addr (i ∷ is) = if i.address == addr then some i else instruction_at addr is

abbrev is_empty : Bytes → Bool
is_empty [] = true
is_empty (c ∷ s) = false

abbrev empty_or_none : Option Bytes → Bool
empty_or_none none = true
empty_or_none (some s) = is_empty s

abbrev is_none {ℓ} : {A : Type ℓ} → Option A → Bool
is_none none = true
is_none (some a) = false

abbrev function_info : AddressInfo → Option LineAsmInsn → AddressInfo
function_info ai none = ai
function_info ai (some i) = record ai {
  function = some i.func_name;
  offset = some (to_size i.offset);
}

-- What `addr2line` makes of a disassembled line.
unfoldable pub line_info : ℕ → SrcAndAsmLine → Option AddressInfo
line_info addr dd =
    let ai : AddressInfo = record {
      file = dd.file;
      line = to_size dd.line;
      full_name = dd.fullname;
      function = none;
      offset = none;
    } in
    if is_empty dd.file && empty_or_none dd.fullname && is_none dd.insns
    then none
    else some (function_info ai (instruction_at addr (or_empty dd.insns)))

module _ (p : Pegtl) (b : Boost) (what : Error → Bytes) (io : Pipes) {S : Type 0} (l : Listeners S)
    (M : Type 0) where
  abbrev Doing : Type 0 → Type 0
  Doing A = Act (World io S M) A

  abbrev on_host : (Host M → Host M) → Doing (Unit {0})
  on_host f w = give tt (with_host io S M (f (host_of io S M w)) w)

  abbrev current_host : Doing (Host M)
  current_host w = give (host_of io S M w) w

  unfoldable pub regs : Doing (List (Bytes × ℕ))
  regs = do
    reg_names ← on_session p b what io l (data_list_register_names p b what io l)
    rs ←
        on_session p b what io l
          (data_list_register_values p b what io l FormatSpec.hexadecimal none false)
    from (named_registers reg_names rs)

  unfoldable pub set : Bytes → Bytes → Doing (Unit {0})
  set var val = do
    _ ← on_session p b what io l (
        data_evaluate_expression p b what io l
          (codes "\"" ++ var ++ codes " = " ++ val ++ codes "\""))
    give tt

  unfoldable pub set_element : Bytes → ℕ → Bytes → Doing (Unit {0})
  set_element var idx val = do
    _ ← on_session p b what io l (
        data_evaluate_expression p b what io l (
          codes "\""
          ++ var
          ++ codes "["
          ++ to_string decimal idx
          ++ codes "] = "
          ++ val
          ++ codes "\""))
    give tt

  unfoldable pub return_ : Bytes → Doing (Unit {0})
  return_ value = do _ ← on_session p b what io l (exec_return p b what io l (some value)); give tt

  unfoldable pub set_exit : ℤ → Doing (Unit {0})
  set_exit code = on_host (set_exit_code code)

  unfoldable pub select : ℤ → Doing (Unit {0})
  select frame = on_session p b what io l (stack_select_frame p b what io l (to_size frame))

  unfoldable pub backtrace : Doing (List BacktraceElem)
  backtrace = do
    bt ← on_session p b what io l (stack_list_frames p b what io l none false)
    give (map backtrace_elem bt)

  -- The two forms of the command; the second is tried where the first throws an `interpreter_error`.
  unfoldable pub disassemble_line : ℕ → Doing SrcAndAsmLine
  disassemble_line addr =
      catching
        (on_session p b what io l (
          data_disassemble_range p b what io l
            DisassembleMode.mixed_source_and_disassembly_with_raw_opcodes addr (addr + 1)))
        (λ e. elim (is_interpreter_error e) [
          | true ↦ on_session p b what io l (
              data_disassemble_range p b what io l
                DisassembleMode.mixed_source_and_disassembly_with_raw_opcodes_deprecated addr
                (addr + 1))
          | false ↦ throw e
        ])

  unfoldable pub addr2line : ℕ → Doing (Option AddressInfo)
  addr2line addr =
      catching (do dd ← disassemble_line addr; give (line_info addr dd))
        (λ e. elim (is_interpreter_error e) [ true ↦ give none | false ↦ throw e ])

  abbrev with_number : (ℤ → Doing (Unit {0})) → ℕ → Host M → Doing (Unit {0})
  with_number f bp host = elim (number_of bp host.break_point_map) [
    | none ↦ give tt
    | some num ↦ f num
  ]

  unfoldable pub disable : ℕ → Doing (Unit {0})
  disable bp = do
    host ← current_host
    with_number (λ num. on_session p b what io l (break_disable p b what io l num)) bp host

  unfoldable pub enable : ℕ → Doing (Unit {0})
  enable bp = do
    host ← current_host
    with_number (λ num. on_session p b what io l (break_enable p b what io l num)) bp host

  unfoldable pub read_memory : ℕ → ℕ → Doing (List ℕ)
  read_memory addr size = do
    data_ ←
        on_session p b what io l
          (data_read_memory_bytes p b what io l (to_string decimal addr) size none)
    give (read_blocks data_ [])

  unfoldable pub write_memory : ℕ → List ℕ → Doing (Unit {0})
  write_memory addr vec =
      on_session p b what io l
        (data_write_memory_bytes p b what io l (to_string decimal addr) vec none)
