-- ===== src/Types/Vars.antt =====
-- `parse_result` for variable objects and for disassembly (src/mw/gdb/mi2/types.cpp).
use mw_dbg_runner.Common.{
  ℕ, Option, none, some, Bool, true, false, Bytes, lit, bytes_eq, List, [], ◌++◌, ℤ, is_pos,
  if◌then◌else◌, length, replicate,
}
use mw_dbg_runner.Error.{Result, ok, ◌>>=◌, traverse}
use mw_dbg_runner.Numbers.{decimal, hexadecimal, stoi, stoull}
use mw_dbg_runner.Output.{Entry, Value, as_string}
use mw_dbg_runner.Types.{find_if}
use mw_dbg_runner.Types.Access.{
  string_at, int_at, string_if, int_if, when_found, values_of, or_empty, has, tuples_of,
}

-- `std::stoi(v.as_string()) > 0`
abbrev pub positive : Value → Result Bool
positive v = do s ← as_string v; n ← stoi decimal s; ok (is_pos n)

-- Any other word leaves the field empty.
unfoldable pub true_or_false : Bytes → Option Bool
true_or_false s =
    if bytes_eq s (lit "true")
    then some true
    else if bytes_eq s (lit "false")
    then some false
    else none

-- `if (auto val = find_if(r, id)) …`, whose body may assign no value.
abbrev pub joined : Option (Option Bool) → Option Bool
joined none = none
joined (some b) = b

abbrev word_if : List Entry → Bytes → Result (Option Bool)
word_if r id = do
  w ← when_found (find_if r id) λ v. do s ← as_string v; ok (true_or_false s)
  ok (joined w)

pub record Varobj : Type 0 where
  pub name : Bytes
  pub numchild : ℤ
  pub value : Bytes
  pub type : Bytes
  pub thread_id : Option ℤ
  pub has_more : Option Bool
  pub dynamic : Bool
  pub displayhint : Option Bytes
  pub exp : Option Bytes
  pub frozen : Bool

-- Where the record has no `has_more` the member is not initialised: `none`.
unfoldable pub parse_varobj : List Entry → Result Varobj
parse_varobj r = do
  name ← string_at r (lit "name")
  numchild ← int_at r (lit "numchild")
  value ← string_at r (lit "value")
  type ← string_at r (lit "type")
  thread_id ← int_if r (lit "thread-id")
  has_more ← when_found (find_if r (lit "has_more")) positive
  displayhint ← string_if r (lit "displayhint")
  exp ← string_if r (lit "exp")
  ok (record {
    name = name;
    numchild = numchild;
    value = value;
    type = type;
    thread_id = thread_id;
    has_more = has_more;
    dynamic = has r (lit "dynamic");
    displayhint = displayhint;
    exp = exp;
    frozen = has r (lit "dynamic");
  })

-- The list is resized to the number of children before each name is pushed back, so the names follow
-- as many empty strings.
unfoldable pub new_children_of : Value → Result (List Bytes)
new_children_of v = do
  vs ← values_of v
  names ← traverse as_string vs
  ok (replicate (length vs) [] ++ names)

pub record VarobjUpdate : Type 0 where
  pub name : Bytes
  pub value : Bytes
  pub in_scope : Option Bool
  pub type_changed : Option Bool
  pub has_more : Option Bool
  pub new_type : Option Bytes
  pub new_num_children : Option ℤ
  pub dynamic : Bool
  pub displayhint : Option Bytes
  pub new_children : List Bytes

unfoldable pub parse_varobj_update : List Entry → Result VarobjUpdate
parse_varobj_update r = do
  name ← string_at r (lit "name")
  value ← string_at r (lit "value")
  in_scope ← word_if r (lit "in_scope")
  type_changed ← word_if r (lit "type_changed")
  has_more ← when_found (find_if r (lit "has_more")) positive
  new_type ← string_if r (lit "new_type")
  new_num_children ← int_if r (lit "new_num_children")
  displayhint ← string_if r (lit "displayhint")
  new_children ← when_found (find_if r (lit "new_children")) new_children_of
  ok (record {
    name = name;
    value = value;
    in_scope = in_scope;
    type_changed = type_changed;
    has_more = has_more;
    new_type = new_type;
    new_num_children = new_num_children;
    dynamic = has r (lit "dynamic");
    displayhint = displayhint;
    new_children = or_empty new_children;
  })

pub record LineAsmInsn : Type 0 where
  pub address : ℕ
  pub func_name : Bytes
  pub offset : ℤ
  pub inst : Bytes
  pub opcodes : Option Bytes

unfoldable pub parse_line_asm_insn : List Entry → Result LineAsmInsn
parse_line_asm_insn r = do
  address ← string_at r (lit "address") >>= stoull hexadecimal
  func_name ← string_at r (lit "func-name")
  offset ← int_at r (lit "offset")
  inst ← string_at r (lit "inst")
  opcodes ← string_if r (lit "opcodes")
  ok (record {
    address = address;
    func_name = func_name;
    offset = offset;
    inst = inst;
    opcodes = opcodes;
  })

pub record SrcAndAsmLine : Type 0 where
  pub line : ℤ
  pub file : Bytes
  pub fullname : Option Bytes
  pub insns : Option (List LineAsmInsn)

unfoldable pub parse_src_and_asm_line : List Entry → Result SrcAndAsmLine
parse_src_and_asm_line r = do
  line ← int_at r (lit "line")
  file ← string_at r (lit "file")
  fullname ← string_if r (lit "fullname")
  insns ← when_found (find_if r (lit "line_asm_insn")) (tuples_of parse_line_asm_insn)
  ok (record { line = line; file = file; fullname = fullname; insns = insns })
