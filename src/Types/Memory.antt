-- ===== src/Types/Memory.antt =====
-- `parse_result` for registers and memory (src/mw/gdb/mi2/types.cpp).
use mw_dbg_runner.Common.{ℕ, Option, none, Bytes, lit, List, [], ◌++◌, ℤ, length, replicate}
use mw_dbg_runner.Error.{Result, ok, ◌>>=◌, traverse}
use mw_dbg_runner.Output.{Entry, Value, as_string, as_tuple}
use mw_dbg_runner.Types.{find, find_if}
use mw_dbg_runner.Types.Access.{
  string_at, int_at, hex_at, size_at, string_if, when_found, values_of,
}
use mw_dbg_runner.Types.Contents.{hex_bytes, region_bytes, memory_byte}

pub record RegisterValue : Type 0 where
  pub number : ℤ
  pub value : Bytes

unfoldable pub parse_register_value : List Entry → Result RegisterValue
parse_register_value r = do
  number ← int_at r (lit "number")
  value ← string_at r (lit "value")
  ok (record { number = number; value = value })

-- `resize(size)` and then `push_back` of each byte.
unfoldable pub entry_data : List Value → Result (List ℕ)
entry_data vs = do bytes ← traverse memory_byte vs; ok (replicate (length vs) 0 ++ bytes)

pub record MemoryEntry : Type 0 where
  pub addr : ℕ
  pub data_ : List ℕ
  pub ascii : Option Bytes

unfoldable pub parse_memory_entry : List Entry → Result MemoryEntry
parse_memory_entry r = do
  addr ← hex_at r (lit "addr")
  v ← find r (lit "data")
  vs ← values_of v
  data_ ← entry_data vs
  ascii ← string_if r (lit "ascii")
  ok (record { addr = addr; data_ = data_; ascii = ascii })

-- A value-initialised `memory_entry`; its address is not initialised and stands as 0.
abbrev pub blank_entry : MemoryEntry
blank_entry = record { addr = 0; data_ = []; ascii = none }

pub record ReadMemory : Type 0 where
  pub addr : ℕ
  pub nr_bytes : ℕ
  pub total_bytes : ℕ
  pub next_row : ℕ
  pub prev_row : ℕ
  pub next_page : ℕ
  pub prev_page : ℕ
  pub memory : List MemoryEntry

-- Here too the list is resized before the rows are pushed back.
unfoldable pub parse_read_memory : List Entry → Result ReadMemory
parse_read_memory r = do
  addr ← hex_at r (lit "addr")
  nr_bytes ← size_at r (lit "nr-bytes")
  total_bytes ← size_at r (lit "total-bytes")
  next_row ← hex_at r (lit "next-row")
  prev_row ← hex_at r (lit "prev-row")
  next_page ← hex_at r (lit "next-page")
  prev_page ← hex_at r (lit "prev-page")
  v ← find r (lit "memory")
  vs ← values_of v
  memory ← traverse (λ m. as_tuple m >>= parse_memory_entry) vs
  ok (record {
    addr = addr;
    nr_bytes = nr_bytes;
    total_bytes = total_bytes;
    next_row = next_row;
    prev_row = prev_row;
    next_page = next_page;
    prev_page = prev_page;
    memory = replicate (length vs) blank_entry ++ memory;
  })

pub record ReadMemoryBytes : Type 0 where
  pub begin : ℕ
  pub offset : ℕ
  pub end : ℕ
  pub contents : List ℕ

unfoldable pub parse_read_memory_bytes : List Entry → Result ReadMemoryBytes
parse_read_memory_bytes r = do
  begin ← hex_at r (lit "begin")
  offset ← size_at r (lit "offset")
  end ← size_at r (lit "end")
  contents ← string_at r (lit "contents")
  ok (record { begin = begin; offset = offset; end = end; contents = hex_bytes contents })

pub record MemoryRegion : Type 0 where
  pub address : ℕ
  pub size : ℕ
  pub contents : Option (List ℕ)

-- The length is read from `value`.
unfoldable pub parse_memory_region : List Entry → Result MemoryRegion
parse_memory_region r = do
  address ← hex_at r (lit "address")
  size ← size_at r (lit "value")
  contents ← when_found (find_if r (lit "contents")) λ v. do s ← as_string v; ok (region_bytes s)
  ok (record { address = address; size = size; contents = contents })
