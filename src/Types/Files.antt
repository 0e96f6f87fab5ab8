-- ===== src/Types/Files.antt =====
-- `parse_result` for symbols, source files, downloads and connections (src/mw/gdb/mi2/types.cpp).
use mw_dbg_runner.Common.{ℕ, ◌%◌, Option, none, some, Bytes, lit, List, [], ◌∷◌, ℤ}
use mw_dbg_runner.Error.{Result, ok, ◌>>=◌, traverse}
use mw_dbg_runner.Output.{Entry, as_string}
use mw_dbg_runner.Types.{find_if}
use mw_dbg_runner.Types.Access.{
  string_at, hex_at, size_at, string_if, int_if, hex_if, when_found, values_of, or_empty,
}

pub record SymbolLine : Type 0 where
  pub pc : ℕ
  pub line : Bytes

unfoldable pub parse_symbol_line : List Entry → Result SymbolLine
parse_symbol_line r = do
  pc ← size_at r (lit "pc")
  line ← string_at r (lit "line")
  ok (record { pc = pc; line = line })

pub record SourceInfo : Type 0 where
  pub file : Bytes
  pub line : Option ℤ
  pub fullname : Option Bytes
  pub macro_info : Option Bytes

-- `fullname` is read from `line`.
unfoldable pub parse_source_info : List Entry → Result SourceInfo
parse_source_info r = do
  file ← string_at r (lit "file")
  line ← int_if r (lit "line")
  fullname ← string_if r (lit "line")
  macro_info ← string_if r (lit "macro-info")
  ok (record { file = file; line = line; fullname = fullname; macro_info = macro_info })

pub record DownloadInfo : Type 0 where
  pub address : ℕ
  pub load_size : ℕ
  pub transfer_rate : ℕ
  pub write_rate : ℕ

unfoldable pub parse_download_info : List Entry → Result DownloadInfo
parse_download_info r = do
  address ← hex_at r (lit "address")
  load_size ← size_at r (lit "load-size")
  transfer_rate ← size_at r (lit "transfer-rate")
  write_rate ← size_at r (lit "write-rate")
  ok (record {
    address = address;
    load_size = load_size;
    transfer_rate = transfer_rate;
    write_rate = write_rate;
  })

pub record DownloadStatus : Type 0 where
  pub section : Bytes
  pub section_sent : Option ℕ
  pub total_sent : Option ℕ
  pub section_size : ℕ
  pub total_size : ℕ

-- The first two counts are looked up a second time, `section-sent` under another name.
unfoldable pub parse_download_status : List Entry → Result DownloadStatus
parse_download_status r = do
  section ← string_at r (lit "section")
  section_sent ← when_found (find_if r (lit "section-sent")) λ _. size_at r (lit "sections-sent")
  total_sent ← when_found (find_if r (lit "total-sent")) λ _. size_at r (lit "total-sent")
  section_size ← size_at r (lit "sections-size")
  total_size ← size_at r (lit "total-size")
  ok (record {
    section = section;
    section_sent = section_sent;
    total_sent = total_sent;
    section_size = section_size;
    total_size = total_size;
  })

-- The address is assigned to a `std::string`, which keeps the character of that code.
unfoldable pub char_of : Option ℕ → Option Bytes
char_of none = none
char_of (some n) = some (n % 256 ∷ [])

pub record ConnectionNotification : Type 0 where
  pub addr : Bytes
  pub func : Option Bytes
  pub args : List Bytes

unfoldable pub parse_connection_notification : List Entry → Result ConnectionNotification
parse_connection_notification r = do
  addr ← hex_if r (lit "addr")
  func ← string_if r (lit "func")
  args ← when_found (find_if r (lit "args")) λ v. do vs ← values_of v; traverse as_string vs
  ok (record { addr = or_empty (char_of addr); func = func; args = or_empty args })

pub record InfoAdaException : Type 0 where
  pub name : Bytes
  pub address : ℕ

unfoldable pub parse_info_ada_exception : List Entry → Result InfoAdaException
parse_info_ada_exception r = do
  name ← string_at r (lit "name")
  address ← hex_at r (lit "address")
  ok (record { name = name; address = address })
