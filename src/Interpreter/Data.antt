-- ===== src/Interpreter/Data.antt =====
-- The commands on expressions, registers and memory (src/mw/gdb/mi2/interpreter.cpp).
use mw_dbg_runner.Common.{ℕ, ◌/◌, ◌%◌, Bool, Bytes, codes, lit, List, [], ◌∷◌, ◌++◌, Option, ℤ}
use mw_dbg_runner.Error.{done, Result, Error}
use mw_dbg_runner.Numbers.{decimal, hexadecimal, to_string, int_to_string, digit_char}
use mw_dbg_runner.Output.{ResultOutput}
use mw_dbg_runner.Output.Boost.{Boost}
use mw_dbg_runner.Output.Pegtl.{Pegtl}
use mw_dbg_runner.Types.Memory.{
  RegisterValue, parse_register_value, ReadMemory, parse_read_memory, ReadMemoryBytes,
  parse_read_memory_bytes,
}
use mw_dbg_runner.Interpreter.Session.{Listeners, Pipes}
use mw_dbg_runner.Interpreter.Locations.{part, quote_if}
use mw_dbg_runner.Interpreter.Commands.{Run, space, when, each, run_command, run_query}
use mw_dbg_runner.Interpreter.Formats.{FormatSpec, register_letter}
use mw_dbg_runner.Interpreter.Reading.{text_at, all_of, tuples_at, texts_at}

-- `arr_conv[(c & 0xF0) >> 4]` and `arr_conv[c & 0x0F]` of a byte.
unfoldable pub hex_pair : ℕ → Bytes
hex_pair c = digit_char (c / 16 % 16) ∷ digit_char (c % 16) ∷ []

unfoldable pub contents_text : List ℕ → Bytes
contents_text = each hex_pair

module _ (p : Pegtl) (b : Boost) (what : Error → Bytes) (io : Pipes) {S : Type 0}
    (l : Listeners S) where
  abbrev query : {A : Type 0} → Bytes → (ResultOutput → Result A) → Run p b what io l A
  query = run_query p b what io l

  unfoldable pub data_evaluate_expression : Bytes → Run p b what io l Bytes
  data_evaluate_expression expr =
      query (codes "-data-evaluate-expression " ++ quote_if expr) (text_at (lit "value"))

  unfoldable pub data_list_changed_registers : Run p b what io l (List Bytes)
  data_list_changed_registers =
      query (codes "-data-list-changed-registers") (texts_at (lit "changed-registers"))

  unfoldable pub data_list_register_names : Run p b what io l (List Bytes)
  data_list_register_names =
      query (codes "-data-list-register-names") (texts_at (lit "register-names"))

  unfoldable pub data_list_register_values :
      FormatSpec → Option (List ℤ) → Bool → Run p b what io l (List RegisterValue)
  data_list_register_values fmt regno skip_unavaible =
      query
        (codes "-data-list-register-values "
          ++ when skip_unavaible (codes "--skip-unavailable ")
          ++ register_letter fmt
          ++ part regno (each (λ v. space ++ int_to_string v)))
        (tuples_at parse_register_value (lit "register-values"))

  unfoldable pub data_read_memory :
      Bytes → ℕ → ℕ → ℕ → Option ℤ → Option ℕ → Run p b what io l ReadMemory
  data_read_memory address word_size nr_rows nr_cols byte_offset aschar =
      query
        (codes "-data-read-memory"
          ++ part byte_offset (λ o. codes " -o " ++ int_to_string o)
          ++ space
          ++ address
          ++ codes " x"
          ++ space
          ++ to_string decimal word_size
          ++ space
          ++ to_string decimal nr_rows
          ++ space
          ++ to_string decimal nr_cols
          ++ part aschar (λ c. space ++ c ∷ []))
        (all_of parse_read_memory)

  unfoldable pub data_read_memory_bytes :
      Bytes → ℕ → Option ℤ → Run p b what io l (List ReadMemoryBytes)
  data_read_memory_bytes address count offset =
      query
        (codes "-data-read-memory-bytes"
          ++ part offset (λ o. codes " -o " ++ int_to_string o)
          ++ space
          ++ address
          ++ space
          ++ to_string decimal count)
        (tuples_at parse_read_memory_bytes (lit "memory"))

  unfoldable pub data_write_memory_bytes : Bytes → List ℕ → Option ℕ → Run p b what io l (Unit {0})
  data_write_memory_bytes address contents count =
      run_command p b what io l
        (codes "-data-write-memory-bytes "
          ++ address
          ++ space
          ++ contents_text contents
          ++ part count (λ n. space ++ to_string hexadecimal n))
        done
