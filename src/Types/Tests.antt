-- ===== src/Types/Tests.antt =====
-- The theorems on `parse_result` at concrete records.
use mw_dbg_runner.Common.{
  ◌≡◌, refl, arith, true, false, Bytes, codes, lit, bytes_eq, List, [], ◌∷◌, none, some, pos, map,
  ◌/◌, ◌↔◌,
}
use mw_dbg_runner.Error.{ok, err, Throws, missing_value}
use mw_dbg_runner.Numbers.{
  stoull, stoi, strto, digit_value, skip_space, skip_sign, skip_prefix, starts_digit, scan,
}
use mw_dbg_runner.Output.{Entry, Value, string, as_string}
use mw_dbg_runner.Types.{find, find_if}
use mw_dbg_runner.Types.Access.{has}
use mw_dbg_runner.Types.Find.{entry, Lacks, IsFirst, find_lem}
use mw_dbg_runner.Types.Contents.{hex_bytes, region_bytes, memory_byte}
use mw_dbg_runner.Types.Memory.{entry_data}
use mw_dbg_runner.Types.Threads.{parse_groups}
use mw_dbg_runner.Types.Vars.{Varobj, parse_varobj}
use mw_dbg_runner.Types.RoundTrip.{show_bytes, hex_bytes-show_bytes, region_bytes-show_bytes}
use mw_dbg_runner.Types.Faults.{parse_groups-exit_code, parse_varobj-frozen}

abbrev text : Bytes → Bytes → Entry
text id s = entry id (string s)

abbrev frame_entries : List Entry
frame_entries = text (codes "level") (codes "0") ∷ text (codes "addr") (codes "0x10") ∷ []

find_lem_example :
    ((find frame_entries (codes "addr") ≡ ok (string (codes "0x10")))
      ↔ IsFirst frame_entries (codes "addr") (string (codes "0x10")))
    × (Lacks frame_entries (codes "addr")
        → find frame_entries (codes "addr") ≡ err (missing_value (codes "addr")))
find_lem_example = find_lem frame_entries (codes "addr") (string (codes "0x10"))

hex_bytes-show_bytes_example : hex_bytes (show_bytes true (0x1f ∷ 0xa0 ∷ [])) ≡ 0x1f ∷ 0xa0 ∷ []
hex_bytes-show_bytes_example =
    hex_bytes-show_bytes true (0x1f ∷ 0xa0 ∷ []) (omega arith, (omega arith, tt))

region_bytes-show_bytes_example :
    region_bytes (show_bytes false (0x1f ∷ 0xa0 ∷ [])) ≡ map (λ n. n / 16) (0x1f ∷ 0xa0 ∷ [])
region_bytes-show_bytes_example =
    region_bytes-show_bytes false (0x1f ∷ 0xa0 ∷ []) (omega arith, (omega arith, tt))

abbrev exited_group : List Entry
exited_group =
    text (lit "id") (codes "1")
    ∷ text (lit "type") (codes "process")
    ∷ text (lit "exit_code") (codes "03")
    ∷ []

find_if-exit_code : find_if exited_group (lit "exit_code") ≡ some (string (codes "03"))
unfolding find_if lit bytes_eq
find_if-exit_code = refl

parse_groups-exit_code_example : Throws (parse_groups exited_group)
parse_groups-exit_code_example =
    parse_groups-exit_code exited_group (string (codes "03")) find_if-exit_code

abbrev variable_entries : List Entry
variable_entries =
    text (lit "name") (codes "var1")
    ∷ text (lit "numchild") (codes "0")
    ∷ text (lit "value") (codes "7")
    ∷ text (lit "type") (codes "int")
    ∷ text (lit "dynamic") (codes "1")
    ∷ []

abbrev a_variable : Varobj
a_variable = record {
  name = codes "var1";
  numchild = pos 0;
  value = codes "7";
  type = codes "int";
  thread_id = none;
  has_more = none;
  dynamic = true;
  displayhint = none;
  exp = none;
  frozen = true;
}

parse_varobj-a_variable : parse_varobj variable_entries ≡ ok a_variable
unfolding parse_varobj find find_if lit bytes_eq as_string stoi strto digit_value skip_space
    skip_sign skip_prefix starts_digit scan
parse_varobj-a_variable = refl

parse_varobj-frozen_example :
    (a_variable.frozen ≡ a_variable.dynamic)
    × (a_variable.dynamic ≡ has variable_entries (lit "dynamic"))
parse_varobj-frozen_example =
    parse_varobj-frozen variable_entries a_variable parse_varobj-a_variable

abbrev two_bytes : List Value
two_bytes = string (codes "0x1f") ∷ string (codes "a") ∷ []

entry_data-two_bytes : entry_data two_bytes ≡ ok (0 ∷ 0 ∷ 31 ∷ 10 ∷ [])
unfolding entry_data memory_byte as_string stoull strto digit_value skip_space skip_sign skip_prefix
    starts_digit scan
entry_data-two_bytes = refl
