-- ===== src/Interpreter/Info.antt =====
-- The commands on gdb itself, on groups of threads and on the system (src/mw/gdb/mi2/interpreter.cpp).
use mw_dbg_runner.Common.{
  true, Bool, Bytes, codes, lit, bytes_eq, List, [], ◌∷◌, ◌++◌, Option, none, some, ℤ,
  if◌then◌else◌,
}
use mw_dbg_runner.Error.{done, exit, Result, ok, Error, ◌>>=◌, traverse}
use mw_dbg_runner.Numbers.{int_to_string}
use mw_dbg_runner.Output.{Entry, Value, ResultOutput, as_tuple}
use mw_dbg_runner.Output.Boost.{Boost}
use mw_dbg_runner.Output.Pegtl.{Pegtl}
use mw_dbg_runner.Types.{find, find_if}
use mw_dbg_runner.Types.Access.{string_at, values_of}
use mw_dbg_runner.Types.Files.{InfoAdaException, parse_info_ada_exception}
use mw_dbg_runner.Types.Threads.{Groups, parse_groups}
use mw_dbg_runner.Interpreter.Session.{Listeners, Pipes}
use mw_dbg_runner.Interpreter.Work.{work_impl}
use mw_dbg_runner.Interpreter.Checks.{expect_class, expect_result}
use mw_dbg_runner.Interpreter.Stop.{attach, widen, answer, then_own, header_listener}
use mw_dbg_runner.Interpreter.Locations.{part, quote_if}
use mw_dbg_runner.Interpreter.Commands.{Run, space, when, each, prepare, run_command, run_query}
use mw_dbg_runner.Interpreter.Reading.{text_at, tuples_at, texts_at}

-- The list named `threads`, else the one named `groups`, else none.
unfoldable pub listed_values : List Entry → Result (List Value)
listed_values rs = elim (find_if rs (lit "threads")) [
  | some v ↦ values_of v
  | none ↦ elim (find_if rs (lit "groups")) [ some v ↦ values_of v | none ↦ ok [] ]
]

abbrev thread_groups : ResultOutput → Result (List Groups)
thread_groups rc = do
  res ← listed_values rc.results
  traverse (λ r. as_tuple r >>= parse_groups) res

-- The title and the identifier of a column.
unfoldable pub column : Value → Result (Bytes × Bytes)
column v = do
  tup ← as_tuple v
  title ← string_at tup (lit "col_name")
  id ← string_at tup (lit "colhdr")
  ok (title, id)

-- `find(b.as_tuple(), id.c_str()).as_string()`
abbrev pub cell : Value → Bytes → Result Bytes
cell row id = do tup ← as_tuple row; string_at tup id

abbrev pub titles : List (Bytes × Bytes) → List Bytes
titles [] = []
titles ((title, id) ∷ cs) = title ∷ titles cs

abbrev pub ids : List (Bytes × Bytes) → List Bytes
ids [] = []
ids ((title, id) ∷ cs) = id ∷ ids cs

-- The titles, and for each row of the body its cells in the order of the columns.
unfoldable pub os_table : ResultOutput → Result (List (List Bytes))
os_table rc = do
  hdr ← find rc.results (lit "hdr")
  in_ ← values_of hdr
  columns ← traverse column in_
  v ← find rc.results (lit "body")
  body ← values_of v
  rows ← traverse (λ row. traverse (cell row) (ids columns)) body
  ok (titles columns ∷ rows)

module _ (p : Pegtl) (b : Boost) (what : Error → Bytes) (io : Pipes) {S : Type 0}
    (l : Listeners S) where
  abbrev run : Bytes → Run p b what io l (Unit {0})
  run text = run_command p b what io l text done

  abbrev query : {A : Type 0} → Bytes → (ResultOutput → Result A) → Run p b what io l A
  query = run_query p b what io l

  unfoldable pub info_ada_exceptions : Bytes → Run p b what io l (List InfoAdaException)
  info_ada_exceptions regexp =
      query (codes "-info-ada-exceptions " ++ regexp)
        (tuples_at parse_info_ada_exception (lit "body"))

  unfoldable pub info_gdb_mi_command : Bytes → Run p b what io l Bool
  info_gdb_mi_command cmd_name =
      query (codes "-info-gdb-mi-command " ++ cmd_name)
        λ rc. do s ← text_at (lit "exists") rc; ok (bytes_eq s (lit "true"))

  unfoldable pub list_features : Run p b what io l (List Bytes)
  list_features = query (codes "-list-features") (texts_at (lit "result"))

  unfoldable pub list_target_features : Run p b what io l (List Bytes)
  list_target_features = query (codes "-list-target-features") (texts_at (lit "result"))

  unfoldable pub gdb_exit : Run p b what io l (Unit {0})
  gdb_exit = run_command p b what io l (codes "-gdb-exit") exit

  unfoldable pub gdb_set : Bytes → Bytes → Run p b what io l (Unit {0})
  gdb_set name value = run (codes "-gdb-set " ++ name ++ space ++ value)

  unfoldable pub gdb_show : Bytes → Run p b what io l Bytes
  gdb_show name = query (codes "-gdb-show " ++ name) (text_at (lit "value"))

  -- The console output during the command, each piece followed by a newline.
  unfoldable pub gdb_version : Run p b what io l Bytes
  gdb_version st proc =
      let listen = record (widen l) { on_console = then_own l.on_console header_listener } in
      answer io (
        work_impl p b what listen (expect_class st.token_gen done) true io
          (attach [] (prepare (codes "-gdb-version") st)) proc)

  unfoldable pub list_thread_groups : Bool → Option ℤ → List ℤ → Run p b what io l (List Groups)
  list_thread_groups available recurse groups =
      query
        (codes "-list-thread-groups"
          ++ when available (codes " --available")
          ++ part recurse (λ n. codes " --recurse " ++ int_to_string n)
          ++ each (λ g. space ++ int_to_string g) groups)
        thread_groups

  unfoldable pub info_os : Option Bytes → Run p b what io l (List (List Bytes))
  info_os type = query (codes "-info-os" ++ part type (λ t. space ++ t)) os_table

  unfoldable pub add_inferior : Run p b what io l Bytes
  add_inferior = query (codes "-add-inferior") (text_at (lit "inferior"))

  -- A record of any class is accepted.
  unfoldable pub interpreter_exec : Bytes → Bytes → Run p b what io l (Unit {0})
  interpreter_exec interpreter command st proc =
      work_impl p b what l (expect_result st.token_gen (λ sr s. ok s)) true io
        (prepare (codes "-interpreter-exec " ++ interpreter ++ space ++ quote_if command) st) proc

  unfoldable pub inferior_tty_set : Bytes → Run p b what io l (Unit {0})
  inferior_tty_set terminal = run (codes "-inferior-tty-set " ++ terminal)

  unfoldable pub inferior_tty_show : Run p b what io l Bytes
  inferior_tty_show = query (codes "-inferior-tty-show") (text_at (lit "inferior_tty_terminal"))

  unfoldable pub enable_timings : Bool → Run p b what io l (Unit {0})
  enable_timings enable =
      run (codes "-enable-timings " ++ (if enable then codes "yes" else codes "no"))
