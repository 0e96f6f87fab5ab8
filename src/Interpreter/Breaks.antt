-- ===== src/Interpreter/Breaks.antt =====
-- The commands on breakpoints (src/mw/gdb/mi2/interpreter.cpp).
use mw_dbg_runner.Common.{
  ℕ, Bool, true, false, Bytes, codes, lit, bytes_eq, List, [], ◌∷◌, ◌++◌, Option, ℤ,
}
use mw_dbg_runner.Error.{done, Result, ok, err, Error, ◌>>=◌, traverse, missing_value}
use mw_dbg_runner.Numbers.{decimal, to_string, int_to_string}
use mw_dbg_runner.Output.{Entry, ResultOutput, as_tuple}
use mw_dbg_runner.Output.Boost.{Boost}
use mw_dbg_runner.Output.Pegtl.{Pegtl}
use mw_dbg_runner.Types.{find}
use mw_dbg_runner.Types.Access.{results_of}
use mw_dbg_runner.Types.Breakpoints.{Breakpoint, parse_breakpoint, Watchpoint, parse_watchpoint}
use mw_dbg_runner.Interpreter.Session.{Listeners, Pipes}
use mw_dbg_runner.Interpreter.Locations.{
  LinespecLocation, linespec_for_break, ExplicitLocation, explicit_for_break, AddressLocation,
  address_for_break, quote_if, part,
}
use mw_dbg_runner.Interpreter.Commands.{Run, space, when, each, run_command, run_query}

abbrev number_list : List ℤ → Bytes
number_list = each (λ x. space ++ int_to_string x)

-- The options of `-break-insert` and the location.
pub record BreakOptions : Type 0 where
  pub temporary : Bool
  pub hardware : Bool
  pub pending : Bool
  pub disabled : Bool
  pub tracepoint : Bool
  pub condition : Option Bytes
  pub ignore_count : Option ℤ
  pub thread_id : Option ℤ

unfoldable pub break_insert_text : Bytes → BreakOptions → Bytes
break_insert_text location o =
    codes "-break-insert "
    ++ when o.temporary (codes "-t ")
    ++ when o.hardware (codes "-h ")
    ++ when o.pending (codes "-f ")
    ++ when o.disabled (codes "-d ")
    ++ when o.tracepoint (codes "-a ")
    ++ part o.condition (λ c. codes "-c " ++ quote_if c ++ space)
    ++ part o.ignore_count (λ n. codes "-i " ++ int_to_string n ++ space)
    ++ part o.thread_id (λ n. codes "-p " ++ int_to_string n ++ space)
    ++ location

-- The breakpoints among the results: those named `bkpt`.
unfoldable pub inserted : List Entry → Result (List Breakpoint)
inserted [] = ok []
inserted (e ∷ es) = elim (bytes_eq e.variable (lit "bkpt")) [
  | true ↦ do r ← as_tuple e.value_; bp ← parse_breakpoint r; bps ← inserted es; ok (bp ∷ bps)
  | false ↦ inserted es
]

-- `std::find_if` and what follows it in `break_info`.
unfoldable pub first_breakpoint : List Entry → Result Breakpoint
first_breakpoint [] = err (missing_value (lit "bkpt"))
first_breakpoint (e ∷ es) = elim (bytes_eq e.variable (lit "bkpt")) [
  | true ↦ as_tuple e.value_ >>= parse_breakpoint
  | false ↦ first_breakpoint es
]

unfoldable pub breakpoint_table : ResultOutput → Result Breakpoint
breakpoint_table rc = do
  v ← find rc.results (lit "BreakpointTable")
  tab ← as_tuple v
  body ← find tab (lit "body")
  es ← results_of body
  first_breakpoint es

unfoldable pub listed : Entry → Result Breakpoint
listed e = do r ← as_tuple e.value_; v ← find r (lit "bkpt"); es ← results_of v; parse_breakpoint es

-- `parse_result<breakpoint>(find(rc.results, id).as_tuple())`
abbrev pub breakpoint_at : Bytes → ResultOutput → Result Breakpoint
breakpoint_at id rc = do v ← find rc.results id; r ← as_tuple v; parse_breakpoint r

pub record DprintfOptions : Type 0 where
  pub temporary : Bool
  pub pending : Bool
  pub disabled : Bool
  pub condition : Option Bytes
  pub ignore_count : Option ℤ
  pub thread_id : Option ℤ

unfoldable pub dprintf_text : Bytes → List Bytes → Option Bytes → DprintfOptions → Bytes
dprintf_text format argument location o =
    codes "-dprintf-insert "
    ++ when o.temporary (codes "-t ")
    ++ when o.pending (codes "-f ")
    ++ when o.disabled (codes "-d ")
    ++ part o.condition (λ c. codes "-c " ++ c ++ space)
    ++ part o.ignore_count (λ n. codes "-i " ++ int_to_string n ++ space)
    ++ part o.thread_id (λ n. codes "-p " ++ int_to_string n ++ space)
    ++ part location (λ s. s ++ space)
    ++ format
    ++ each (λ arg. space ++ arg) argument

module _ (p : Pegtl) (b : Boost) (what : Error → Bytes) (io : Pipes) {S : Type 0}
    (l : Listeners S) where
  abbrev run : Bytes → Run p b what io l (Unit {0})
  run text = run_command p b what io l text done

  abbrev query : {A : Type 0} → Bytes → (ResultOutput → Result A) → Run p b what io l A
  query = run_query p b what io l

  unfoldable pub break_after : ℤ → ℤ → Run p b what io l (Unit {0})
  break_after number count =
      run (codes "-break-after " ++ int_to_string number ++ space ++ int_to_string count)

  unfoldable pub break_commands : ℤ → List Bytes → Run p b what io l (Unit {0})
  break_commands number commands = run (
      codes "-break-commands "
      ++ int_to_string number
      ++ each (λ cmd. codes " \"" ++ cmd ++ codes "\"") commands)

  unfoldable pub break_condition : ℤ → Bytes → Run p b what io l (Unit {0})
  break_condition number condition =
      run (codes "-break-condition " ++ int_to_string number ++ space ++ condition)

  unfoldable pub break_delete : ℤ → Run p b what io l (Unit {0})
  break_delete number = run (codes "-break-delete " ++ int_to_string number)

  unfoldable pub break_delete_all : List ℤ → Run p b what io l (Unit {0})
  break_delete_all numbers = run (codes "-break-delete " ++ number_list numbers)

  unfoldable pub break_disable : ℤ → Run p b what io l (Unit {0})
  break_disable number = run (codes "-break-disable " ++ int_to_string number)

  unfoldable pub break_disable_all : List ℤ → Run p b what io l (Unit {0})
  break_disable_all numbers = run (codes "-break-disable " ++ number_list numbers)

  unfoldable pub break_enable : ℤ → Run p b what io l (Unit {0})
  break_enable number = run (codes "-break-enable " ++ int_to_string number)

  unfoldable pub break_enable_all : List ℤ → Run p b what io l (Unit {0})
  break_enable_all numbers = run (codes "-break-enable " ++ number_list numbers)

  unfoldable pub break_info : ℤ → Run p b what io l Breakpoint
  break_info number = query (codes "-break-info " ++ int_to_string number) breakpoint_table

  unfoldable pub break_insert : Bytes → BreakOptions → Run p b what io l (List Breakpoint)
  break_insert location o = query (break_insert_text location o) λ rc. inserted rc.results

  unfoldable pub break_insert_linespec :
      LinespecLocation → BreakOptions → Run p b what io l (List Breakpoint)
  break_insert_linespec exp o = break_insert (linespec_for_break exp) o

  unfoldable pub break_insert_explicit :
      ExplicitLocation → BreakOptions → Run p b what io l (List Breakpoint)
  break_insert_explicit exp o = break_insert (explicit_for_break exp) o

  unfoldable pub break_insert_address :
      AddressLocation → BreakOptions → Run p b what io l (List Breakpoint)
  break_insert_address exp o = break_insert (address_for_break exp) o

  -- The breakpoint is looked up as `bpkt`.
  unfoldable pub dprintf_insert :
      Bytes → List Bytes → Option Bytes → DprintfOptions → Run p b what io l Breakpoint
  dprintf_insert format argument location o =
      query (dprintf_text format argument location o) (breakpoint_at (lit "bpkt"))

  unfoldable pub break_list : Run p b what io l (List Breakpoint)
  break_list =
      query (codes "-break-list")
        λ rc. do body ← find rc.results (lit "body"); es ← results_of body; traverse listed es

  unfoldable pub break_passcount : ℕ → ℕ → Run p b what io l (Unit {0})
  break_passcount tracepoint_number passcount = run (
      codes "-break-passcount "
      ++ to_string decimal tracepoint_number
      ++ space
      ++ to_string decimal passcount)

  unfoldable pub break_watch : Bytes → Bool → Bool → Run p b what io l Watchpoint
  break_watch expr access read =
      query (codes "-break-watch " ++ when access (codes "-a ") ++ when read (codes "-r ") ++ expr)
        λ rc. do v ← find rc.results (lit "wpt"); r ← as_tuple v; parse_watchpoint r
