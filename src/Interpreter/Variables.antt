-- ===== src/Interpreter/Variables.antt =====
-- The commands on variable objects (src/mw/gdb/mi2/interpreter.cpp).
use mw_dbg_runner.Common.{
  ℕ, Bool, false, Bytes, codes, lit, List, [], ◌++◌, Option, none, some, ℤ, if◌then◌else◌,
}
use mw_dbg_runner.Error.{done, Result, ok, Error, ◌>>=◌, traverse}
use mw_dbg_runner.Numbers.{decimal, to_string, int_to_string, stoull}
use mw_dbg_runner.Output.{Value, ResultOutput, as_tuple}
use mw_dbg_runner.Output.Boost.{Boost}
use mw_dbg_runner.Output.Pegtl.{Pegtl}
use mw_dbg_runner.Types.{find}
use mw_dbg_runner.Types.Access.{int_at, values_of}
use mw_dbg_runner.Types.Vars.{Varobj, parse_varobj, VarobjUpdate, parse_varobj_update}
use mw_dbg_runner.Interpreter.Session.{Listeners, Pipes}
use mw_dbg_runner.Interpreter.Locations.{part}
use mw_dbg_runner.Interpreter.Commands.{Run, space, when, run_command, run_unended, run_query}
use mw_dbg_runner.Interpreter.Options.{PrintValues, print_code}
use mw_dbg_runner.Interpreter.Formats.{FormatSpec, format_word, format_of}
use mw_dbg_runner.Interpreter.Reading.{text_at, all_of, tuples_at, texts_at, behind_blanks}

-- The name of a new variable object, or a dash.
unfoldable pub name_or_dash : Option Bytes → Bytes
name_or_dash none = codes "- "
name_or_dash (some name) = name ++ space

unfoldable pub addr_or_star : Option ℕ → Bytes
addr_or_star none = codes "* "
addr_or_star (some addr) = to_string decimal addr ++ space

unfoldable pub name_or_star : Option Bytes → Bytes
name_or_star none = codes "*"
name_or_star (some name) = name

abbrev values_option : Option PrintValues → Bytes
values_option print_values = part print_values (λ v. to_string decimal (print_code v) ++ space)

-- `find(elem.as_tuple(), "child").as_tuple()`
unfoldable pub child : Value → Result Varobj
child elem = do r ← as_tuple elem; v ← find r (lit "child"); t ← as_tuple v; parse_varobj t

-- The number of children must be there, and is only used to reserve memory. The children are looked
-- up as `chlidren`.
unfoldable pub children : ResultOutput → Result (List Varobj)
children rc = do
  numchild ← int_at rc.results (lit "numchild")
  v ← find rc.results (lit "chlidren")
  elems ← values_of v
  traverse child elems

-- A value-initialised `varobj_update`.
abbrev pub blank_update : VarobjUpdate
blank_update = record {
  name = [];
  value = [];
  in_scope = none;
  type_changed = none;
  has_more = some false;
  new_type = none;
  new_num_children = none;
  dynamic = false;
  displayhint = none;
  new_children = [];
}

abbrev updates : ResultOutput → Result (List VarobjUpdate)
updates rc = do
  us ← tuples_at parse_varobj_update (lit "status") rc
  ok (behind_blanks blank_update us)

abbrev attributes : ResultOutput → Result (List Bytes)
attributes rc = do vec ← texts_at (lit "status") rc; ok (behind_blanks [] vec)

module _ (p : Pegtl) (b : Boost) (what : Error → Bytes) (io : Pipes) {S : Type 0}
    (l : Listeners S) where
  abbrev run : Bytes → Run p b what io l (Unit {0})
  run text = run_command p b what io l text done

  abbrev query : {A : Type 0} → Bytes → (ResultOutput → Result A) → Run p b what io l A
  query = run_query p b what io l

  unfoldable pub var_create : Bytes → Option Bytes → Option ℕ → Run p b what io l Varobj
  var_create expression name addr =
      query (codes "-var-create " ++ name_or_dash name ++ addr_or_star addr ++ expression)
        (all_of parse_varobj)

  unfoldable pub var_create_floating : Bytes → Option Bytes → Run p b what io l Varobj
  var_create_floating expression name =
      query (codes "-var-create " ++ name_or_dash name ++ codes "@ " ++ expression)
        (all_of parse_varobj)

  unfoldable pub var_delete : Bytes → Bool → Run p b what io l (Unit {0})
  var_delete name leave_children =
      run (codes "-var-delete " ++ when leave_children (codes "-c ") ++ name)

  -- For a raw format the command has neither a format nor its end of line.
  unfoldable pub var_set_format : Bytes → FormatSpec → Run p b what io l (Unit {0})
  var_set_format name fs = elim (format_word fs) [
    | none ↦ run_unended p b what io l (codes "-var-set-format " ++ name) done
    | some word ↦ run (codes "-var-set-format " ++ name ++ space ++ word)
  ]

  unfoldable pub var_show_format : Bytes → Run p b what io l (Option FormatSpec)
  var_show_format name =
      query (codes "-var-show-format " ++ name)
        λ rc. do var ← text_at (lit "format") rc; ok (format_of var)

  unfoldable pub var_info_num_children : Bytes → Run p b what io l ℕ
  var_info_num_children name =
      query (codes "-var-info-num-children " ++ name)
        λ rc. text_at (lit "numchild") rc >>= stoull decimal

  unfoldable pub var_list_children :
      Bytes → Option PrintValues → Option (ℤ × ℤ) → Run p b what io l (List Varobj)
  var_list_children name print_values range =
      query
        (codes "-var-list-children "
          ++ values_option print_values
          ++ name
          ++ part range (λ r. space ++ int_to_string r.0 ++ space ++ int_to_string r.1))
        children

  unfoldable pub var_info_type : Bytes → Run p b what io l Bytes
  var_info_type name = query (codes "-var-info-type " ++ name) (text_at (lit "type"))

  -- The two look-ups may be evaluated in either order.
  unfoldable pub var_info_expression : Bytes → Run p b what io l (Bytes × Bytes)
  var_info_expression exp =
      query (codes "-var-info-expression " ++ exp)
        λ rc. do lang ← text_at (lit "lang") rc; e ← text_at (lit "exp") rc; ok (lang, e)

  unfoldable pub var_info_path_expression : Bytes → Run p b what io l Bytes
  var_info_path_expression name =
      query (codes "-var-info-path-expression " ++ name) (text_at (lit "path_expr"))

  unfoldable pub var_show_attributes : Bytes → Run p b what io l (List Bytes)
  var_show_attributes name = query (codes "-var-show-attributes " ++ name) attributes

  unfoldable pub var_evaluate_expression : Bytes → Option Bytes → Run p b what io l Bytes
  var_evaluate_expression name format =
      query
        (codes "-var-evaluate-expression " ++ part format (λ f. codes "-f " ++ f ++ space) ++ name)
        (text_at (lit "value"))

  unfoldable pub var_assign : Bytes → Bytes → Run p b what io l Bytes
  var_assign name expr =
      query (codes "-var-assign " ++ name ++ space ++ expr) (text_at (lit "value"))

  unfoldable pub var_update :
      Option Bytes → Option PrintValues → Run p b what io l (List VarobjUpdate)
  var_update name print_values =
      query (codes "-var-update " ++ values_option print_values ++ name_or_star name) updates

  -- No space stands between the name and the digit.
  unfoldable pub var_set_frozen : Bytes → Bool → Run p b what io l (Unit {0})
  var_set_frozen name freeze =
      run (codes "-var-set-frozen " ++ name ++ (if freeze then codes "1" else codes "0"))

  unfoldable pub var_set_update_range : Bytes → ℤ → ℤ → Run p b what io l (Unit {0})
  var_set_update_range name from to_ = run (
      codes "-var-set-update-range "
      ++ name
      ++ space
      ++ int_to_string from
      ++ space
      ++ int_to_string to_)

  unfoldable pub var_set_visualizer : Bytes → Option Bytes → Run p b what io l (Unit {0})
  var_set_visualizer name none = run (codes "-var-set-visualizer " ++ name ++ codes " None ")
  var_set_visualizer name (some visualizer) =
      run (codes "-var-set-visualizer " ++ name ++ codes " \"" ++ visualizer ++ codes "\"")

  unfoldable pub var_set_default_visualizer : Bytes → Run p b what io l (Unit {0})
  var_set_default_visualizer name =
      run (codes "-var-set-visualizer " ++ name ++ codes " gdb.default_visualizer")
