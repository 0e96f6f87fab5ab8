-- ===== src/Output.antt =====
-- The data that the gdb/mi2 output is parsed into (include/mw/gdb/mi2/output.hpp): values, results,
-- records, and the accessors that throw on another type than expected.
pub mod Pegtl
pub mod Boost
pub mod Grammar
pub mod Syntax
pub mod RoundTrip
pub mod Display
mod Tests
use mw_dbg_runner.Common.{◌≡◌, refl, ap, List, [], ◌∷◌, Bytes}
use mw_dbg_runner.Error.{Result, ok, err, unexpected_type, ResultClass}

-- `value` is a string, a tuple or a list; `list` holds values or results. The vectors inside them
-- are `Values` and `Results`.
mutual
  pub data Value : Type 0 where
    string : Bytes → Value
    tuple : Results → Value
    list : Items → Value

  pub data Items : Type 0 where
    values : Values → Items
    results : Results → Items

  pub data Values : Type 0 where
    no_values : Values
    value : Value → Values → Values

  pub data Results : Type 0 where
    no_results : Results
    result : Bytes → Value → Results → Results

-- `struct result`. The pointer `value_p` and the reference to what it holds are the value.
pub record Entry : Type 0 where
  pub variable : Bytes
  pub value_ : Value

-- The vectors as lists, and back.
abbrev pub value_list : Values → List Value
value_list no_values = []
value_list (value v vs) = v ∷ value_list vs

abbrev pub entries : Results → List Entry
entries no_results = []
entries (result n v rs) = record { variable = n; value_ = v } ∷ entries rs

abbrev pub to_values : List Value → Values
to_values [] = no_values
to_values (v ∷ vs) = value v (to_values vs)

abbrev pub to_results : List Entry → Results
to_results [] = no_results
to_results (e ∷ es) = result e.variable e.value_ (to_results es)

pub to_results-entries : (rs : Results) → to_results (entries rs) ≡ rs
to_results-entries no_results = refl
to_results-entries (result n v rs) = ap (result n v) (to_results-entries rs)

pub entries-to_results : (es : List Entry) → entries (to_results es) ≡ es
entries-to_results [] = refl
entries-to_results (e ∷ es) = ap (◌∷◌ e) (entries-to_results es)

pub value_list-to_values : (vs : List Value) → value_list (to_values vs) ≡ vs
value_list-to_values [] = refl
value_list-to_values (v ∷ vs) = ap (◌∷◌ v) (value_list-to_values vs)

-- `value()`, the first alternative of the variant, and `list()`.
abbrev pub empty_value : Value
empty_value = string []

abbrev pub empty_items : Items
empty_items = values no_values

abbrev pub empty_entry : Entry
empty_entry = record { variable = []; value_ = empty_value }

-- `value::as_string`
unfoldable pub as_string : Value → Result Bytes
as_string (string s) = ok s
as_string _ = err unexpected_type

-- `value::as_tuple`
unfoldable pub as_tuple : Value → Result (List Entry)
as_tuple (tuple rs) = ok (entries rs)
as_tuple _ = err unexpected_type

-- `value::as_list`
unfoldable pub as_list : Value → Result Items
as_list (list l) = ok l
as_list _ = err unexpected_type

-- `list::as_values`
unfoldable pub as_values : Items → Result (List Value)
as_values (values vs) = ok (value_list vs)
as_values _ = err unexpected_type

-- `list::as_results`
unfoldable pub as_results : Items → Result (List Entry)
as_results (results rs) = ok (entries rs)
as_results _ = err unexpected_type

pub data StreamType : Type 0 where
  console target log : StreamType

pub record StreamRecord : Type 0 where
  pub type : StreamType
  pub content : Bytes

pub data AsyncType : Type 0 where
  exec status notify : AsyncType

pub record AsyncOutput : Type 0 where
  pub type : AsyncType
  pub class_ : Bytes
  pub results : List Entry

pub record ResultOutput : Type 0 where
  pub class_ : ResultClass
  pub results : List Entry
