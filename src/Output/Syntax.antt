-- ===== src/Output/Syntax.antt =====
-- How gdb writes a value (the GDB/MI output syntax), as the other side of the grammar.
use mw_dbg_runner.Common.{◌≢◌, Bytes, [], ◌∷◌, ◌++◌, ◌==◌, if◌then◌else◌, All}
use mw_dbg_runner.Output.{
  Value, Items, Values, Results, string, tuple, list, values, results, no_values, value, no_results,
  result,
}

-- A quote is escaped.
abbrev pub escape : Bytes → Bytes
escape [] = []
escape (c ∷ s) = if c == b'"' then 92 ∷ b'"' ∷ escape s else c ∷ escape s

abbrev pub quoted : Bytes → Bytes
quoted s = b'"' ∷ (escape s ++ b'"' ∷ [])

unfoldable mutual
  pub show_value : Value → Bytes
  show_value (string s) = quoted s
  show_value (tuple rs) = b'{' ∷ (show_results rs ++ b'}' ∷ [])
  show_value (list l) = b'[' ∷ (show_items l ++ b']' ∷ [])

  pub show_items : Items → Bytes
  show_items (values vs) = show_values vs
  show_items (results rs) = show_results rs

  pub show_values : Values → Bytes
  show_values no_values = []
  show_values (value v vs) = show_value v ++ show_more_values vs

  pub show_more_values : Values → Bytes
  show_more_values no_values = []
  show_more_values (value v vs) = b',' ∷ (show_value v ++ show_more_values vs)

  pub show_results : Results → Bytes
  show_results no_results = []
  show_results (result n v rs) = n ++ b'=' ∷ (show_value v ++ show_more_results rs)

  pub show_more_results : Results → Bytes
  show_more_results no_results = []
  show_more_results (result n v rs) = b',' ∷ (n ++ b'=' ∷ (show_value v ++ show_more_results rs))

-- A name: not empty, and with neither `=` nor `]` in it.
abbrev pub IsName : Bytes → Type 0
IsName [] = ⊥
IsName (c ∷ s) = All (λ d. (d ≢ b'=') × (d ≢ b']')) (c ∷ s)

abbrev pub NotEmpty : Results → Type 0
NotEmpty no_results = ⊥
NotEmpty (result n v rs) = Unit

-- Text without a backslash, tuples and lists of results that are not empty, and empty lists.
unfoldable mutual
  pub IsPlain : Value → Type 0
  IsPlain (string s) = All (λ c. c ≢ 92) s
  IsPlain (tuple rs) = NotEmpty rs × ArePlain rs
  IsPlain (list l) = ItemsPlain l

  pub ItemsPlain : Items → Type 0
  ItemsPlain (values no_values) = Unit
  ItemsPlain (values (value v vs)) = ⊥
  ItemsPlain (results rs) = NotEmpty rs × ArePlain rs

  pub ArePlain : Results → Type 0
  ArePlain no_results = Unit
  ArePlain (result n v rs) = IsName n × IsPlain v × ArePlain rs
