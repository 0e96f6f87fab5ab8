-- ===== src/Interpreter/Reading.antt =====
-- How the commands read the results of a record (src/mw/gdb/mi2/interpreter.cpp, the ends of the
-- commands).
use mw_dbg_runner.Common.{Bytes, List, ◌++◌, length, replicate}
use mw_dbg_runner.Error.{Result, ◌>>=◌, traverse}
use mw_dbg_runner.Output.{Entry, ResultOutput, as_tuple, as_string}
use mw_dbg_runner.Types.{find}
use mw_dbg_runner.Types.Access.{string_at, values_of, results_of, tuples_of}

-- `find(rc.results, id).as_string()`
abbrev pub text_at : Bytes → ResultOutput → Result Bytes
text_at id rc = string_at rc.results id

module _ {A : Type 0} (parse : List Entry → Result A) where
  -- `parse_result<A>(rc.results)`
  abbrev pub all_of : ResultOutput → Result A
  all_of rc = parse rc.results

  -- `parse_result<A>(find(rc.results, id).as_tuple())`
  abbrev pub tuple_at : Bytes → ResultOutput → Result A
  tuple_at id rc = do v ← find rc.results id; r ← as_tuple v; parse r

  -- Each value of a list, as a tuple.
  abbrev pub tuples_at : Bytes → ResultOutput → Result (List A)
  tuples_at id rc = find rc.results id >>= tuples_of parse

  -- Each value of a list of results, as a tuple.
  abbrev pub entries_at : Bytes → ResultOutput → Result (List A)
  entries_at id rc = do
    v ← find rc.results id
    es ← results_of v
    traverse (λ e. as_tuple e.value_ >>= parse) es

-- Each value of a list, as a text.
abbrev pub texts_at : Bytes → ResultOutput → Result (List Bytes)
texts_at id rc = do v ← find rc.results id; vs ← values_of v; traverse as_string vs

-- `vec.resize(n)` on an empty vector and `push_back` of n elements: the elements follow as many
-- value-initialised ones.
unfoldable pub behind_blanks {ℓ} : {A : Type ℓ} → A → List A → List A
behind_blanks blank xs = replicate (length xs) blank ++ xs
