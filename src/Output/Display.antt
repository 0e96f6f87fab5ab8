-- ===== src/Output/Display.antt =====
-- The functions `to_string` of output.cpp, which show what was parsed.
use mw_dbg_runner.Common.{ℕ, zero, suc, ◌≡◌, refl, Bytes, codes, List, [], ◌∷◌, ◌++◌}
use mw_dbg_runner.Error.{Result, ok, err, out_of_fuel, ◌>>=◌}
use mw_dbg_runner.Output.{
  Value, Items, Values, Results, string, tuple, list, values, results, no_values, value, no_results,
  result, Entry, to_results, StreamType, console, target, log, StreamRecord, AsyncType, exec,
  status, notify, AsyncOutput, ResultOutput,
}

-- `more_…` stands for the rounds of the loops after the first one.
unfoldable mutual
  pub value_to_string : Value → Bytes
  value_to_string (string s) = s
  value_to_string (tuple rs) = b'{' ∷ (results_joined rs ++ b'}' ∷ [])
  value_to_string (list l) = b'[' ∷ (items_joined l ++ b']' ∷ [])

  pub items_joined : Items → Bytes
  items_joined (values vs) = values_joined vs
  items_joined (results rs) = results_joined rs

  pub values_joined : Values → Bytes
  values_joined no_values = []
  values_joined (value v vs) = value_to_string v ++ more_values vs

  pub more_values : Values → Bytes
  more_values no_values = []
  more_values (value v vs) = codes ", " ++ value_to_string v ++ more_values vs

  pub results_joined : Results → Bytes
  results_joined no_results = []
  results_joined (result n v rs) = n ++ b'=' ∷ value_to_string v ++ more_results rs

  pub more_results : Results → Bytes
  more_results no_results = []
  more_results (result n v rs) = codes ", " ++ n ++ b'=' ∷ value_to_string v ++ more_results rs

unfoldable pub results_to_string : List Entry → Bytes
results_to_string es = b'{' ∷ (results_joined (to_results es) ++ b'}' ∷ [])

abbrev stream_sign : StreamType → Bytes
stream_sign console = codes "~"
stream_sign log = codes "&"
stream_sign target = codes "@"

unfoldable pub stream_to_string : StreamRecord → Bytes
stream_to_string ar = stream_sign ar.type ++ ar.content

-- Each case falls through to the last.
abbrev async_sign : AsyncType → Bytes
async_sign exec = codes "="
async_sign notify = codes "="
async_sign status = codes "="

unfoldable pub async_to_string : AsyncOutput → Bytes
async_to_string ao = async_sign ao.type ++ ao.class_ ++ codes ", " ++ results_to_string ao.results

-- The function calls itself with its argument, on fuel.
unfoldable pub record_to_string : ℕ → ResultOutput → Result Bytes
record_to_string zero ro = err out_of_fuel
record_to_string (suc fuel) ro = do
  s ← record_to_string fuel ro
  ok (s ++ codes ", " ++ results_to_string ro.results)

-- Showing a record never comes to an end: no number of calls is enough.
pub record_to_string-endless :
    (fuel : ℕ) (ro : ResultOutput) → record_to_string fuel ro ≡ err out_of_fuel
unfolding record_to_string
record_to_string-endless zero ro = refl
record_to_string-endless (suc fuel) ro = rw (record_to_string-endless fuel ro) refl
