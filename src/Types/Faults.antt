-- ===== src/Types/Faults.antt =====
-- Records that gdb sends and that the `parse_result` functions of src/mw/gdb/mi2/types.cpp do not
-- read as meant.
use mw_dbg_runner.Common.{◌≡◌, sym, ◌∙◌, ap, Bytes, lit, List, Option, none, some}
use mw_dbg_runner.Error.{Result, ok, ◌>>=◌, >>=-eq-ok, Throws, ok-inj, never-Throws}
use mw_dbg_runner.Output.{Entry, Value, string, tuple, list, as_string, as_list}
use mw_dbg_runner.Types.{find_if}
use mw_dbg_runner.Types.Access.{has, int_at, string_at, string_if, int_if, values_of, when_found}
use mw_dbg_runner.Types.Threads.{parse_groups, threads_of, cores_of}
use mw_dbg_runner.Types.Vars.{Varobj, parse_varobj, positive}

-- A value is not both a text and a list.
text_or_list :
    {A B : Type 0} (o : Option Value) {v : Value} (g : Bytes → Result A) (k : List Value → Result B)
    {a : Option A} {b : Option B}
    → o ≡ some v
    → when_found o (λ u. as_string u >>= g) ≡ ok a
    → when_found o (λ u. values_of u >>= k) ≡ ok b
    → ⊥
unfolding as_string as_list
text_or_list none g k q h h' = cc
text_or_list (some (string s)) g k q h h' = cc
text_or_list (some (tuple r)) g k q h h' = cc
text_or_list (some (list l)) g k q h h' = cc

-- A group of threads with an exit code is never read, because the code is taken for a text and for a
-- list.
pub parse_groups-exit_code :
    (r : List Entry) (v : Value) → find_if r (lit "exit_code") ≡ some v → Throws (parse_groups r)
unfolding parse_groups
parse_groups-exit_code r v h = never-Throws _ λ g h0.
    let (_, _, h1) = >>=-eq-ok (int_at r (lit "id")) _ h0 in
    let (_, _, h2) = >>=-eq-ok (string_at r (lit "type")) _ h1 in
    let (_, _, h3) = >>=-eq-ok (int_if r (lit "pid")) _ h2 in
    let (_, e, h4) = >>=-eq-ok (int_if r (lit "exit_code")) _ h3 in
    let (_, _, h5) = >>=-eq-ok (int_if r (lit "num_children")) _ h4 in
    let (_, _, h6) = >>=-eq-ok (when_found (find_if r (lit "threads")) threads_of) _ h5 in
    let (_, e', _) = >>=-eq-ok (when_found (find_if r (lit "exit_code")) cores_of) _ h6 in
    text_or_list (find_if r (lit "exit_code")) _ _ h e e'

-- A variable object is frozen exactly if it is dynamic.
pub parse_varobj-frozen :
    (r : List Entry) (o : Varobj)
    → parse_varobj r ≡ ok o
    → (o.frozen ≡ o.dynamic) × (o.dynamic ≡ has r (lit "dynamic"))
unfolding parse_varobj
parse_varobj-frozen r o h0 =
    let (_, _, h1) = >>=-eq-ok (string_at r (lit "name")) _ h0 in
    let (_, _, h2) = >>=-eq-ok (int_at r (lit "numchild")) _ h1 in
    let (_, _, h3) = >>=-eq-ok (string_at r (lit "value")) _ h2 in
    let (_, _, h4) = >>=-eq-ok (string_at r (lit "type")) _ h3 in
    let (_, _, h5) = >>=-eq-ok (int_if r (lit "thread-id")) _ h4 in
    let (_, _, h6) = >>=-eq-ok (when_found (find_if r (lit "has_more")) positive) _ h5 in
    let (_, _, h7) = >>=-eq-ok (string_if r (lit "displayhint")) _ h6 in
    let (_, _, h8) = >>=-eq-ok (string_if r (lit "exp")) _ h7 in
    let same = sym (ok-inj h8) in
    (ap Varobj.frozen same ∙ sym (ap Varobj.dynamic same), ap Varobj.dynamic same)
