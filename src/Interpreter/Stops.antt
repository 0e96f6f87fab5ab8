-- ===== src/Interpreter/Stops.antt =====
-- What a command accepts, and what a stop records (interpreter.cpp, `_handle_record`,
-- `_handle_async_output` and `wait_for_stop`).
use mw_dbg_runner.Common.{
  ℕ, zero, suc, ◌-◌, ◌≤◌, ◌≡◌, ◌≢◌, refl, sym, ◌∙◌, ap, arith, Bool, true, false, ◌&&◌, Bytes, lit,
  bytes_eq, bytes_eq_refl, List, [], ◌∷◌, ◌++◌, append-nil, length, length-append, length-replicate,
  take, drop, replicate, keep, Option, none, some, ◌↔◌, Bool-cases, inl, inr,
}
use mw_dbg_runner.Error.{
  ResultClass, done, running, connected, error, exit, Result, ok, err, Error, ◌>>=◌, >>=-eq-ok,
  guard,
}
use mw_dbg_runner.Output.{Entry, string, ResultOutput, empty_entry, as_string}
use mw_dbg_runner.Types.{find}
use mw_dbg_runner.Types.Find.{entry, Lacks, find_if-first, bytes_eq-ne}
use mw_dbg_runner.Types.Breakpoints.{parse_error_message}
use mw_dbg_runner.Interpreter.Checks.{
  same_class, check_token, check_class, expect_class, no_entries,
}
use mw_dbg_runner.Interpreter.Stop.{AsyncResult, not_reason, resize, overwrite, record_stop}

pub same_class_refl : (c : ResultClass) → same_class c c ≡ true
unfolding same_class
same_class_refl done = refl
same_class_refl running = refl
same_class_refl connected = refl
same_class_refl error = refl
same_class_refl exit = refl

pub same_class→eq : (c d : ResultClass) → same_class c d ≡ true → c ≡ d
unfolding same_class
same_class→eq done done h = refl
same_class→eq running running h = refl
same_class→eq connected connected h = refl
same_class→eq error error h = refl
same_class→eq exit exit h = refl
same_class→eq _ _ h = cc

pub check_token_iff :
    (tk : ℕ) (token : Option ℕ) → (check_token tk token ≡ ok tt) ↔ (token ≡ some tk)
unfolding check_token
check_token_iff tk none = ground arith
check_token_iff tk (some t) = ground arith

-- A record of the class that was asked for, unless that is `error`, without results.
unfoldable pub Accepts : ResultClass → ResultOutput → Type 0
Accepts rc sr = (sr.class_ ≡ rc) × (sr.results ≡ []) × (rc ≢ error)

no_entries→nil : (es : List Entry) → no_entries es ≡ true → es ≡ []
no_entries→nil [] h = refl
no_entries→nil (e ∷ es) h = cc

never_ok : {A B : Type 0} (m : Result A) (f : A → Error) {x : B} → (m >>= λ a. err (f a)) ≢ ok x
never_ok (ok a) f h = cc
never_ok (err e) f h = cc

guard-ok : (t : Bool) (e : Error) → guard t e ≡ ok tt → t ≡ true
guard-ok true e h = refl
guard-ok false e h = cc

and-both : (s t : Bool) → (s && t) ≡ true → (s ≡ true) × (t ≡ true)
and-both true t h = (refl, h)
and-both false t h = cc

false≢true : false ≢ true
false≢true h = cc

class-ne : (c : ResultClass) → c ≢ error → same_class c error ≡ false
class-ne c h = elim (Bool-cases (same_class c error)) [
  | inl e ↦ absurd (h (same_class→eq c error e))
  | inr e ↦ e
]

check_class-Accepts :
    (line : Bytes) (rc : ResultClass) (sr : ResultOutput)
    → check_class line rc sr ≡ ok tt
    → Accepts rc sr
unfolding check_class Accepts
check_class-Accepts line rc sr h = elim (Bool-cases (same_class sr.class_ error)) [
  | inl e ↦ absurd (never_ok (parse_error_message sr.results) _ (rw (check_class, e) at h))
  | inr e ↦
      let (c, n) = and-both _ _ (guard-ok _ _ (rw (check_class, e) at h)) in
      let same = same_class→eq _ _ c in
      (
        same,
        no_entries→nil _ n,
        λ bad.
            false≢true (sym e ∙ ap (λ c. same_class c error) (same ∙ bad) ∙ same_class_refl error),
      )
]

check_class-ok :
    (line : Bytes) (rc : ResultClass) (sr : ResultOutput)
    → Accepts rc sr
    → check_class line rc sr ≡ ok tt
unfolding check_class Accepts
check_class-ok line rc sr (c, n, ne) =
    let other : same_class sr.class_ error ≡ false = rw c (class-ne rc ne) in
    let same : same_class sr.class_ rc ≡ true = rw c (same_class_refl rc) in
    let none_left : no_entries sr.results ≡ true = rw n refl in
    rw (check_class, other, same, none_left) refl

-- A command that waits for a class of record returns exactly if the record has the command's token,
-- that class, and no results; where the class is `error` it never returns.
pub expect_class_iff :
    {S : Type 0} (tk : ℕ) (rc : ResultClass) (line : Bytes) (token : Option ℕ) (sr : ResultOutput)
    (s : S)
    → (expect_class tk rc line token sr s ≡ ok s) ↔ ((token ≡ some tk) × Accepts rc sr)
unfolding expect_class
expect_class_iff tk rc line token sr s = (
  λ h.
      let (_, t, h') = >>=-eq-ok (check_token tk token) _ h in
      let (_, c, _) = >>=-eq-ok (check_class line rc sr) _ h' in
      ((check_token_iff tk token).0 t, check_class-Accepts line rc sr c),
  λ (t, a). rw ((check_token_iff tk token).1 t, check_class-ok line rc sr a) refl,
)

keep-all : (es : List Entry) → Lacks es (lit "reason") → keep not_reason es ≡ es
keep-all [] h = refl
keep-all (e ∷ es) h = rw (bytes_eq-ne e.variable (lit "reason") h.0) (ap (◌∷◌ e) (keep-all es h.1))

keep-append :
    (es fs : List Entry) → keep not_reason (es ++ fs) ≡ keep not_reason es ++ keep not_reason fs
keep-append [] fs = refl
keep-append (e ∷ es) fs = elim (Bool-cases (bytes_eq e.variable (lit "reason"))) [
  | inl q ↦ rw q (keep-append es fs)
  | inr q ↦ rw q (ap (◌∷◌ e) (keep-append es fs))
]

abbrev pub reason_entry : Bytes → Entry
reason_entry r = entry (lit "reason") (string r)

keep-reason :
    (r : Bytes) (es fs : List Entry)
    → Lacks es (lit "reason")
    → Lacks fs (lit "reason")
    → keep not_reason (es ++ reason_entry r ∷ fs) ≡ es ++ fs
keep-reason r es fs he hf =
    keep-append es _ ∙ rw (keep-all es he, bytes_eq_refl (lit "reason"), keep-all fs hf) refl

drop-all : (n : ℕ) (es : List Entry) → length es ≤ n → drop n es ≡ []
drop-all zero [] h = refl
drop-all zero (e ∷ es) h = absurd (omega arith)
drop-all (suc n) [] h = refl
drop-all (suc n) (e ∷ es) h = drop-all n es (omega arith)

length-resize : (n : ℕ) (es : List Entry) → length (resize n es) ≡ n
unfolding resize
length-resize zero [] = refl
length-resize (suc n) [] = length-replicate (suc n - 0) empty_entry ∙ omega arith
length-resize zero (e ∷ es) = omega (arith, length-replicate (0 - suc (length es)) empty_entry)
length-resize (suc n) (e ∷ es) = omega (
  arith,
  length-append (take n es) (replicate (suc n - suc (length es)) empty_entry),
  length-append (take n es) (replicate (n - length es) empty_entry),
  length-replicate (suc n - suc (length es)) empty_entry,
  length-replicate (n - length es) empty_entry,
  length-resize n es,
)

-- A stop with one reason, whatever an earlier stop had recorded: the reason is kept, and the content
-- is the other results in their order.
pub record_stop_lem :
    (r : Bytes) (es fs : List Entry) (pr : AsyncResult)
    → Lacks es (lit "reason")
    → Lacks fs (lit "reason")
    → record_stop (es ++ reason_entry r ∷ fs) pr ≡ ok (record { reason = r; content = es ++ fs })
unfolding record_stop find as_string overwrite
record_stop_lem r es fs pr he hf =
    let found = reason_entry r ∷ fs in
    let old = resize (length (es ++ found) - 1) pr.content in
    let enough : length old ≤ length (es ++ fs) = omega (
      arith,
      length-resize (length (es ++ found) - 1) pr.content,
      length-append es found,
      length-append es fs,
    ) in
    rw (find_if-first es fs (lit "reason") (string r) he, keep-reason r es fs he hf)
      (ap (λ c. ok (record { reason = r; content = c }))
        (ap (◌++◌ (es ++ fs)) (drop-all (length (es ++ fs)) old enough) ∙ append-nil (es ++ fs)))
