-- ===== src/Types/Find.antt =====
-- The look-up of a result (src/mw/gdb/mi2/types.cpp, `find_if` and `find`) finds the first of its
-- name.
use mw_dbg_runner.Common.{
  ◌≡◌, ◌≢◌, refl, sym, ◌∙◌, ap, true, false, Bytes, bytes_eq, bytes_eq_refl, bytes_eq→eq, List, [],
  ◌∷◌, ◌++◌, none, some, All, ◌↔◌, Bool-cases, Option-cases, inl, inr,
}
use mw_dbg_runner.Error.{ok, err, Error, missing_value}
use mw_dbg_runner.Output.{Entry, Value}
use mw_dbg_runner.Types.{find_if, find, or_missing}

-- No entry of that name.
abbrev pub Lacks : List Entry → Bytes → Type 0
Lacks es id = All (λ e. Entry.variable e ≢ id) es

abbrev pub entry : Bytes → Value → Entry
entry id v = record { variable = id; value_ = v }

-- The first entry of that name holds the value.
abbrev pub IsFirst : List Entry → Bytes → Value → Type 0
IsFirst es id v =
    (before : List Entry) × (after : List Entry) × (Lacks before id)
    × (es ≡ before ++ entry id v ∷ after)

pub bytes_eq-ne : (xs ys : Bytes) → xs ≢ ys → bytes_eq xs ys ≡ false
bytes_eq-ne xs ys h = elim (Bool-cases (bytes_eq xs ys)) [
  | inl e ↦ absurd (h (bytes_eq→eq xs ys e))
  | inr e ↦ e
]

pub find_if-first :
    (before after : List Entry) (id : Bytes) (v : Value)
    → Lacks before id
    → find_if (before ++ entry id v ∷ after) id ≡ some v
unfolding find_if
find_if-first [] after id v h = rw (bytes_eq_refl id) refl
find_if-first (e ∷ es) after id v h =
    rw (bytes_eq-ne e.variable id h.0) (find_if-first es after id v h.1)

pub find_if-Lacks : (es : List Entry) (id : Bytes) → Lacks es id → find_if es id ≡ none
unfolding find_if
find_if-Lacks [] id h = refl
find_if-Lacks (e ∷ es) id h = rw (bytes_eq-ne e.variable id h.0) (find_if-Lacks es id h.1)

entry-eta :
    (e : Entry) (id : Bytes) (v : Value) → e.variable ≡ id → some e.value_ ≡ some v → e ≡ entry id v
entry-eta e id v p q = ap (λ n. entry n e.value_) p ∙ ap (entry id) cc

false≢true : false ≢ true
false≢true h = cc

err≢ok : {e : Error} {v : Value} → err e ≢ ok v
err≢ok h = cc

ok_some : {u v : Value} → ok u ≡ ok v → some u ≡ some v
ok_some h = cc

find_if-IsFirst :
    (es : List Entry) (id : Bytes) (v : Value) → find_if es id ≡ some v → IsFirst es id v
unfolding find_if
find_if-IsFirst [] id v h = cc
find_if-IsFirst (e ∷ es) id v h = elim (Bool-cases (bytes_eq e.variable id)) [
  | inl q ↦ ([], es, tt, ap (λ x. x ∷ es) (entry-eta e id v (bytes_eq→eq _ _ q) (rw q at h)))
  | inr q ↦
      let (before, after, lacks, eq) = find_if-IsFirst es id v (rw q at h) in
      (
        e ∷ before,
        after,
        ((λ same. false≢true (sym q ∙ rw same (bytes_eq_refl id))), lacks),
        ap (◌∷◌ e) eq,
      )
]

-- A look-up returns a value exactly if the first entry of that name holds it, and throws if no entry
-- has the name.
pub find_lem :
    (es : List Entry) (id : Bytes) (v : Value)
    → ((find es id ≡ ok v) ↔ IsFirst es id v) × (Lacks es id → find es id ≡ err (missing_value id))
unfolding find
find_lem es id v = (
  (
    λ h. elim (Option-cases (find_if es id)) [
      | inl e ↦ absurd (err≢ok (sym (ap (or_missing id) e) ∙ h))
      | inr (u, e) ↦ find_if-IsFirst es id v (e ∙ ok_some (sym (ap (or_missing id) e) ∙ h))
    ],
    λ (before, after, lacks, eq). rw (eq, find_if-first before after id v lacks) refl,
  ),
  λ lacks. rw (find_if-Lacks es id lacks) refl,
)
