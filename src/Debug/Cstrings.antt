-- ===== src/Debug/Cstrings.antt =====
-- Texts that gdb has shortened are completed (`frame::get_cstring` in include/mw/debug/frame.hpp).
use mw_dbg_runner.Common.{
  ℤ, ℕ, zero, suc, ◌+◌, ◌<◌, ◌≡◌, ◌≢◌, sym, ◌∙◌, ap, arith, Bool, true, false, Bytes, codes, [],
  ◌∷◌, ◌++◌, append-nil, append_assoc, length, ◌==◌,
}
use mw_dbg_runner.Error.{ok}
use mw_dbg_runner.Numbers.{decimal, to_string, stoi}
use mw_dbg_runner.Debug.Act.{Act, give}
use mw_dbg_runner.Debug.Frame.{
  to_char, Var, FrameOps, read_chars, get_cstring, at, arg_list, DebugArg,
}

-- The text that asks for an element of an array.
abbrev pub element : Bytes → ℕ → Bytes
element id idx = id ++ codes "[" ++ to_string decimal idx ++ codes "]"

module _ {W : Type 0} (fr : FrameOps W) where
  -- Printing an element of an array from a state gives a text that begins with the number of a
  -- character, which may be negative, and leaves another state.
  abbrev pub Reads : Bytes → ℕ → ℕ → W → W → Type 0
  Reads id idx c w w' =
      (v : Var) × (i : ℤ) × (fr.print (element id idx) false w ≡ (ok v, w'))
      × (stoi decimal v.value ≡ ok i)
      × (to_char i ≡ c)

  -- The elements from an index on are the characters of a text, and a zero, in the states that the
  -- printing goes through.
  unfoldable pub PrintsText : Bytes → ℕ → Bytes → W → W → Type 0
  PrintsText id idx [] w w' = Reads id idx 0 w w'
  PrintsText id idx (c ∷ cs) w w' =
      (c ≢ 0) × (w₁ : W) × Reads id idx c w w₁ × PrintsText id (idx + 1) cs w₁ w'

  -- What is done with a character that has been read.
  abbrev and_on : ℕ → Bytes → ℕ → Bytes → ℕ → Bool → Act W Bytes
  and_on fuel id idx val c is_last = elim is_last [
    | true ↦ give val
    | false ↦ read_chars fr fuel id (idx + 1) (val ++ c ∷ [])
  ]

  read_chars-number :
      (fuel : ℕ) (id : Bytes) (idx : ℕ) (val : Bytes) (c : ℕ) (w w' : W)
      → Reads id idx c w w'
      → read_chars fr (suc fuel) id idx val w ≡ and_on fuel id idx val c (c == 0) w'
  unfolding read_chars
  read_chars-number fuel id idx val c w w' (v, i, printed, number, char) =
      rw (printed, number) (ap (λ x. and_on fuel id idx val x (x == 0) w') char)

  and_on-char :
      (fuel : ℕ) (id : Bytes) (idx : ℕ) (val : Bytes) (c : ℕ) (w : W)
      → c ≢ 0
      → and_on fuel id idx val c (c == 0) w ≡ read_chars fr fuel id (idx + 1) (val ++ c ∷ []) w
  and_on-char fuel id idx val c w nonzero =
      let go_on : (c == 0) ≡ false = ground arith in
      ap (λ is_last. and_on fuel id idx val c is_last w) go_on

  read_chars-text :
      (fuel : ℕ) (id : Bytes) (idx : ℕ) (val cs : Bytes) (w w' : W)
      → PrintsText id idx cs w w'
      → length cs < fuel
      → read_chars fr fuel id idx val w ≡ (ok (val ++ cs), w')
  unfolding PrintsText
  read_chars-text zero id idx val cs w w' h lt = absurd (omega arith)
  read_chars-text (suc fuel) id idx val [] w w' reads lt =
      read_chars-number fuel id idx val 0 w w' reads ∙ ap (λ s. (ok s, w')) (sym (append-nil val))
  read_chars-text (suc fuel) id idx val (c ∷ cs) w w' (nonzero, w₁, reads, later) lt =
      read_chars-number fuel id idx val c w w₁ reads
      ∙ and_on-char fuel id idx val c w₁ nonzero
      ∙ read_chars-text fuel id (idx + 1) (val ++ c ∷ []) cs w₁ w' later (omega arith)
      ∙ ap (λ s. (ok s, w')) (append_assoc val (c ∷ []) cs)

  -- The text of an argument that gdb has shortened is what gdb gave and the characters that the frame
  -- prints behind it, up to a zero, and the state is the one that the last printing left, if there is
  -- fuel for each character.
  pub get_cstring_lem :
      (fuel index : ℕ) (entry : DebugArg) (cs : Bytes) (w w' : W)
      → at index fr.args ≡ ok entry
      → entry.base.cstring.ellipsis ≡ true
      → PrintsText entry.id (length entry.base.cstring.value) cs w w'
      → length cs < fuel
      → get_cstring fr fuel index w ≡ (ok (entry.base.cstring.value ++ cs), w')
  unfolding get_cstring arg_list
  get_cstring_lem fuel index entry cs w w' found shortened h lt =
      rw (get_cstring, found, shortened) (read_chars-text fuel entry.id _ _ cs w w' h lt)
