-- ===== src/Interpreter/Communicate.antt =====
-- `interpreter_impl::communicate` (src/mw/debug/interpreter_impl.cpp).
use mw_dbg_runner.Common.{
  ℕ, zero, suc, ◌+◌, ◌<◌, ◌≡◌, refl, ◌∙◌, ap, arith, Bool, true, false, Bytes, List, [], ◌∷◌, ◌++◌,
  length, length-append, Option, none, some, All,
}
use mw_dbg_runner.Error.{Result, ok, err, system_error}
use mw_dbg_runner.Interpreter.Session.{Session, Pipes, getline, set_out}
use mw_dbg_runner.Interpreter.Lines.{IsLine, getline-line}

-- `while (std::getline(out_str, line)) ret.push_back(std::move(line));`, on fuel.
abbrev collected : (Bytes → List Bytes) → Option (Bytes × Bytes) → List Bytes
collected go none = []
collected go (some (line, rest)) = line ∷ go rest

unfoldable pub all_lines : ℕ → Bytes → List Bytes
all_lines zero s = []
all_lines (suc k) s = collected (all_lines k) (getline s)

abbrev pub Lines : Pipes → Type 0 → Type 0
Lines io S = Result (List Bytes) × (Session S × Pipes.Process io)

module _ {S : Type 0} (io : Pipes) where
  abbrev read_all : Session S → Bool × (Bytes × Pipes.Process io) → Lines io S
  read_all st (false, (out, proc)) = (err system_error, (set_out out st, proc))
  read_all st (true, (out, proc)) = (ok (all_lines (length out + 2) out), (set_out [] st, proc))

  -- The function for a delimiter of any kind, of which `read_until` is the reading up to it. The text
  -- `in` is not used: what is written is the member.
  unfoldable pub communicate_until :
      (Bytes → Pipes.Process io → Bool × (Bytes × Pipes.Process io))
      → Bytes
      → Session S
      → Pipes.Process io
      → Lines io S
  communicate_until read_until in_ st proc = elim (io.write st.in_buf proc) [
    | none ↦ (err system_error, (st, proc))
    | some proc' ↦ read_all st (read_until st.out_buf proc')
  ]

  -- With a character and with a text.
  unfoldable pub communicate_char : Bytes → ℕ → Session S → Pipes.Process io → Lines io S
  communicate_char in_ delim = communicate_until (io.read_until (delim ∷ [])) in_

  unfoldable pub communicate : Bytes → Bytes → Session S → Pipes.Process io → Lines io S
  communicate in_ delim = communicate_until (io.read_until delim) in_

-- Lines with their newlines, and what stands behind the last newline.
unfoldable pub text_of : List Bytes → Bytes → Bytes
text_of [] tail = tail
text_of (line ∷ ls) tail = line ++ 10 ∷ text_of ls tail

abbrev pub last_line : Bytes → List Bytes
last_line [] = []
last_line (c ∷ s) = (c ∷ s) ∷ []

getline-tail : (c : ℕ) (s : Bytes) → IsLine (c ∷ s) → getline (c ∷ s) ≡ some (c ∷ s, [])
unfolding getline
getline-tail c [] h = ground arith
getline-tail c (d ∷ s) h = ground (arith, getline-tail d s h.1)

all_lines-tail :
    (k : ℕ) (tail : Bytes) → IsLine tail → all_lines (suc (suc k)) tail ≡ last_line tail
unfolding all_lines getline
all_lines-tail k [] h = refl
all_lines-tail k (c ∷ s) h = ap (collected (all_lines (suc k))) (getline-tail c s h)

all_lines-text :
    (k : ℕ) (ls : List Bytes) (tail : Bytes)
    → All IsLine ls
    → IsLine tail
    → length ls < k
    → all_lines (suc k) (text_of ls tail) ≡ ls ++ last_line tail
unfolding all_lines text_of
all_lines-text zero ls tail hs h lt = absurd (omega arith)
all_lines-text (suc k) [] tail hs h lt = all_lines-tail k tail h
all_lines-text (suc k) (line ∷ ls) tail (hl, hs) h lt =
    ap (collected (all_lines (suc k))) (getline-line line (text_of ls tail) hl)
    ∙ ap (◌∷◌ line) (all_lines-text k ls tail hs h (omega arith))

length-text_of : (ls : List Bytes) (tail : Bytes) → length ls < length (text_of ls tail) + 1
unfolding text_of
length-text_of [] tail = omega arith
length-text_of (line ∷ ls) tail =
    omega (arith, length-append line (10 ∷ text_of ls tail), length-text_of ls tail)

-- If the debugger takes the input and its output is met by the delimiter, the answer is the lines of
-- the output in their order, without their newlines, the last one also where it has none; the buffer
-- is left empty. The text that is passed is not sent, and makes no difference.
pub communicate-text_of :
    {S : Type 0} (io : Pipes) (in_ delim : Bytes) (ls : List Bytes) (tail : Bytes) (st : Session S)
    (proc : Pipes.Process io) {proc' proc'' : Pipes.Process io}
    → All IsLine ls
    → IsLine tail
    → io.write st.in_buf proc ≡ some proc'
    → io.read_until delim st.out_buf proc' ≡ (true, (text_of ls tail, proc''))
    → communicate io in_ delim st proc ≡ (ok (ls ++ last_line tail), (set_out [] st, proc''))
unfolding communicate communicate_until
communicate-text_of io in_ delim ls tail st proc {proc'} {proc''} hs h w r =
    let out = text_of ls tail in
    let fuel : length out + 2 ≡ suc (length out + 1) = omega arith in
    let all : all_lines (length out + 2) out ≡ ls ++ last_line tail =
      ap (λ k. all_lines k out) fuel
      ∙ all_lines-text (length out + 1) ls tail hs h (length-text_of ls tail) in
    rw (communicate_until, w, r) (ap (λ x. (ok x, (set_out [] st, proc''))) all)
