-- ===== src/Interpreter/Lines.antt =====
-- The lines of a reply: what `getline` takes from the buffer, and the shape of a buffer with a prompt.
use mw_dbg_runner.Common.{
  ◌<◌, ◌≡◌, ◌≢◌, refl, arith, false, Bytes, List, [], ◌∷◌, ◌++◌, length, length-append, some, All,
  Option-cases, inl, inr, has_prefix,
}
use mw_dbg_runner.Output.Pegtl.{one_of}
use mw_dbg_runner.Interpreter.Session.{getline}
use mw_dbg_runner.Interpreter.Work.{prompt}

-- A line has no newline in it.
abbrev pub IsLine : Bytes → Type 0
IsLine = All λ c. c ≢ 10

pub no_newline-IsLine : (s : Bytes) → one_of s 10 ≡ false → IsLine s
no_newline-IsLine [] h = tt
no_newline-IsLine (c ∷ s) h = ((λ e. ground (arith, e)), no_newline-IsLine s (ground arith))

-- A line up to its newline is taken, and the newline dropped.
pub getline-line :
    (line rest : Bytes) → IsLine line → getline (line ++ 10 ∷ rest) ≡ some (line, rest)
unfolding getline
getline-line [] rest h = refl
getline-line (c ∷ line) rest h = ground (arith, getline-line line rest h.1)

-- Each line that is taken makes the buffer shorter.
pub getline-shorter : (s line rest : Bytes) → getline s ≡ some (line, rest) → length rest < length s
unfolding getline
getline-shorter [] line rest h = ground arith
getline-shorter (c ∷ s) line rest h = elim (Option-cases (getline s)) [
  | inl e ↦ ground (arith, e)
  | inr ((l, r), e) ↦ ground (arith, e, getline-shorter s l r e)
]

-- A line of the reply before the prompt.
abbrev pub IsReplyLine : Bytes → Type 0
IsReplyLine line = IsLine line × (has_prefix prompt line ≡ false)

-- The lines, the line of the prompt with what stands behind it, and the rest of the buffer.
unfoldable pub reply : List Bytes → Bytes → Bytes → Bytes
reply [] after rest = prompt ++ after ++ 10 ∷ rest
reply (line ∷ ls) after rest = line ++ 10 ∷ reply ls after rest

prompt-IsLine : (after : Bytes) → IsLine after → IsLine (prompt ++ after)
prompt-IsLine after h = (cc, (cc, (cc, (cc, (cc, h)))))

pub getline-prompt :
    (after rest : Bytes)
    → IsLine after
    → getline (reply [] after rest) ≡ some (prompt ++ after, rest)
unfolding reply
getline-prompt after rest h = getline-line (prompt ++ after) rest (prompt-IsLine after h)

pub getline-reply :
    (line : Bytes) (ls : List Bytes) (after rest : Bytes)
    → IsLine line
    → getline (reply (line ∷ ls) after rest) ≡ some (line, reply ls after rest)
unfolding reply
getline-reply line ls after rest h = getline-line line _ h

pub length-reply : (ls : List Bytes) (after rest : Bytes) → length ls < length (reply ls after rest)
unfolding reply
length-reply [] after rest = omega arith
length-reply (line ∷ ls) after rest =
    omega (arith, length-append line (10 ∷ reply ls after rest), length-reply ls after rest)
