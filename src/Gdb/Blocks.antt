-- ===== src/Gdb/Blocks.antt =====
-- Memory that gdb hands over in several blocks (`frame_impl::read_memory` in
-- src/mw/gdb/mi2/frame_impl.cpp).
use mw_dbg_runner.Common.{
  ℕ, zero, suc, ◌+◌, ◌-◌, ◌≤◌, ◌≡◌, refl, sym, ◌∙◌, ap, arith, List, [], ◌∷◌, ◌++◌, append-nil,
  append_assoc, length, length-append, take, drop, replicate, take-length_append,
}
use mw_dbg_runner.Types.Memory.{ReadMemoryBytes}
use mw_dbg_runner.Gdb.Memory.{resize_bytes, copy_at, read_block, read_blocks}

-- The blocks follow one another without a gap, from an offset on.
unfoldable pub FollowFrom : ℕ → List ReadMemoryBytes → Type 0
FollowFrom n [] = Unit
FollowFrom n (d ∷ ds) = (d.offset ≡ n) × FollowFrom (n + length d.contents) ds

unfoldable pub all_contents : List ReadMemoryBytes → List ℕ
all_contents [] = []
all_contents (d ∷ ds) = d.contents ++ all_contents ds

take-all : (xs : List ℕ) (n : ℕ) → length xs ≤ n → take n xs ≡ xs
take-all [] zero h = refl
take-all [] (suc n) h = refl
take-all (x ∷ xs) zero h = absurd (omega arith)
take-all (x ∷ xs) (suc n) h = ap (◌∷◌ x) (take-all xs n (omega arith))

drop-all : (xs : List ℕ) (n : ℕ) → length xs ≤ n → drop n xs ≡ []
drop-all [] zero h = refl
drop-all [] (suc n) h = refl
drop-all (x ∷ xs) zero h = absurd (omega arith)
drop-all (x ∷ xs) (suc n) h = drop-all xs n (omega arith)

abbrev zeros : ℕ → List ℕ
zeros n = replicate n 0

length-zeros : (n : ℕ) → length (zeros n) ≡ n
length-zeros zero = refl
length-zeros (suc n) = omega (arith, length-zeros n)

-- A block that begins at the end of what was read is appended.
read_block-append :
    (d : ReadMemoryBytes) (vec : List ℕ)
    → d.offset ≡ length vec
    → read_block d vec ≡ vec ++ d.contents
unfolding read_block copy_at resize_bytes
read_block-append d vec h =
    let n = d.offset + length d.contents in
    let more = zeros (n - length vec) in
    let kept : take n vec ≡ vec = take-all vec n (omega (arith, h)) in
    let front : take d.offset (vec ++ more) ≡ vec =
      ap (λ k. take k (vec ++ more)) h ∙ take-length_append vec more in
    let back : drop n (vec ++ more) ≡ [] =
      drop-all (vec ++ more) n
        (omega (arith, h, length-append vec more, length-zeros (n - length vec))) in
    rw kept (rw (front, back) (append-nil (vec ++ d.contents)))

read_blocks-after :
    (ds : List ReadMemoryBytes) (vec : List ℕ)
    → FollowFrom (length vec) ds
    → read_blocks ds vec ≡ vec ++ all_contents ds
unfolding read_blocks FollowFrom all_contents
read_blocks-after [] vec h = sym (append-nil vec)
read_blocks-after (d ∷ ds) vec (h, hs) =
    ap (read_blocks ds) (read_block-append d vec h)
    ∙ read_blocks-after ds (vec ++ d.contents) (rw (length-append vec d.contents) hs)
    ∙ append_assoc vec d.contents (all_contents ds)

-- Blocks that begin at the offset 0 and follow one another without a gap are read as their contents
-- one after another.
pub read_blocks-all :
    (ds : List ReadMemoryBytes) → FollowFrom 0 ds → read_blocks ds [] ≡ all_contents ds
read_blocks-all ds h = read_blocks-after ds [] h
