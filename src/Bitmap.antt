-- ===== src/Bitmap.antt =====
-- Bit maps: kern/lib/bitmap.c. A word is one byte, and a mask has one bit.
pub mod Bits
pub mod Words
pub mod Alloc
pub mod Marks
pub mod Create
mod Tests
use ms_projects.Common.{
  ℕ, zero, suc, ◌+◌, ◌-◌, ◌*◌, ◌/◌, ◌%◌, ◌^◌, Bool, true, false, ◌&&◌, not, Option, none, some,
  List, [], ◌∷◌, replicate, get_elem?, set, ltb, ◌==◌, if◌then◌else◌,
}
use ms_projects.Common.Errno.{Errno, enospc}

-- `w & (1 << offset)`, as a test
unfoldable pub test_bit : ℕ → ℕ → Bool
test_bit w zero = w % 2 == 1
test_bit w (suc offset) = test_bit (w / 2) offset

-- `w | (1 << offset)`
unfoldable pub or_bit : ℕ → ℕ → ℕ
or_bit w zero = w / 2 * 2 + 1
or_bit w (suc offset) = or_bit (w / 2) offset * 2 + w % 2

-- `w & ~(1 << offset)`
unfoldable pub and_not_bit : ℕ → ℕ → ℕ
and_not_bit w zero = w / 2 * 2
and_not_bit w (suc offset) = and_not_bit (w / 2) offset * 2 + w % 2

pub record Bitmap : Type 0 where
  pub nbits : ℕ
  pub v : List ℕ

-- DIVROUNDUP(nbits, BITS_PER_WORD), of unsigned numbers
abbrev pub words_of : ℕ → ℕ
words_of nbits = (nbits + 7) % 2 ^ 32 / 8

-- The loop that marks the last `n` bits of a word.
unfoldable pub mark_last : ℕ → ℕ → ℕ
unfolding or_bit
mark_last zero w = w
mark_last (suc n) w = mark_last n (or_bit w (7 - n))

-- `made` says whether the two calls of `kmalloc` succeed; an assertion that fails is the outer `none`.
unfoldable pub bitmap_create : Bool × Bool → ℕ → Option (Option Bitmap)
unfolding mark_last
bitmap_create made nbits =
    let words = words_of nbits in
    let zeros = replicate words 0 in
    let ix = words - 1 in
    let overbits = nbits - ix * 8 in
    if not (made.0 && made.1)
    then some none
    else if ltb (nbits / 8) words
    then (if (nbits / 8 == ix) && (ltb 0 overbits && ltb overbits 8)
        then some (some (record { nbits = nbits; v = set zeros ix (mark_last (8 - overbits) 0) }))
        else none)
    else some (some (record { nbits = nbits; v = zeros }))

-- The loop over the last `n` bits of a word: the first that is clear.
unfoldable pub clear_offset : ℕ → ℕ → Option ℕ
unfolding test_bit
clear_offset zero w = none
clear_offset (suc n) w =
    let rest = clear_offset n w in if test_bit w (7 - n) then rest else some (7 - n)

-- The loop over the words, from number `ix` on: where the clear bit is, with the words that have it set.
-- `none` is the assertion behind the inner loop.
unfoldable pub clear_word : ℕ → List ℕ → Option (Option (ℕ × ℕ) × List ℕ)
unfolding clear_offset or_bit
clear_word ix [] = some (none, [])
clear_word ix (w ∷ ws) =
    let later = clear_word (ix + 1) ws in
    if w == 255
    then (elim later [ none ↦ none | some (found, ws') ↦ some (found, w ∷ ws') ])
    else (elim (clear_offset 8 w) [
      | none ↦ none
      | some offset ↦ some (some (ix, offset), or_bit w offset ∷ ws)
    ])

-- The index, or ENOSPC as the inner `none`. The loop is over all words: `bitmap_create` makes as many as
-- the source computes again here from `nbits`.
unfoldable pub bitmap_alloc : Bitmap → Option (Option ℕ × Bitmap)
unfolding clear_word
bitmap_alloc b = elim (clear_word 0 b.v) [
  | none ↦ none
  | some (none, v') ↦ some (none, b)
  | some (some (ix, offset), v') ↦
      if ltb (ix * 8 + offset) b.nbits
      then some (some (ix * 8 + offset), record b { v = v' })
      else none
]

-- The test of the bit at `index`: a word that is not there is `none`.
unfoldable pub bitmap_isset : Bitmap → ℕ → Option Bool
unfolding test_bit
bitmap_isset b index = elim (get_elem? b.v (index / 8)) [
  | none ↦ none
  | some w ↦ some (test_bit w (index % 8))
]

unfoldable pub bitmap_mark : Bitmap → ℕ → Option Bitmap
unfolding test_bit or_bit
bitmap_mark b index =
    if ltb index b.nbits
    then (elim (get_elem? b.v (index / 8)) [
      | none ↦ none
      | some w ↦
          if test_bit w (index % 8)
          then none
          else some (record b { v = set b.v (index / 8) (or_bit w (index % 8)) })
    ])
    else none

unfoldable pub bitmap_unmark : Bitmap → ℕ → Option Bitmap
unfolding test_bit and_not_bit
bitmap_unmark b index =
    if ltb index b.nbits
    then (elim (get_elem? b.v (index / 8)) [
      | none ↦ none
      | some w ↦
          if test_bit w (index % 8)
          then some (record b { v = set b.v (index / 8) (and_not_bit w (index % 8)) })
          else none
    ])
    else none
