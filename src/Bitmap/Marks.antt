-- ===== src/Bitmap/Marks.antt =====
-- Marking and unmarking of kern/lib/bitmap.c.
use ms_projects.Common.{
  ℕ, zero, suc, ◌+◌, ◌*◌, ◌/◌, ◌%◌, ◌<◌, ◌≡◌, refl, sym, subst, ap, ◌∙◌, true, false, some, List,
  [], ◌∷◌, length, get_or, get_elem?, set, arith, ◌==◌, if◌then◌else◌, length-set, lt→ltb,
}
use ms_projects.Bitmap.{
  test_bit, or_bit, and_not_bit, Bitmap, bitmap_isset, bitmap_mark, bitmap_unmark,
}
use ms_projects.Bitmap.Words.{
  get_or-set, get_or-set_other, bit, IsBitmap, Changed, bit-changed, IsBitmap-changed,
}
use ms_projects.Bitmap.Bits.{Fits, test_bit-or_bit, or_bit-Fits}

get_elem?-get_or : (ws : List ℕ) (k : ℕ) → k < length ws → get_elem? ws k ≡ some (get_or ws k 0)
get_elem?-get_or [] k lt = absurd (omega (arith, lt))
get_elem?-get_or (w ∷ ws) zero lt = refl
get_elem?-get_or (w ∷ ws) (suc k) lt = get_elem?-get_or ws k (omega (arith, lt))

set-set : (ws : List ℕ) (k w : ℕ) → set (set ws k w) k (get_or ws k 0) ≡ ws
set-set [] k w = refl
set-set (x ∷ ws) zero w = refl
set-set (x ∷ ws) (suc k) w = ap (λ zs. x ∷ zs) (set-set ws k w)

and_not_bit-or_bit : (w o : ℕ) → test_bit w o ≡ false → and_not_bit (or_bit w o) o ≡ w
unfolding and_not_bit or_bit test_bit
and_not_bit-or_bit w zero e = ground (arith, e)
and_not_bit-or_bit w (suc o) e =
    omega
      (arith, ap (λ x. and_not_bit x o) (half (or_bit (w / 2) o) w), and_not_bit-or_bit (w / 2) o e)
  where
    half : (x w : ℕ) → (x * 2 + w % 2) / 2 ≡ x
    half x w = omega arith

module _ {b : Bitmap} (p : IsBitmap b) {i : ℕ} (lt : i < b.nbits) (clear : bit b i ≡ false) where
  k_inside : i / 8 < length b.v
  k_inside = omega (arith, p.size, lt)

  word : ℕ
  word = get_or b.v (i / 8) 0

  marked : Bitmap
  marked = record b { v = set b.v (i / 8) (or_bit word (i % 8)) }

  marked-Changed : Changed b.v marked.v (i / 8) (i % 8) true
  unfolding marked word
  marked-Changed =
      let here = get_or-set b.v (i / 8) (or_bit word (i % 8)) k_inside in
      record {
        small = omega arith;
        same_length = length-set b.v (i / 8) (or_bit word (i % 8));
        fits =
            subst (Fits 8) (sym here) (or_bit-Fits 8 word (i % 8) (omega arith) (p.bytes (i / 8)));
        updated = λ j. ap (λ w. test_bit w j) here ∙ test_bit-or_bit word (i % 8) j;
        others = λ j ne. get_or-set_other b.v (i / 8) (or_bit word (i % 8)) j ne;
      }

  position : i / 8 * 8 + i % 8 ≡ i
  position = omega arith

  marks : bitmap_mark b i ≡ some marked
  unfolding bitmap_mark marked word
  marks = rw (get_elem?-get_or b.v (i / 8) k_inside) (ground (arith, lt, clear))

  stored : get_elem? marked.v (i / 8) ≡ some (or_bit word (i % 8))
  unfolding marked word
  stored =
      let w = or_bit word (i % 8) in
      get_elem?-get_or (set b.v (i / 8) w) (i / 8)
        (omega (arith, k_inside, length-set b.v (i / 8) w))
      ∙ ap some (get_or-set b.v (i / 8) w k_inside)

  now_set : test_bit (or_bit word (i % 8)) (i % 8) ≡ true
  now_set = test_bit-or_bit word (i % 8) (i % 8) ∙ ground arith

  unmarks : bitmap_unmark marked i ≡ some b
  unfolding bitmap_unmark marked word
  unmarks = rw (
    lt→ltb i b.nbits lt,
    stored,
    now_set,
    and_not_bit-or_bit word (i % 8) clear,
    set-set b.v (i / 8) (or_bit word (i % 8)),
  )

  now_isset : bitmap_isset marked i ≡ some true
  unfolding bitmap_isset marked word
  now_isset = rw (bitmap_isset, stored, now_set)

  -- A number below `nbits` whose bit is clear can be marked: its bit is set and no other one changes,
  -- and `bitmap_unmark` of it then gives the map back as it was.
  pub bitmap_unmark-bitmap_mark :
      (b' : Bitmap) × (bitmap_mark b i ≡ some b')
      × IsBitmap b'
      × ((j : ℕ) → bit b' j ≡ (if j == i then true else bit b j))
      × (bitmap_isset b' i ≡ some true)
      × (bitmap_unmark b' i ≡ some b)
  unfolding marked
  bitmap_unmark-bitmap_mark = (
    marked,
    marks,
    IsBitmap-changed b marked-Changed p (omega (arith, position, lt)),
    (λ j.
        subst (λ x. bit marked j ≡ (if j == x then true else bit b j)) position
          (bit-changed b marked-Changed j)),
    now_isset,
    unmarks,
  )
