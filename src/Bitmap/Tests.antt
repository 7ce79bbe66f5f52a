-- ===== src/Bitmap/Tests.antt =====
-- A map of eight bits, and the theorems at them.
use ms_projects.Common.{
  ℕ, zero, suc, ◌≡◌, refl, true, false, Option, some, [], ◌∷◌, arith, ◌==◌, if◌then◌else◌, get_or,
}
use ms_projects.Bitmap.{Bitmap, test_bit, bitmap_alloc, bitmap_mark, bitmap_unmark, bitmap_isset}
use ms_projects.Bitmap.Words.{bit, IsBitmap}
use ms_projects.Bitmap.Bits.{Fits}
use ms_projects.Bitmap.Alloc.{AllocSpec, bitmap_alloc-AllocSpec}
use ms_projects.Bitmap.Marks.{bitmap_unmark-bitmap_mark}

-- The bits 0 and 2 of eight are set.
abbrev eight : Bitmap
eight = record { nbits = 8; v = 5 ∷ [] }

eight-bytes : (ix : ℕ) → Fits 8 (get_or eight.v ix 0)
eight-bytes zero = refl
eight-bytes (suc ix) = refl

eight-IsBitmap : IsBitmap eight
eight-IsBitmap = record {
  size = refl;
  bytes = eight-bytes;
  leftover = λ i ge lt. absurd (omega (arith, ge, lt));
}

bitmap_alloc-AllocSpec_example :
    (r : Option ℕ × Bitmap) × (bitmap_alloc eight ≡ some r) × AllocSpec eight r
bitmap_alloc-AllocSpec_example = bitmap_alloc-AllocSpec eight-IsBitmap

lowest : bitmap_alloc eight ≡ some (some 1, record { nbits = 8; v = 7 ∷ [] })
unfolding bitmap_alloc
lowest = refl

four_clear : bit eight 4 ≡ false
unfolding test_bit
four_clear = refl

bitmap_unmark-bitmap_mark_example :
    (b' : Bitmap) × (bitmap_mark eight 4 ≡ some b')
    × IsBitmap b'
    × ((j : ℕ) → bit b' j ≡ (if j == 4 then true else bit eight j))
    × (bitmap_isset b' 4 ≡ some true)
    × (bitmap_unmark b' 4 ≡ some eight)
bitmap_unmark-bitmap_mark_example =
    bitmap_unmark-bitmap_mark eight-IsBitmap (omega arith) four_clear
