-- ===== src/Bitmap/Alloc.antt =====
-- `bitmap_alloc` of kern/lib/bitmap.c: the first clear bit.
use ms_projects.Common.{
  ℕ, zero, suc, ◌+◌, ◌-◌, ◌*◌, ◌/◌, ◌%◌, ◌≤◌, ◌<◌, ◌≡◌, ◌≢◌, refl, sym, subst, ap, ◌∙◌, Bool, true,
  false, Option, none, some, List, [], ◌∷◌, length, get_or, arith, ◌==◌, if◌then◌else◌, dec_lt,
  ℕ_discrete,
}
use ms_projects.Bitmap.{test_bit, or_bit, Bitmap, clear_offset, clear_word, bitmap_alloc}
use ms_projects.Bitmap.Words.{bit, IsBitmap, Changed, bit-position, bit-changed, IsBitmap-changed}
use ms_projects.Bitmap.Bits.{Fits, test_bit-or_bit, or_bit-Fits, all_set, test_bit-ones}

abbrev Offset : ℕ → ℕ → Option ℕ → Type 0
Offset n w none = (o : ℕ) → 8 - n ≤ o → o < 8 → test_bit w o ≡ true
Offset n w (some o) =
    (8 - n ≤ o)
    × (o < 8)
    × (test_bit w o ≡ false)
    × ((o' : ℕ) → 8 - n ≤ o' → o' < o → test_bit w o' ≡ true)

clear_offset-Offset : (n w : ℕ) → n ≤ 8 → Offset n w (clear_offset n w)
unfolding clear_offset
clear_offset-Offset zero w le = λ o lo hi. absurd (omega (arith, lo, hi))
clear_offset-Offset (suc n) w le =
    by_bit (test_bit w (7 - n)) refl (clear_offset n w) (clear_offset-Offset n w (omega arith))
  where
    by_bit :
        (b : Bool)
        → test_bit w (7 - n) ≡ b
        → (r : Option ℕ) → Offset n w r
        → Offset (suc n) w (if b then r else some (7 - n))
    by_bit true e none h = λ o lo hi. elim (ℕ_discrete o (7 - n)) [
      | yes e' ↦ ap (test_bit w) e' ∙ e
      | no ne ↦ h o (omega (arith, lo, ne)) hi
    ]
    by_bit true e (some o) (lo, hi, clear, before) = (
      omega (arith, lo),
      hi,
      clear,
      λ o' lo' lt. elim (ℕ_discrete o' (7 - n)) [
        | yes e' ↦ ap (test_bit w) e' ∙ e
        | no ne ↦ before o' (omega (arith, lo', ne)) lt
      ],
    )
    by_bit false e r h =
        (omega arith, omega (arith, le), e, λ o' lo hi. absurd (omega (arith, lo, hi)))

-- The bit `o` of the word `k` of `ws` is the first that is clear, and it is set in `ws'`.
record First (ws ws' : List ℕ) (k o : ℕ) : Type 0 where
  inside : k < length ws
  small : o < 8
  clear : test_bit (get_or ws k 0) o ≡ false
  words : (j : ℕ) → j < k → (i : ℕ) → i < 8 → test_bit (get_or ws j 0) i ≡ true
  bits : (i : ℕ) → i < o → test_bit (get_or ws k 0) i ≡ true
  same_length : length ws' ≡ length ws
  updated : get_or ws' k 0 ≡ or_bit (get_or ws k 0) o
  others : (j : ℕ) → j ≢ k → get_or ws' j 0 ≡ get_or ws j 0

-- What the loop over the words comes to, from the word number `ix` on.
abbrev Words : ℕ → List ℕ → Option (ℕ × ℕ) × List ℕ → Type 0
Words ix ws (none, ws') =
    (k : ℕ) → k < length ws → (o : ℕ) → o < 8 → test_bit (get_or ws k 0) o ≡ true
Words ix ws (some (i, o), ws') = (k : ℕ) × (i ≡ ix + k) × First ws ws' k o

abbrev Found : ℕ → List ℕ → Option (Option (ℕ × ℕ) × List ℕ) → Type 0
Found ix ws r = (x : Option (ℕ × ℕ) × List ℕ) × (r ≡ some x) × Words ix ws x

-- The body of the loop.
abbrev scanned :
    ℕ → ℕ → List ℕ → Option (Option (ℕ × ℕ) × List ℕ) → Option ℕ → Option (Option (ℕ × ℕ) × List ℕ)
scanned ix w ws later o =
    if w == 255
    then (elim later [ none ↦ none | some (found, ws') ↦ some (found, w ∷ ws') ])
    else (elim o [ none ↦ none | some offset ↦ some (some (ix, offset), or_bit w offset ∷ ws) ])

all_ones : (w : ℕ) → w ≡ 255 → (o : ℕ) → o < 8 → test_bit w o ≡ true
all_ones w e o lt = subst (λ z. test_bit z o ≡ true) (sym e) (test_bit-ones o lt)

skips :
    (ix w : ℕ) (ws : List ℕ) (later : Option (Option (ℕ × ℕ) × List ℕ)) (o : Option ℕ)
    → w ≡ 255
    → Found (ix + 1) ws later
    → Found ix (w ∷ ws) (scanned ix w ws later o)
skips ix w ws later o e ((none, ws'), ok, h) = ((none, w ∷ ws'), rw ok (ground (arith, e)), every)
  where
    every :
        (k : ℕ) → k < length (w ∷ ws) → (o : ℕ) → o < 8 → test_bit (get_or (w ∷ ws) k 0) o ≡ true
    every zero lt o lo = all_ones w e o lo
    every (suc k) lt o lo = h k (omega (arith, lt)) o lo
skips ix w ws later r e ((some (i, o), ws'), ok, (k, eq, p)) = (
  (some (i, o), w ∷ ws'),
  rw ok (ground (arith, e)),
  (
    suc k,
    omega (arith, eq),
    record {
      inside = omega (arith, p.inside);
      small = p.small;
      clear = p.clear;
      words = words_before;
      bits = p.bits;
      same_length = ap suc p.same_length;
      updated = p.updated;
      others = other_words;
    },
  ),
)
  where
    words_before : (j : ℕ) → j < suc k → (i : ℕ) → i < 8 → test_bit (get_or (w ∷ ws) j 0) i ≡ true
    words_before zero lt i lo = all_ones w e i lo
    words_before (suc j) lt i lo = p.words j (omega (arith, lt)) i lo

    other_words : (j : ℕ) → j ≢ suc k → get_or (w ∷ ws') j 0 ≡ get_or (w ∷ ws) j 0
    other_words zero ne = refl
    other_words (suc j) ne = p.others j (λ z. ne (ap suc z))

stops :
    (ix w : ℕ) (ws : List ℕ) (later : Option (Option (ℕ × ℕ) × List ℕ)) (r : Option ℕ)
    → Fits 8 w
    → w ≢ 255
    → Offset 8 w r
    → Found ix (w ∷ ws) (scanned ix w ws later r)
stops ix w ws later none f ne h = absurd (ne (all_set w f (λ o lt. h o (omega arith) lt)))
stops ix w ws later (some o) f ne (_, lt, clear, before) = (
  (some (ix, o), or_bit w o ∷ ws),
  ground (arith, ne),
  (
    0,
    omega arith,
    record {
      inside = omega arith;
      small = lt;
      clear = clear;
      words = λ j l. absurd (omega (arith, l));
      bits = λ i l. before i (omega arith) l;
      same_length = refl;
      updated = refl;
      others = other_words;
    },
  ),
)
  where
    other_words : (j : ℕ) → j ≢ 0 → get_or (or_bit w o ∷ ws) j 0 ≡ get_or (w ∷ ws) j 0
    other_words zero ne = absurd (ne refl)
    other_words (suc j) ne = refl

clear_word-Found :
    (ix : ℕ) (ws : List ℕ) → ((k : ℕ) → Fits 8 (get_or ws k 0)) → Found ix ws (clear_word ix ws)
unfolding clear_word
clear_word-Found ix [] f = ((none, []), refl, λ k lt. absurd (omega (arith, lt)))
clear_word-Found ix (w ∷ ws) f = elim (ℕ_discrete w 255) [
  | yes e ↦
      skips ix w ws (clear_word (ix + 1) ws) (clear_offset 8 w) e
        (clear_word-Found (ix + 1) ws (λ k. f (suc k)))
  | no ne ↦
      stops ix w ws (clear_word (ix + 1) ws) (clear_offset 8 w) (f 0) ne
        (clear_offset-Offset 8 w (omega arith))
]

-- The outcomes of `bitmap_alloc`: the lowest number whose bit is clear, which is then set, or ENOSPC.
abbrev pub AllocSpec : Bitmap → Option ℕ × Bitmap → Type 0
AllocSpec b (none, b') = ((i : ℕ) → i < b.nbits → bit b i ≡ true) × (b' ≡ b)
AllocSpec b (some i, b') =
    (i < b.nbits)
    × (bit b i ≡ false)
    × ((j : ℕ) → j < i → bit b j ≡ true)
    × ((j : ℕ) → bit b' j ≡ (if j == i then true else bit b j))
    × IsBitmap b'

module _ {b : Bitmap} (p : IsBitmap b) where
  -- The word `k` and the bit `o` of the first clear bit.
  module _ {ws' : List ℕ} {k o : ℕ} (f : First b.v ws' k o) where
    First-Changed : Changed b.v ws' k o true
    First-Changed = record {
      small = f.small;
      same_length = f.same_length;
      fits = subst (Fits 8) (sym f.updated) (or_bit-Fits 8 (get_or b.v k 0) o f.small (p.bytes k));
      updated = λ i. ap (λ w. test_bit w i) f.updated ∙ test_bit-or_bit (get_or b.v k 0) o i;
      others = f.others;
    }

    at_clear : bit b (k * 8 + o) ≡ false
    at_clear = bit-position b k o f.small ∙ f.clear

    below : k * 8 + o < b.nbits
    below = elim (dec_lt (k * 8 + o) b.nbits) [
      | yes lt ↦ lt
      | no ge ↦
          let left =
            p.leftover (k * 8 + o) (omega (arith, ge)) (omega (arith, f.inside, f.small)) in
          absurd (cc (left, at_clear))
    ]

    before : (j : ℕ) → j < k * 8 + o → bit b j ≡ true
    before j lt = elim (ℕ_discrete (j / 8) k) [
      | yes e ↦
          ap (λ x. test_bit (get_or b.v x 0) (j % 8)) e ∙ f.bits (j % 8) (omega (arith, e, lt))
      | no ne ↦ f.words (j / 8) (omega (arith, ne, lt, f.small)) (j % 8) (omega arith)
    ]

    allocated : AllocSpec b (some (k * 8 + o), record b { v = ws' })
    allocated = (
      below,
      at_clear,
      before,
      bit-changed b First-Changed,
      IsBitmap-changed b First-Changed p below,
    )

  full :
      ((k : ℕ) → k < length b.v → (o : ℕ) → o < 8 → test_bit (get_or b.v k 0) o ≡ true)
      → AllocSpec b (none, b)
  full h = (λ i lt. h (i / 8) (omega (arith, p.size, lt)) (i % 8) (omega arith), refl)

  -- `bitmap_alloc` of a bit map comes back: with the lowest number whose bit is clear, and that bit is
  -- set and no other changed; or with ENOSPC where every bit is set, and the map is as before.
  pub bitmap_alloc-AllocSpec : (r : Option ℕ × Bitmap) × (bitmap_alloc b ≡ some r) × AllocSpec b r
  unfolding bitmap_alloc
  bitmap_alloc-AllocSpec = by_words (clear_word-Found 0 b.v p.bytes)
    where
      by_words :
          Found 0 b.v (clear_word 0 b.v)
          → (r : Option ℕ × Bitmap) × (bitmap_alloc b ≡ some r) × AllocSpec b r
      by_words ((none, ws'), ok, h) = ((none, b), rw (bitmap_alloc, ok) refl, full h)
      by_words ((some (i, o), ws'), ok, (k, e, f)) = (
        (some (k * 8 + o), record b { v = ws' }),
        rw (bitmap_alloc, ok) (ground (arith, e, below f)),
        allocated f,
      )
