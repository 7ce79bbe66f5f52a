-- ===== src/Bitmap/Create.antt =====
-- `bitmap_create` of kern/lib/bitmap.c.
use ms_projects.Common.{
  ℕ, zero, suc, ◌+◌, ◌-◌, ◌*◌, ◌/◌, ◌%◌, ◌^◌, ◌≤◌, ◌<◌, ◌≡◌, ◌≢◌, refl, sym, subst, ap, ◌∙◌, true,
  false, none, some, List, length, replicate, set, get_or, arith, ltb, if◌then◌else◌, ℕ_discrete,
  length-set, length-replicate,
}
use ms_projects.Bitmap.{test_bit, or_bit, Bitmap, mark_last, bitmap_create}
use ms_projects.Bitmap.Words.{get_or-set, get_or-set_other, bit, IsBitmap}
use ms_projects.Bitmap.Bits.{Fits, test_bit-or_bit, or_bit-Fits}

mark_last-bit :
    (n w i : ℕ)
    → n ≤ 8
    → i < 8
    → test_bit (mark_last n w) i ≡ (if ltb i (8 - n) then test_bit w i else true)
unfolding mark_last
mark_last-bit zero w i le lt = ground (arith, lt)
mark_last-bit (suc n) w i le lt =
    mark_last-bit n (or_bit w (7 - n)) i (omega (arith, le)) lt
    ∙ ground (arith, le, lt, test_bit-or_bit w (7 - n) i)

mark_last-Fits : (n w : ℕ) → n ≤ 8 → Fits 8 w → Fits 8 (mark_last n w)
unfolding mark_last
mark_last-Fits zero w le f = f
mark_last-Fits (suc n) w le f =
    mark_last-Fits n (or_bit w (7 - n)) (omega (arith, le))
      (or_bit-Fits 8 w (7 - n) (omega arith) f)

test_bit-zero : (i : ℕ) → test_bit 0 i ≡ false
unfolding test_bit
test_bit-zero zero = refl
test_bit-zero (suc i) = test_bit-zero i

get_or-replicate : (n k : ℕ) → ◌≡◌ {A = ℕ} (get_or (replicate n 0) k 0) 0
get_or-replicate zero k = refl
get_or-replicate (suc n) zero = refl
get_or-replicate (suc n) (suc k) = get_or-replicate n k

-- A new map: no bit below `nbits` is set.
abbrev pub Fresh : ℕ → Bitmap → Type 0
Fresh nbits b = (b.nbits ≡ nbits) × IsBitmap b × ((i : ℕ) → i < nbits → bit b i ≡ false)

module _ (nbits : ℕ) where
  zeros : List ℕ
  zeros = replicate ((nbits + 7) / 8) 0

  zeros-bit : (k i : ℕ) → test_bit (get_or zeros k 0) i ≡ false
  unfolding zeros
  zeros-bit k i = ap (λ w. test_bit w i) (get_or-replicate ((nbits + 7) / 8) k) ∙ test_bit-zero i

  zeros-Fits : (k : ℕ) → Fits 8 (get_or zeros k 0)
  unfolding zeros
  zeros-Fits k = subst (Fits 8) (sym (get_or-replicate ((nbits + 7) / 8) k)) refl

  length-zeros : length zeros ≡ (nbits + 7) / 8
  unfolding zeros
  length-zeros = length-replicate {0} ((nbits + 7) / 8) 0

  whole-Fresh : nbits % 8 ≡ 0 → Fresh nbits (record { nbits = nbits; v = zeros })
  whole-Fresh e = (
    refl,
    record {
      size = length-zeros;
      bytes = zeros-Fits;
      leftover = λ i ge lt. absurd (omega (arith, e, ge, lt, length-zeros));
    },
    λ i lt. zeros-bit (i / 8) (i % 8),
  )

  module _ (ne : nbits % 8 ≢ 0) where
    last : ℕ
    last = mark_last (8 - nbits % 8) 0

    words : List ℕ
    words = set zeros (nbits / 8) last

    length-words : length words ≡ (nbits + 7) / 8
    unfolding words
    length-words = length-set zeros (nbits / 8) last ∙ length-zeros

    at_last : get_or words (nbits / 8) 0 ≡ last
    unfolding words
    at_last = get_or-set zeros (nbits / 8) last (omega (arith, length-zeros, ne))

    before_last : (k : ℕ) → k ≢ nbits / 8 → get_or words k 0 ≡ get_or zeros k 0
    unfolding words
    before_last k d = get_or-set_other zeros (nbits / 8) last k d

    words-Fits : (k : ℕ) → Fits 8 (get_or words k 0)
    unfolding last
    words-Fits k = elim (ℕ_discrete k (nbits / 8)) [
      | yes e ↦
          subst (λ x. Fits 8 (get_or words x 0)) (sym e)
            (subst (Fits 8) (sym at_last) (mark_last-Fits (8 - nbits % 8) 0 (omega arith) refl))
      | no d ↦ subst (Fits 8) (sym (before_last k d)) (zeros-Fits k)
    ]

    words-bit :
        (i : ℕ)
        → i < 8 * length words
        → bit (record { nbits = nbits; v = words }) i ≡ (if ltb i nbits then false else true)
    unfolding last
    words-bit i lt = elim (ℕ_discrete (i / 8) (nbits / 8)) [
      | yes e ↦
          ap (λ x. test_bit (get_or words x 0) (i % 8)) e
          ∙ ap (λ w. test_bit w (i % 8)) at_last
          ∙ mark_last-bit (8 - nbits % 8) 0 (i % 8) (omega arith) (omega arith)
          ∙ ground (arith, e, test_bit-zero (i % 8))
      | no d ↦
          ap (λ w. test_bit w (i % 8)) (before_last (i / 8) d)
          ∙ zeros-bit (i / 8) (i % 8)
          ∙ ground (arith, d, lt, length-words)
    ]

    rest-Fresh : Fresh nbits (record { nbits = nbits; v = words })
    rest-Fresh = (
      refl,
      record {
        size = length-words;
        bytes = words-Fits;
        leftover = λ i ge lt. words-bit i lt ∙ ground (arith, ge);
      },
      λ i lt. words-bit i (omega (arith, lt, length-words)) ∙ ground (arith, lt),
    )

-- `bitmap_create` for a number of bits that does not wrap around when it is rounded up: it returns NULL
-- where memory is short, and otherwise a bit map of so many bits, of which none is set. No assertion
-- fails.
pub bitmap_create-Fresh :
    (nbits : ℕ)
    → nbits + 7 < 2 ^ 32
    → (bitmap_create (false, true) nbits ≡ some none)
      × (bitmap_create (true, false) nbits ≡ some none)
      × ((b : Bitmap) × (bitmap_create (true, true) nbits ≡ some (some b)) × Fresh nbits b)
unfolding bitmap_create zeros words last
bitmap_create-Fresh nbits lt = (
  refl,
  refl,
  elim (ℕ_discrete (nbits % 8) 0) [
    | yes e ↦ (record { nbits = nbits; v = zeros nbits }, whole e, whole-Fresh nbits e)
    | no ne ↦ (record { nbits = nbits; v = words nbits ne }, partly ne, rest-Fresh nbits ne)
  ],
)
  where
    rounded : (nbits + 7) % 2 ^ 32 / 8 ≡ (nbits + 7) / 8
    rounded = omega (arith, lt)

    whole :
        nbits % 8 ≡ 0
        → bitmap_create (true, true) nbits ≡ some (some (record { nbits = nbits; v = zeros nbits }))
    whole e = rw rounded (ground (arith, e))

    partly :
        (ne : nbits % 8 ≢ 0)
        → bitmap_create (true, true) nbits
          ≡ some (some (record { nbits = nbits; v = words nbits ne }))
    partly ne =
        let ix : (nbits + 7) / 8 - 1 ≡ nbits / 8 = omega (arith, ne) in
        let over : nbits - nbits / 8 * 8 ≡ nbits % 8 = omega arith in
        rw (rounded, ix, over) (ground (arith, ne))
