-- ===== src/Bitmap/Words.antt =====
-- The words of a bit map and its bits: kern/lib/bitmap.c.
use ms_projects.Common.{
  ℕ, zero, suc, ◌+◌, ◌*◌, ◌/◌, ◌%◌, ◌≤◌, ◌<◌, ◌≡◌, ◌≢◌, refl, sym, subst, ap, ◌∙◌, Bool, true, List,
  [], ◌∷◌, length, get_or, set, arith, ◌==◌, if◌then◌else◌, ℕ_discrete,
}
use ms_projects.Bitmap.{test_bit, Bitmap}
use ms_projects.Bitmap.Bits.{Fits}

pub get_or-set : (ws : List ℕ) (k w : ℕ) → k < length ws → get_or (set ws k w) k 0 ≡ w
get_or-set [] k w lt = absurd (omega (arith, lt))
get_or-set (x ∷ ws) zero w lt = refl
get_or-set (x ∷ ws) (suc k) w lt = get_or-set ws k w (omega (arith, lt))

pub get_or-set_other : (ws : List ℕ) (k w j : ℕ) → j ≢ k → get_or (set ws k w) j 0 ≡ get_or ws j 0
get_or-set_other [] k w j ne = refl
get_or-set_other (x ∷ ws) zero w zero ne = absurd (ne refl)
get_or-set_other (x ∷ ws) zero w (suc j) ne = refl
get_or-set_other (x ∷ ws) (suc k) w zero ne = refl
get_or-set_other (x ∷ ws) (suc k) w (suc j) ne = get_or-set_other ws k w j (λ e. ne (ap suc e))

-- The bit at an index.
abbrev pub bit : Bitmap → ℕ → Bool
bit b i = test_bit (get_or b.v (i / 8) 0) (i % 8)

-- The words are those that the bits take, and the bits behind the last one are set.
pub record IsBitmap (b : Bitmap) : Type 0 where
  pub size : length b.v ≡ (b.nbits + 7) / 8
  pub bytes : (ix : ℕ) → Fits 8 (get_or b.v ix 0)
  pub leftover : (i : ℕ) → b.nbits ≤ i → i < 8 * length b.v → bit b i ≡ true

-- The bit `o` of the word `k` is set to `c`.
pub record Changed (ws ws' : List ℕ) (k o : ℕ) (c : Bool) : Type 0 where
  pub small : o < 8
  pub same_length : length ws' ≡ length ws
  pub fits : Fits 8 (get_or ws' k 0)
  pub updated :
      (i : ℕ) → test_bit (get_or ws' k 0) i ≡ (if o == i then c else test_bit (get_or ws k 0) i)
  pub others : (j : ℕ) → j ≢ k → get_or ws' j 0 ≡ get_or ws j 0

pub bit-position : (b : Bitmap) (k o : ℕ) → o < 8 → bit b (k * 8 + o) ≡ test_bit (get_or b.v k 0) o
bit-position b k o lt =
    ap (λ x. test_bit (get_or b.v x 0) ((k * 8 + o) % 8)) {y = k} (omega (arith, lt))
    ∙ ap (test_bit (get_or b.v k 0)) {y = o} (omega (arith, lt))

module _ (b : Bitmap) {ws' : List ℕ} {k o : ℕ} {c : Bool} (f : Changed b.v ws' k o c) where
  pub bit-changed : (j : ℕ) → bit (record b { v = ws' }) j ≡ (if j == k * 8 + o then c else bit b j)
  bit-changed j = elim (ℕ_discrete (j / 8) k) [
    | yes e ↦
        let back : bit b j ≡ test_bit (get_or b.v k 0) (j % 8) =
          ap (λ x. test_bit (get_or b.v x 0) (j % 8)) e in
        ap (λ x. test_bit (get_or ws' x 0) (j % 8)) e
        ∙ f.updated (j % 8)
        ∙ ground (arith, e, back, f.small)
    | no ne ↦ ap (λ w. test_bit w (j % 8)) (f.others (j / 8) ne) ∙ ground (arith, ne, f.small)
  ]

  -- A bit below `nbits` may be changed.
  pub IsBitmap-changed : IsBitmap b → k * 8 + o < b.nbits → IsBitmap (record b { v = ws' })
  IsBitmap-changed p lt = record {
    size = f.same_length ∙ p.size;
    bytes = λ ix. elim (ℕ_discrete ix k) [
      | yes e ↦ subst (λ x. Fits 8 (get_or ws' x 0)) (sym e) f.fits
      | no ne ↦ subst (Fits 8) (sym (f.others ix ne)) (p.bytes ix)
    ];
    leftover = λ i ge below.
        bit-changed i
        ∙ ground (arith, lt, ge, p.leftover i ge (omega (arith, below, f.same_length)));
  }
