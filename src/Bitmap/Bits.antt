-- ===== src/Bitmap/Bits.antt =====
-- The bits of a byte, for kern/lib/bitmap.c.
use ms_projects.Common.{
  ℕ, zero, suc, ◌/◌, ◌≤◌, ◌<◌, ◌≡◌, refl, subst, ap, ◌∙◌, true, false, arith, ◌==◌, if◌then◌else◌,
}
use ms_projects.Bitmap.{test_bit, or_bit, and_not_bit}

-- A number of `n` bits.
abbrev pub Fits : ℕ → ℕ → Type 0
Fits zero w = w ≡ 0
Fits (suc n) w = Fits n (w / 2)

pub test_bit-or_bit :
    (w o i : ℕ) → test_bit (or_bit w o) i ≡ (if o == i then true else test_bit w i)
unfolding test_bit or_bit
test_bit-or_bit w zero zero = ground arith
test_bit-or_bit w zero (suc i) = ap (λ x. test_bit x i) {y = w / 2} (omega arith) ∙ ground arith
test_bit-or_bit w (suc o) zero = ground arith
test_bit-or_bit w (suc o) (suc i) =
    ap (λ x. test_bit x i) {y = or_bit (w / 2) o} (omega arith)
    ∙ test_bit-or_bit (w / 2) o i
    ∙ ground arith

pub test_bit-and_not_bit :
    (w o i : ℕ) → test_bit (and_not_bit w o) i ≡ (if o == i then false else test_bit w i)
unfolding test_bit and_not_bit
test_bit-and_not_bit w zero zero = ground arith
test_bit-and_not_bit w zero (suc i) =
    ap (λ x. test_bit x i) {y = w / 2} (omega arith) ∙ ground arith
test_bit-and_not_bit w (suc o) zero = ground arith
test_bit-and_not_bit w (suc o) (suc i) =
    ap (λ x. test_bit x i) {y = and_not_bit (w / 2) o} (omega arith)
    ∙ test_bit-and_not_bit (w / 2) o i
    ∙ ground arith

pub or_bit-Fits : (n w o : ℕ) → o < n → Fits n w → Fits n (or_bit w o)
unfolding or_bit
or_bit-Fits zero w o lt f = absurd (omega arith)
or_bit-Fits (suc n) w zero lt f = subst (Fits n) (omega arith) f
or_bit-Fits (suc n) w (suc o) lt f =
    subst (Fits n) (omega arith) (or_bit-Fits n (w / 2) o (omega arith) f)

and_not_bit_le : (w o : ℕ) → and_not_bit w o ≤ w
unfolding and_not_bit
and_not_bit_le w zero = omega arith
and_not_bit_le w (suc o) = omega (arith, and_not_bit_le (w / 2) o)

pub and_not_bit-Fits : (n w o : ℕ) → Fits n w → Fits n (and_not_bit w o)
unfolding and_not_bit
and_not_bit-Fits zero w o f = omega (arith, f, and_not_bit_le w o)
and_not_bit-Fits (suc n) w zero f = subst (Fits n) (omega arith) f
and_not_bit-Fits (suc n) w (suc o) f = subst (Fits n) (omega arith) (and_not_bit-Fits n (w / 2) o f)

-- A byte is 255 if all of its bits are set, and only then.
pub all_set : (w : ℕ) → Fits 8 w → ((o : ℕ) → o < 8 → test_bit w o ≡ true) → w ≡ 255
unfolding test_bit
all_set w f h = ground (
  arith,
  f,
  h 0 (omega arith),
  h 1 (omega arith),
  h 2 (omega arith),
  h 3 (omega arith),
  h 4 (omega arith),
  h 5 (omega arith),
  h 6 (omega arith),
  h 7 (omega arith),
)

pub test_bit-ones : (o : ℕ) → o < 8 → test_bit 255 o ≡ true
unfolding test_bit
test_bit-ones zero lt = refl
test_bit-ones (suc zero) lt = refl
test_bit-ones (suc (suc zero)) lt = refl
test_bit-ones (suc (suc (suc zero))) lt = refl
test_bit-ones (suc (suc (suc (suc zero)))) lt = refl
test_bit-ones (suc (suc (suc (suc (suc zero))))) lt = refl
test_bit-ones (suc (suc (suc (suc (suc (suc zero)))))) lt = refl
test_bit-ones (suc (suc (suc (suc (suc (suc (suc zero))))))) lt = refl
test_bit-ones (suc (suc (suc (suc (suc (suc (suc (suc o)))))))) lt = absurd (omega arith)
