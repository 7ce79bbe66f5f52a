-- ===== src/Common/Words.antt =====
-- 32-bit words: wrap-around written out, and the masks that the kernel applies.
use Prim.Native.Nat.{
  ℕ, zero, suc, ◌+◌, ◌-◌, ◌*◌, ◌/◌, ◌%◌, ◌^◌, ◌≤◌, ◌<◌, min, bit_and, digits, bit_and-bitwise,
}
use mathlib.Core.Path.{◌≡◌, refl, ap, ◌∙◌}
use native.Mathlib.Nat.{le_refl}
use native.Mathlib.Omega.{arith}

-- `uint32_t` (also `unsigned`, `size_t`, `vaddr_t`, `paddr_t`) addition, subtraction, product.
abbrev pub u32 : ℕ → ℕ
u32 n = n % 2 ^ 32

abbrev pub add32 : ℕ → ℕ → ℕ
add32 a b = (a + b) % 2 ^ 32

abbrev pub sub32 : ℕ → ℕ → ℕ
sub32 a b = (a + 2 ^ 32 - b) % 2 ^ 32

abbrev pub mul32 : ℕ → ℕ → ℕ
mul32 a b = (a * b) % 2 ^ 32

-- The conjunction digit by digit, in at most `n` rounds; as many as the number itself are enough.
conj : ℕ → ℕ → ℕ → ℕ
conj n a b = digits (λ _. zero) min n a b

conj_rounds : (k n a b : ℕ) → n ≤ k → a ≤ n → conj n a b ≡ conj a a b
unfolding conj
conj_rounds k n zero b nk an = elim n as (λ m. conj m zero b ≡ conj zero zero b) [
  | zero ↦ refl
  | suc m ↦ refl
]
conj_rounds k zero (suc a) b nk an = absurd (omega arith)
conj_rounds zero (suc n) (suc a) b nk an = absurd (omega arith)
conj_rounds (suc k) (suc n) (suc a) b nk an =
    let half : ℕ = suc a / 2 in
    let by_n = conj_rounds k n half (b / 2) (omega arith) (omega arith) in
    let by_a = conj_rounds k a half (b / 2) (omega arith) (omega arith) in omega (arith, by_n, by_a)

zero-bit_and : (b : ℕ) → bit_and zero b ≡ zero
zero-bit_and b = bit_and-bitwise zero b

-- `a & b` from its lowest digit and the rest.
pub bit_and_step : (a b : ℕ) → bit_and a b ≡ bit_and (a / 2) (b / 2) * 2 + min (a % 2) (b % 2)
unfolding conj
bit_and_step zero b = rw (zero-bit_and b) (omega (arith, zero-bit_and (b / 2)))
bit_and_step (suc a) b =
    let whole = bit_and-bitwise (suc a) b in
    let rest = bit_and-bitwise (suc a / 2) (b / 2) in
    omega (arith, whole, rest, conj_rounds a a (suc a / 2) (b / 2) (le_refl a) (omega arith))

bit_and-double : (a m : ℕ) → bit_and a (2 * m) ≡ bit_and (a / 2) m * 2
bit_and-double a m = bit_and_step a (2 * m) ∙ omega (arith, ap (bit_and (a / 2)) halved)
  where
    halved : 2 * m / 2 ≡ m
    halved = omega arith

bit_and_odd : (a m : ℕ) → bit_and a (2 * m + 1) ≡ bit_and (a / 2) m * 2 + a % 2
bit_and_odd a m = bit_and_step a (2 * m + 1) ∙ omega (arith, ap (bit_and (a / 2)) halved)
  where
    halved : (2 * m + 1) / 2 ≡ m
    halved = omega arith

-- A mask that ends in the hexadecimal digit 0 or f.
bit_and_hex_zero : (a m : ℕ) → bit_and a (2 * (2 * (2 * (2 * m)))) ≡ bit_and (a / 16) m * 16
bit_and_hex_zero a m = omega (
  arith,
  bit_and-double a (2 * (2 * (2 * m))),
  bit_and-double (a / 2) (2 * (2 * m)),
  bit_and-double (a / 2 / 2) (2 * m),
  bit_and-double (a / 2 / 2 / 2) m,
  ap (λ (t : ℕ). bit_and t m) sixteenth,
)
  where
    sixteenth : a / 2 / 2 / 2 / 2 ≡ a / 16
    sixteenth = omega arith

bit_and_hex_f :
    (a m : ℕ)
    → bit_and a (2 * (2 * (2 * (2 * m + 1) + 1) + 1) + 1) ≡ bit_and (a / 16) m * 16 + a % 16
bit_and_hex_f a m = omega (
  arith,
  bit_and_odd a (2 * (2 * (2 * m + 1) + 1) + 1),
  bit_and_odd (a / 2) (2 * (2 * m + 1) + 1),
  bit_and_odd (a / 2 / 2) (2 * m + 1),
  bit_and_odd (a / 2 / 2 / 2) m,
  ap (λ (t : ℕ). bit_and t m) sixteenth,
)
  where
    sixteenth : a / 2 / 2 / 2 / 2 ≡ a / 16
    sixteenth = omega arith

-- The mask 0, below every bound `k`.
masked_out : (k x : ℕ) → x ≤ k → bit_and x 0 ≡ 0
masked_out k zero h = refl
masked_out zero (suc x) h = absurd (omega arith)
masked_out (suc k) (suc x) h =
    let rest = masked_out k (suc x / 2) (omega arith) in
    bit_and_step (suc x) 0 ∙ omega (arith, rest)

-- `x & PAGE_FRAME` clears the offset within the page.
pub bit_and_page_frame : (x : ℕ) → x < 2 ^ 32 → bit_and x 0xfffff000 ≡ x / 4096 * 4096
bit_and_page_frame x h = omega (
  arith,
  bit_and_hex_zero x 0xfffff00,
  bit_and_hex_zero (x / 16) 0xfffff0,
  bit_and_hex_zero (x / 16 / 16) 0xfffff,
  bit_and_hex_f (x / 16 / 16 / 16) 0xffff,
  bit_and_hex_f (x / 16 / 16 / 16 / 16) 0xfff,
  bit_and_hex_f (x / 16 / 16 / 16 / 16 / 16) 0xff,
  bit_and_hex_f (x / 16 / 16 / 16 / 16 / 16 / 16) 0xf,
  bit_and_hex_f (x / 16 / 16 / 16 / 16 / 16 / 16 / 16) 0,
  masked_out _ (x / 16 / 16 / 16 / 16 / 16 / 16 / 16 / 16) (le_refl _),
)

-- `x & ~PAGE_FRAME` is the offset within the page.
pub bit_and_offset : (x : ℕ) → bit_and x 0xfff ≡ x % 4096
bit_and_offset x = omega (
  arith,
  bit_and_hex_f x 0xff,
  bit_and_hex_f (x / 16) 0xf,
  bit_and_hex_f (x / 16 / 16) 0,
  masked_out _ (x / 16 / 16 / 16) (le_refl _),
)
