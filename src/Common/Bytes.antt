-- ===== src/Common/Bytes.antt =====
-- Memory as bytes at addresses: copies, strings, and 32-bit words with the high byte first (MIPS).
use Prim.Native.Nat.{ℕ, zero, suc, ◌+◌, ◌*◌, ◌/◌, ◌%◌, ◌^◌, ◌≤◌, ◌<◌}
use mathlib.Core.Path.{◌≡◌, refl, ◌∙◌, ap}
use mathlib.Core.Logic.{◌⊎◌, inl}
use mathlib.Core.List.{List, [], ◌∷◌, ◌++◌}
use native.Mathlib.Omega.{arith}
use ms_projects.Common.Arrays.{length, take}
use ms_projects.Common.Sums.{assign}

abbrev pub Memory : Type 0
Memory = ℕ → ℕ

-- The bytes of `bs` are stored from the address `a` on.
unfoldable pub write_bytes : ℕ → List ℕ → Memory → Memory
write_bytes a [] m = m
write_bytes a (b ∷ bs) m = write_bytes (a + 1) bs (assign m a b)

pub write_bytes-outside :
    (a : ℕ) (bs : List ℕ) (m : Memory) (x : ℕ)
    → (x < a) ⊎ (a + length bs ≤ x)
    → write_bytes a bs m x ≡ m x
unfolding write_bytes
write_bytes-outside a [] m x h = refl
write_bytes-outside a (b ∷ bs) m x h =
    write_bytes-outside (a + 1) bs (assign m a b) x (omega arith) ∙ ground arith

-- The bytes of `bs` stand from `a` on.
abbrev pub Holds : Memory → ℕ → List ℕ → Type 0
Holds m a [] = Unit
Holds m a (b ∷ bs) = (m a ≡ b) × Holds m (a + 1) bs

pub Holds-frame :
    (m m' : Memory) (a : ℕ) (bs : List ℕ)
    → ((x : ℕ) → a ≤ x → x < a + length bs → m' x ≡ m x)
    → Holds m a bs
    → Holds m' a bs
Holds-frame m m' a [] same h = tt
Holds-frame m m' a (b ∷ bs) same (e, h) = (
  same a (omega arith) (omega arith) ∙ e,
  Holds-frame m m' (a + 1) bs (λ x lo hi. same x (omega arith) (omega arith)) h,
)

pub write_bytes-Holds : (a : ℕ) (bs : List ℕ) (m : Memory) → Holds (write_bytes a bs m) a bs
unfolding write_bytes
write_bytes-Holds a [] m = tt
write_bytes-Holds a (b ∷ bs) m = (
  write_bytes-outside (a + 1) bs (assign m a b) a (inl (omega arith)) ∙ ground arith,
  write_bytes-Holds (a + 1) bs (assign m a b),
)

pub Holds-take :
    (m : Memory) (a n : ℕ) (bs cs : List ℕ)
    → length bs ≤ n
    → Holds m a (take n (bs ++ cs))
    → Holds m a bs
Holds-take m a n [] cs le h = tt
Holds-take m a zero (b ∷ bs) cs le h = absurd (omega arith)
Holds-take m a (suc n) (b ∷ bs) cs le (e, h) = (e, Holds-take m (a + 1) n bs cs (omega arith) h)

-- A word at an address.
abbrev pub word_bytes : ℕ → List ℕ
word_bytes w = (w / 2 ^ 24 % 256) ∷ (w / 2 ^ 16 % 256) ∷ (w / 2 ^ 8 % 256) ∷ (w % 256) ∷ []

abbrev pub load_word : Memory → ℕ → ℕ
load_word m a = m a * 2 ^ 24 + m (a + 1) * 2 ^ 16 + m (a + 2) * 2 ^ 8 + m (a + 3)

pub Holds-load_word :
    (m : Memory) (a w : ℕ) → w < 2 ^ 32 → Holds m a (word_bytes w) → load_word m a ≡ w
Holds-load_word m a w lt (p, (q, (r, (s, u)))) =
    omega (arith, p, q, r, s, ap m (at2 a), ap m (at3 a))
  where
    at2 : (a : ℕ) → a + 2 ≡ a + 1 + 1
    at2 a = omega arith

    at3 : (a : ℕ) → a + 3 ≡ a + 1 + 1 + 1
    at3 a = omega arith

-- The bytes of a list of words.
abbrev pub words_bytes : List ℕ → List ℕ
words_bytes [] = []
words_bytes (w ∷ ws) = word_bytes w ++ words_bytes ws

pub length-words_bytes : (ws : List ℕ) → length (words_bytes ws) ≡ 4 * length ws
length-words_bytes [] = refl
length-words_bytes (w ∷ ws) = omega (arith, length-words_bytes ws)
