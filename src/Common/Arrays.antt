-- ===== src/Common/Arrays.antt =====
-- C arrays: lists measured and indexed by native numbers, with the lemmas that the models share.
use Prim.Native.Nat.{ℕ, zero, suc, ◌+◌, ◌-◌, ◌≤◌, ◌<◌}
use mathlib.Core.Path.{◌≡◌, refl, ap, ◌∙◌}
use mathlib.Core.List.{List, [], ◌∷◌, ◌++◌}
use mathlib.Core.Option.{Option, none, some}
use native.Mathlib.Omega.{arith}
use ms_projects.Common.Tests.{ltb, ◌==◌, if◌then◌else◌}

module _ {ℓ} {A : Type ℓ} where
  abbrev pub length : List A → ℕ
  length [] = 0
  length (x ∷ xs) = suc (length xs)

  abbrev pub get_elem? : List A → ℕ → Option A
  get_elem? [] i = none
  get_elem? (x ∷ xs) zero = some x
  get_elem? (x ∷ xs) (suc i) = get_elem? xs i

  abbrev pub get_or : List A → ℕ → A → A
  get_or [] i d = d
  get_or (x ∷ xs) zero d = x
  get_or (x ∷ xs) (suc i) d = get_or xs i d

  -- A write out of bounds changes nothing.
  abbrev pub set : List A → ℕ → A → List A
  set [] i v = []
  set (x ∷ xs) zero v = v ∷ xs
  set (x ∷ xs) (suc i) v = x ∷ set xs i v

  abbrev pub replicate : ℕ → A → List A
  replicate zero a = []
  replicate (suc n) a = a ∷ replicate n a

  abbrev pub take : ℕ → List A → List A
  take zero xs = []
  take (suc n) [] = []
  take (suc n) (x ∷ xs) = x ∷ take n xs

  abbrev pub drop : ℕ → List A → List A
  drop zero xs = xs
  drop (suc n) [] = []
  drop (suc n) (x ∷ xs) = drop n xs

  -- `f` applied to the part of the array from index `i` on.
  abbrev pub update_from : ℕ → (List A → List A) → List A → List A
  update_from zero f xs = f xs
  update_from (suc i) f [] = []
  update_from (suc i) f (x ∷ xs) = x ∷ update_from i f xs

module _ {ℓ} {A : Type ℓ} where
  pub length-append : (xs ys : List A) → length (xs ++ ys) ≡ length xs + length ys
  length-append [] ys = omega arith
  length-append (x ∷ xs) ys = omega (arith, length-append xs ys)

  pub length-set : (xs : List A) (i : ℕ) (v : A) → length (set xs i v) ≡ length xs
  length-set [] i v = refl
  length-set (x ∷ xs) zero v = refl
  length-set (x ∷ xs) (suc i) v = ap suc (length-set xs i v)

  pub length-replicate : (n : ℕ) (a : A) → length (replicate n a) ≡ n
  length-replicate zero a = refl
  length-replicate (suc n) a = ap suc (length-replicate n a)

  pub replicate-append :
      (n m k : ℕ) (a : A) → k ≡ n + m → replicate k a ≡ replicate n a ++ replicate m a
  replicate-append zero m k a e = ap (λ (t : ℕ). replicate t a) (omega (arith, e))
  replicate-append (suc n) m zero a e = absurd (omega arith)
  replicate-append (suc n) m (suc k) a e = ap (λ t. a ∷ t) (replicate-append n m k a (omega arith))

  -- A read after a write that is in bounds.
  pub get_elem?-set :
      (xs : List A) (i j : ℕ) (v : A)
      → i < length xs
      → get_elem? (set xs i v) j ≡ (if i == j then some v else get_elem? xs j)
  get_elem?-set [] i j v h = absurd (omega arith)
  get_elem?-set (x ∷ xs) zero zero v h = refl
  get_elem?-set (x ∷ xs) zero (suc j) v h = ground arith
  get_elem?-set (x ∷ xs) (suc i) zero v h = ground arith
  get_elem?-set (x ∷ xs) (suc i) (suc j) v h = ground (arith, get_elem?-set xs i j v (omega arith))

  pub get_elem?-some_lt : (xs : List A) (i : ℕ) {v : A} → get_elem? xs i ≡ some v → i < length xs
  get_elem?-some_lt [] i h = ground arith
  get_elem?-some_lt (x ∷ xs) zero h = omega arith
  get_elem?-some_lt (x ∷ xs) (suc i) h = omega (arith, get_elem?-some_lt xs i h)

  pub get_elem?-lt_some :
      (xs : List A) (i : ℕ) → i < length xs → (v : A) × (get_elem? xs i ≡ some v)
  get_elem?-lt_some [] i h = absurd (omega arith)
  get_elem?-lt_some (x ∷ xs) zero h = (x, refl)
  get_elem?-lt_some (x ∷ xs) (suc i) h = get_elem?-lt_some xs i (omega arith)

  pub update_from-append :
      (xs ys : List A) (n : ℕ) (f : List A → List A)
      → n ≡ length xs
      → update_from n f (xs ++ ys) ≡ xs ++ f ys
  update_from-append [] ys zero f e = refl
  update_from-append [] ys (suc n) f e = absurd (omega arith)
  update_from-append (x ∷ xs) ys zero f e = absurd (omega arith)
  update_from-append (x ∷ xs) ys (suc n) f e =
      ap (λ t. x ∷ t) (update_from-append xs ys n f (omega arith))

  pub get_elem?-drop :
      (i : ℕ) (xs : List A) (k : ℕ) → get_elem? (drop i xs) k ≡ get_elem? xs (i + k)
  get_elem?-drop zero xs k = ap (get_elem? xs) (omega arith)
  get_elem?-drop (suc i) [] k = refl
  get_elem?-drop (suc i) (x ∷ xs) k =
      get_elem?-drop i xs k ∙ ap (get_elem? (x ∷ xs)) {x = suc (i + k)} (omega arith)

  pub length-drop : (i : ℕ) (xs : List A) → i ≤ length xs → length (drop i xs) + i ≡ length xs
  length-drop zero xs h = omega arith
  length-drop (suc i) [] h = absurd (omega arith)
  length-drop (suc i) (x ∷ xs) h = omega (arith, length-drop i xs (omega arith))

  -- What a change of the part from `i` on leaves at `k`.
  pub get_elem?-update_from :
      (i : ℕ) (f : List A → List A) (xs : List A) (k : ℕ)
      → i ≤ length xs
      → get_elem? (update_from i f xs) k
        ≡ (if ltb k i then get_elem? xs k else get_elem? (f (drop i xs)) (k - i))
  get_elem?-update_from zero f xs k h = ground arith
  get_elem?-update_from (suc i) f [] k h = absurd (omega arith)
  get_elem?-update_from (suc i) f (x ∷ xs) zero h = ground arith
  get_elem?-update_from (suc i) f (x ∷ xs) (suc k) h =
      ground (arith, get_elem?-update_from i f xs k (omega arith))

  pub update_from-split :
      (i : ℕ) (f : List A → List A) (xs : List A)
      → i ≤ length xs
      → update_from i f xs ≡ take i xs ++ f (drop i xs)
  update_from-split zero f xs h = refl
  update_from-split (suc i) f [] h = absurd (omega arith)
  update_from-split (suc i) f (x ∷ xs) h = ap (λ t. x ∷ t) (update_from-split i f xs (omega arith))

  pub take-append-drop : (i : ℕ) (xs : List A) → take i xs ++ drop i xs ≡ xs
  take-append-drop zero xs = refl
  take-append-drop (suc i) [] = refl
  take-append-drop (suc i) (x ∷ xs) = ap (λ t. x ∷ t) (take-append-drop i xs)

  pub length-take : (i : ℕ) (xs : List A) → i ≤ length xs → length (take i xs) ≡ i
  length-take zero xs h = refl
  length-take (suc i) [] h = absurd (omega arith)
  length-take (suc i) (x ∷ xs) h = ap suc (length-take i xs (omega arith))
