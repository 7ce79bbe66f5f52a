-- ===== src/Synchprobs/Stoplight/Emptying.antt =====
-- Without new arrivals the intersection empties.
use ms_projects.Common.{
  ℕ, zero, suc, ◌+◌, ◌*◌, ◌≤◌, ◌<◌, ◌≡◌, ◌≢◌, refl, ◌∙◌, ap, inl, inr, ◌⊎◌, arith, length,
  ℕ_discrete,
}
use ms_projects.Common.Sums.{total, total-assign}
use ms_projects.Synchprobs.Stoplight.{
  Place, outside, admitted, inside, crossing, departed, Intersection, Move, arrives, enters,
  advances, releases, leaves, signs_off, Reach, later,
}
use ms_projects.Synchprobs.Stoplight.Progress.{stoplight_progress}

-- The moves that a car has before it.
abbrev pub work : Place → ℕ
work outside = 0
work (admitted ahead) = 1 + 2 * length ahead
work (inside q ahead) = 2 + 2 * length ahead
work (crossing q q' ahead) = 3 + 2 * length ahead
work departed = 1

-- Runs of `k` moves by cars that are in the intersection.
pub data Clears (n : ℕ) (s : Intersection) : ℕ → Intersection → Type 0 where
  here : Clears n s 0 s
  next :
      {k : ℕ} {t u : Intersection} (i : ℕ)
      → i < n
      → t.place i ≢ outside
      → Clears n s k t
      → Move i t u
      → Clears n s (k + 1) u

Move-work :
    {n i : ℕ} {s t : Intersection}
    → i < n
    → s.place i ≢ outside
    → Move i s t
    → total work n t.place + 1 ≤ total work n s.place
Move-work {n} {i} {s} h ne (arrives turn d lt p e) = absurd (ne p)
Move-work {n} {i} {s} h ne (enters q ahead p e) =
    omega (arith, total-assign work n s.place i (inside q ahead) h, ap work p)
Move-work {n} {i} {s} h ne (advances q q' ahead p e) =
    omega (arith, total-assign work n s.place i (crossing q q' ahead) h, ap work p)
Move-work {n} {i} {s} h ne (releases q q' ahead p) =
    omega (arith, total-assign work n s.place i (inside q' ahead) h, ap work p)
Move-work {n} {i} {s} h ne (leaves q p) =
    omega (arith, total-assign work n s.place i departed h, ap work p)
Move-work {n} {i} {s} h ne (signs_off p) =
    omega (arith, total-assign work n s.place i outside h, ap work p)

Clears-work :
    {n : ℕ} {s : Intersection} {k : ℕ} {t : Intersection}
    → Clears n s k t
    → k + total work n t.place ≤ total work n s.place
Clears-work here = omega arith
Clears-work (next i h ne c mv) = omega (arith, Clears-work c, Move-work h ne mv)

outside_or_not : (p : Place) → (p ≡ outside) ⊎ (p ≢ outside)
outside_or_not outside = inl refl
outside_or_not (admitted ahead) = inr (λ e. cc)
outside_or_not (inside q ahead) = inr (λ e. cc)
outside_or_not (crossing q q' ahead) = inr (λ e. cc)
outside_or_not departed = inr (λ e. cc)

-- The cars below `n` have all gone, or one of them is there.
all_or_some :
    (n : ℕ) (f : ℕ → Place)
    → ((i : ℕ) → i < n → f i ≡ outside) ⊎ ((i : ℕ) × (i < n) × (f i ≢ outside))
all_or_some zero f = inl (λ i h. absurd (omega arith))
all_or_some (suc n) f = elim (all_or_some n f) [
  | inr (i, h, ne) ↦ inr (i, omega arith, ne)
  | inl gone ↦ elim (outside_or_not (f n)) [
    | inr ne ↦ inr (n, omega arith, ne)
    | inl e ↦ inl (λ i h. last_too gone e i h)
  ]
]
  where
    last_too :
        ((i : ℕ) → i < n → f i ≡ outside) → f n ≡ outside → (i : ℕ) → i < suc n → f i ≡ outside
    last_too gone e i h = elim (ℕ_discrete i n) [
      | yes same ↦ ap f same ∙ e
      | no other ↦ gone i (omega arith)
    ]

-- A run that ends with all cars gone.
abbrev pub Emptied : ℕ → Intersection → Type 0
Emptied n s =
    (k : ℕ) × (t : Intersection) × Clears n s k t × ((i : ℕ) → i < n → t.place i ≡ outside)

empties :
    (fuel : ℕ) {n : ℕ} {s t : Intersection} (k : ℕ)
    → total work n t.place ≤ fuel
    → Reach n t
    → Clears n s k t
    → Emptied n s
empties zero {n} {s} {t} k le r c = elim (all_or_some n t.place) [
  | inl gone ↦ (k, t, c, gone)
  | inr (i, lt, ne) ↦
      let m = stoplight_progress r i ne in
      absurd (omega (arith, Move-work m.below m.present m.move))
]
empties (suc fuel) {n} {s} {t} k le r c = elim (all_or_some n t.place) [
  | inl gone ↦ (k, t, c, gone)
  | inr (i, lt, ne) ↦
      let m = stoplight_progress r i ne in
      empties fuel (k + 1) (omega (arith, Move-work m.below m.present m.move))
        (later m.car m.below r m.move) (next m.car m.below m.present c m.move)
]

-- Once no more cars arrive, every run has at most as many moves as the cars have before them, however
-- they are scheduled; and some run leaves the intersection empty.
pub stoplight_empties :
    {n : ℕ} {s : Intersection}
    → Reach n s
    → ((k : ℕ) (t : Intersection) → Clears n s k t → k ≤ total work n s.place) × Emptied n s
stoplight_empties {n} {s} r =
    (λ k t c. omega (arith, Clears-work c), empties (total work n s.place) 0 (omega arith) r here)
