-- ===== src/Synchprobs/Stoplight/Progress.antt =====
-- The cars in the intersection cannot block one another: `allow3sem` lets in one less than there are
-- quadrants.
use ms_projects.Common.{
  ℕ, ◌+◌, ◌%◌, ◌<◌, ◌≡◌, ◌≢◌, refl, sym, ◌∙◌, ap, inl, inr, ◌⊎◌, true, some, List, [], ◌∷◌, arith,
  Option-cases, dec_lt,
}
use ms_projects.Common.Sums.{assign, total-assign}
use ms_projects.Synchprobs.Stoplight.{
  Place, outside, admitted, inside, crossing, departed, Intersection, Move, enters, advances,
  releases, leaves, signs_off, Reach,
}
use ms_projects.Synchprobs.Stoplight.Quadrants.{holds, OnRoute, unit, Inv, Reach-Inv}

-- Some car below `n` that is in the intersection can move on.
pub record CanMove (n : ℕ) (s : Intersection) : Type 0 where
  pub car : ℕ
  pub below : car < n
  pub present : s.place car ≢ outside
  pub after : Intersection
  pub move : Move car s after

abbrev next : ℕ → ℕ
next q = (q + 3) % 4

-- The car `j` stands in `q`, and the next quadrant belongs to another one.
record Blocked (s : Intersection) (j q : ℕ) : Type 0 where
  ahead : List ℕ
  stands : s.place j ≡ inside q ahead
  other : ℕ
  owner : s.quadlock (next q) ≡ some other

module _ {n : ℕ} {s : Intersection} (v : Inv n s) where
  present_below : (j : ℕ) → s.place j ≢ outside → j < n
  present_below j ne = elim (dec_lt j n) [
    | yes lt ↦ lt
    | no ge ↦ absurd (ne (v.absent j (omega arith)))
  ]

  moves :
      {t : Intersection} (j : ℕ) (p : Place)
      → s.place j ≡ p
      → p ≢ outside
      → Move j s t
      → CanMove n s
  moves {t} j p e ne mv =
      let ne' : s.place j ≢ outside = λ e'. ne (sym e ∙ e') in
      record { car = j; below = present_below j ne'; present = ne'; after = t; move = mv }

  owner_holds : (j q : ℕ) → s.quadlock q ≡ some j → holds (s.place j) q ≡ true
  owner_holds j q e = v.owned j q ∙ ground (arith, e)

  -- The owner of a quadrant can move on, or is blocked there.
  chase : (j q : ℕ) → s.quadlock q ≡ some j → CanMove n s ⊎ Blocked s j q
  chase j q e = at_place (s.place j) refl (owner_holds j q e) (v.on_route j)
    where
      at_place :
          (p : Place) → s.place j ≡ p → holds p q ≡ true → OnRoute p → CanMove n s ⊎ Blocked s j q
      at_place outside p h r = cc
      at_place (admitted ahead) p h r = cc
      at_place departed p h r = cc
      at_place (crossing a b ahead) p h r =
          inl (moves j (crossing a b ahead) p (λ e. cc) (releases a b ahead p))
      at_place (inside a []) p h r = inl (moves j (inside a []) p (λ e. cc) (leaves a p))
      at_place (inside a (q' ∷ ahead)) p h (lt, (on, r)) = elim (Option-cases (s.quadlock q')) [
        | inl free ↦ inl (moves j (inside a (q' ∷ ahead)) p (λ e. cc) (advances a q' ahead p free))
        | inr (k, taken) ↦ inr (record {
          ahead = q' ∷ ahead;
          stands = p ∙ ap (λ x. inside x (q' ∷ ahead)) here;
          other = k;
          owner = ap s.quadlock (omega (arith, on, here)) ∙ taken;
        })
      ]
        where
          here : a ≡ q
          here = ground (arith, h)

  Blocked-ne : {i j a b : ℕ} → Blocked s i a → Blocked s j b → a ≢ b → i ≢ j
  Blocked-ne {a} {b} x y ne e = ne (same (sym x.stands ∙ ap s.place e ∙ y.stands))
    where
      same : inside a x.ahead ≡ inside b y.ahead → a ≡ b
      same e' = cc

  Blocked-unit : {j q : ℕ} → Blocked s j q → (unit (s.place j) ≡ 1) × (j < n)
  Blocked-unit {j} x = (ap unit x.stands, present_below j (λ e. cc (sym x.stands ∙ e)))

  -- Four cars at once are more than `allow3sem` lets in.
  not_four :
      {a b c d q : ℕ}
      → q < 4
      → Blocked s a q
      → Blocked s b (next q)
      → Blocked s c (next (next q))
      → Blocked s d (next (next (next q)))
      → ⊥
  not_four {a} {b} {c} {d} {q} lt w x y z = omega (
    arith,
    v.counted,
    total-assign unit n s.place a outside (Blocked-unit w).1,
    total-assign unit n without_a b outside (Blocked-unit x).1,
    total-assign unit n without_b c outside (Blocked-unit y).1,
    total-assign unit n without_c d outside (Blocked-unit z).1,
    (Blocked-unit w).0,
    (Blocked-unit x).0,
    (Blocked-unit y).0,
    (Blocked-unit z).0,
    ap unit at_b,
    ap unit at_c,
    ap unit at_d,
  )
    where
      without_a : ℕ → Place
      without_a = assign s.place a outside

      without_b : ℕ → Place
      without_b = assign without_a b outside

      without_c : ℕ → Place
      without_c = assign without_b c outside

      ab : a ≢ b
      ab = Blocked-ne w x (λ e. omega (arith, e))

      ac : a ≢ c
      ac = Blocked-ne w y (λ e. omega (arith, e))

      ad : a ≢ d
      ad = Blocked-ne w z (λ e. omega (arith, e))

      bc : b ≢ c
      bc = Blocked-ne x y (λ e. omega (arith, e))

      bd : b ≢ d
      bd = Blocked-ne x z (λ e. omega (arith, e))

      cd : c ≢ d
      cd = Blocked-ne y z (λ e. omega (arith, e))

      at_b : without_a b ≡ s.place b
      at_b = ground (arith, ab)

      at_c : without_b c ≡ s.place c
      at_c = ground (arith, ac, bc)

      at_d : without_c d ≡ s.place d
      at_d = ground (arith, ad, bd, cd)

  -- From the owner of a quadrant, a car that can move is found behind at most three blocked ones.
  queue_moves : (j q : ℕ) → q < 4 → s.quadlock q ≡ some j → CanMove n s
  queue_moves j q lt e = elim (chase j q e) [
    | inl m ↦ m
    | inr w ↦ elim (chase w.other (next q) w.owner) [
      | inl m ↦ m
      | inr x ↦ elim (chase x.other (next (next q)) x.owner) [
        | inl m ↦ m
        | inr y ↦ elim (chase y.other (next (next (next q))) y.owner) [
          | inl m ↦ m
          | inr z ↦ absurd (not_four lt w x y z)
        ]
      ]
    ]
  ]

  car_moves : (i : ℕ) (p : Place) → s.place i ≡ p → p ≢ outside → OnRoute p → CanMove n s
  car_moves i outside p ne r = absurd (ne refl)
  car_moves i (admitted []) p ne r = absurd r
  car_moves i (admitted (q ∷ ahead)) p ne (lt, r) = elim (Option-cases (s.quadlock q)) [
    | inl free ↦ moves i (admitted (q ∷ ahead)) p ne (enters q ahead p free)
    | inr (k, taken) ↦ queue_moves k q lt taken
  ]
  car_moves i (inside q []) p ne r = moves i (inside q []) p ne (leaves q p)
  car_moves i (inside q (q' ∷ ahead)) p ne (lt, (on, r)) = elim (Option-cases (s.quadlock q')) [
    | inl free ↦ moves i (inside q (q' ∷ ahead)) p ne (advances q q' ahead p free)
    | inr (k, taken) ↦ queue_moves k q' (omega (arith, on)) taken
  ]
  car_moves i (crossing q q' ahead) p ne r =
      moves i (crossing q q' ahead) p ne (releases q q' ahead p)
  car_moves i departed p ne r = moves i departed p ne (signs_off p)

-- However the cars are scheduled, as long as a car is in the intersection one that is there can move
-- on: the cars never block one another.
pub stoplight_progress :
    {n : ℕ} {s : Intersection} → Reach n s → (i : ℕ) → s.place i ≢ outside → CanMove n s
stoplight_progress {s} r i ne =
    let v = Reach-Inv r in car_moves v i (s.place i) refl ne (v.on_route i)
