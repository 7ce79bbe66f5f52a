-- ===== src/Synchprobs/Stoplight/Quadrants.antt =====
-- No two cars are in one quadrant.
use ms_projects.Common.{
  ℕ, ◌+◌, ◌%◌, ◌≤◌, ◌<◌, ◌≡◌, ◌≢◌, refl, sym, ◌∙◌, Bool, true, false, ◌||◌, ◌==◌, Option, none,
  some, List, [], ◌∷◌, arith, ℕ_discrete, subst,
}
use ms_projects.Common.Sums.{assign, total, total-assign, total_zero}
use ms_projects.Synchprobs.Stoplight.{
  Turn, gostraight, turnleft, turnright, route, Place, outside, admitted, inside, crossing,
  departed, Intersection, stoplight_init, Move, arrives, enters, advances, releases, leaves,
  signs_off, Reach, start, later,
}

-- The car is in the quadrant `q`, and has its lock.
abbrev pub holds : Place → ℕ → Bool
holds outside q = false
holds (admitted ahead) q = false
holds (inside a ahead) q = a == q
holds (crossing a b ahead) q = a == q || b == q
holds departed q = false

abbrev pub is_owner : Option ℕ → ℕ → Bool
is_owner none i = false
is_owner (some j) i = j == i

-- Each quadrant ahead is the next one round, clockwise.
abbrev pub IsRoute : ℕ → List ℕ → Type 0
IsRoute q [] = Unit
IsRoute q (q' ∷ ahead) = (q' ≡ (q + 3) % 4) × IsRoute q' ahead

abbrev pub OnRoute : Place → Type 0
OnRoute outside = Unit
OnRoute (admitted []) = ⊥
OnRoute (admitted (q ∷ ahead)) = (q < 4) × IsRoute q ahead
OnRoute (inside q ahead) = (q < 4) × IsRoute q ahead
OnRoute (crossing q q' ahead) = (q < 4) × (q' ≡ (q + 3) % 4) × IsRoute q' ahead
OnRoute departed = Unit

-- The unit of `allow3sem` that the car has.
abbrev pub unit : Place → ℕ
unit outside = 0
unit _ = 1

pub record Inv (n : ℕ) (s : Intersection) : Type 0 where
  pub owned : (i q : ℕ) → holds (s.place i) q ≡ is_owner (s.quadlock q) i
  pub on_route : (i : ℕ) → OnRoute (s.place i)
  pub counted : s.allow3sem + total unit n s.place ≡ 3
  pub absent : (i : ℕ) → n ≤ i → s.place i ≡ outside

route-OnRoute : (turn : Turn) (d : ℕ) → d < 4 → OnRoute (admitted (route turn d))
unfolding route
route-OnRoute gostraight d h = (h, (refl, tt))
route-OnRoute turnleft d h = (h, (refl, (omega arith, tt)))
route-OnRoute turnright d h = (h, tt)

module _ {n i : ℕ} {s : Intersection} (h : i < n) (v : Inv n s) where
  Move-owned :
      {t : Intersection} → Move i s t → (j q : ℕ) → holds (t.place j) q ≡ is_owner (t.quadlock q) j
  Move-owned (arrives turn d lt p e) j q = ground (arith, v.owned j q)
  Move-owned (enters a ahead p e) j q = ground (arith, v.owned j q, v.owned j a, v.owned i q)
  Move-owned (advances a b ahead p e) j q =
      ground (arith, v.owned j q, v.owned i q, v.owned i b, v.owned j b)
  Move-owned (releases a b ahead p) j q =
      ground (arith, v.owned j q, v.owned i q, v.owned i a, v.owned j a, v.on_route i)
  Move-owned (leaves a p) j q = ground (arith, v.owned j q, v.owned i q, v.owned i a, v.owned j a)
  Move-owned (signs_off p) j q = ground (arith, v.owned j q)

  -- The place of one car after its move, and the units.
  placed-OnRoute : (p : Place) → OnRoute p → (j : ℕ) → OnRoute (assign s.place i p j)
  placed-OnRoute p ok j = elim (ℕ_discrete i j) [
    | yes same ↦ subst OnRoute (sym (assign_self same)) ok
    | no other ↦ subst OnRoute (sym (assign_other other)) (v.on_route j)
  ]
    where
      assign_self : i ≡ j → assign s.place i p j ≡ p
      assign_self e = ground arith

      assign_other : i ≢ j → assign s.place i p j ≡ s.place j
      assign_other e = ground arith

  Move-OnRoute : {t : Intersection} → Move i s t → (j : ℕ) → OnRoute (t.place j)
  Move-OnRoute (arrives turn d lt p e) = placed-OnRoute _ (route-OnRoute turn d lt)
  Move-OnRoute (enters q ahead p e) = placed-OnRoute _ (subst OnRoute p (v.on_route i))
  Move-OnRoute (advances q q' ahead p e) =
      placed-OnRoute _ (let (a, (b, c)) = subst OnRoute p (v.on_route i) in (a, b, c))
  Move-OnRoute (releases q q' ahead p) =
      placed-OnRoute _ (let (a, b, c) = subst OnRoute p (v.on_route i) in (omega (arith, b), c))
  Move-OnRoute (leaves q p) = placed-OnRoute _ tt
  Move-OnRoute (signs_off p) = placed-OnRoute _ tt

  Move-counted : {t : Intersection} → Move i s t → t.allow3sem + total unit n t.place ≡ 3
  Move-counted (arrives turn d lt p e) =
      ground (arith, v.counted, total-assign unit n s.place i (admitted (route turn d)) h)
  Move-counted (enters q ahead p e) =
      ground (arith, v.counted, total-assign unit n s.place i (inside q ahead) h)
  Move-counted (advances q q' ahead p e) =
      ground (arith, v.counted, total-assign unit n s.place i (crossing q q' ahead) h)
  Move-counted (releases q q' ahead p) =
      ground (arith, v.counted, total-assign unit n s.place i (inside q' ahead) h)
  Move-counted (leaves q p) = ground (arith, v.counted, total-assign unit n s.place i departed h)
  Move-counted (signs_off p) = ground (arith, v.counted, total-assign unit n s.place i outside h)

  Move-absent : {t : Intersection} → Move i s t → (j : ℕ) → n ≤ j → t.place j ≡ outside
  Move-absent (arrives turn d lt p e) j le = ground (arith, v.absent j)
  Move-absent (enters q ahead p e) j le = ground (arith, v.absent j)
  Move-absent (advances q q' ahead p e) j le = ground (arith, v.absent j)
  Move-absent (releases q q' ahead p) j le = ground (arith, v.absent j)
  Move-absent (leaves q p) j le = ground (arith, v.absent j)
  Move-absent (signs_off p) j le = ground (arith, v.absent j)

init-Inv : (n : ℕ) → Inv n stoplight_init
unfolding stoplight_init
init-Inv n = record {
  owned = λ i q. refl;
  on_route = λ i. tt;
  counted = omega (arith, total_zero unit n outside refl);
  absent = λ i h. refl;
}

pub Reach-Inv : {n : ℕ} {s : Intersection} → Reach n s → Inv n s
Reach-Inv {n} start = init-Inv n
Reach-Inv (later i h r mv) =
    let v = Reach-Inv r in
    record {
      owned = Move-owned h v mv;
      on_route = Move-OnRoute h v mv;
      counted = Move-counted h v mv;
      absent = Move-absent h v mv;
    }

-- However the cars are scheduled, no two of them are in one quadrant of the intersection.
pub one_car_per_quadrant :
    {n : ℕ} {s : Intersection}
    → Reach n s
    → (i j q : ℕ) → holds (s.place i) q ≡ true
    → holds (s.place j) q ≡ true
    → i ≡ j
one_car_per_quadrant {s} r i j q a b =
    let v = Reach-Inv r in only (s.quadlock q) (sym (v.owned i q) ∙ a) (sym (v.owned j q) ∙ b)
  where
    only : (o : Option ℕ) → is_owner o i ≡ true → is_owner o j ≡ true → i ≡ j
    only none x y = cc
    only (some k) x y = ground (arith, x, y)
