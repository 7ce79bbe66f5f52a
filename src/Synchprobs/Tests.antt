-- ===== src/Synchprobs/Tests.antt =====
-- Runs of the cars and of the whales, and the theorems at them.
use ms_projects.Common.{ℕ, ◌≤◌, ◌≡◌, ◌≢◌, refl, ap, ◌⊎◌, ◌∷◌, [], true, false, arith}
use ms_projects.Common.Sums.{total}
use ms_projects.Synchprobs.Stoplight as Stoplight
use ms_projects.Synchprobs.Stoplight.{Intersection, Place, outside, turnleft}
use ms_projects.Synchprobs.Stoplight.Quadrants.{holds, one_car_per_quadrant}
use ms_projects.Synchprobs.Stoplight.Progress.{CanMove, stoplight_progress}
use ms_projects.Synchprobs.Stoplight.Emptying.{work, Clears, Emptied, stoplight_empties}
use ms_projects.Synchprobs.Whales as Whales

-- Car 1 turns left from direction 2 and stands in quadrant 2.
car_run :
    (s : Intersection) × Stoplight.Reach 2 s
    × (holds (s.place 1) 2 ≡ true)
    × (holds (s.place 1) 1 ≡ false)
unfolding Stoplight.stoplight_init Stoplight.route
car_run = (
  _,
  Stoplight.later 1 (omega arith)
      (Stoplight.later 1 (omega arith) Stoplight.start
        (Stoplight.arrives turnleft 2 (omega arith) refl (omega arith)))
      (Stoplight.enters 2 (1 ∷ 0 ∷ []) refl refl),
  refl,
  refl,
)

car_present : car_run.0.place 1 ≢ outside
car_present e = cc (ap (λ p. holds p 2) e, car_run.2)

stoplight_progress_example : CanMove 2 car_run.0
stoplight_progress_example = stoplight_progress car_run.1 1 car_present

one_car_per_quadrant_example : ◌≡◌ {A = ℕ} 1 1
one_car_per_quadrant_example = one_car_per_quadrant car_run.1 1 1 2 car_run.2 car_run.2

stoplight_empties_example :
    ((k : ℕ) (t : Intersection) → Clears 2 car_run.0 k t → k ≤ total work 2 car_run.0.place)
    × Emptied 2 car_run.0
stoplight_empties_example = stoplight_empties car_run.1

-- A female is about to sleep when a matchmaker and a male come: the signal of the male is lost, and the
-- female falls asleep behind it.
abbrev female_late : Whales.Sea
female_late = record {
  males = record { number = 0; entering = 0; asleep = 0; woken = 0; ended = 1 };
  females = record { number = 1; entering = 0; asleep = 1; woken = 0; ended = 0 };
  matchmakers = record { number = 1; entering = 1; asleep = 0; woken = 0; ended = 0 };
}

whale_run : Whales.Reach female_late
unfolding Whales.male Whales.female Whales.matchmaker Whales.falls_asleep
whale_run =
    Whales.later
      (Whales.later
        (Whales.later (Whales.later Whales.start Whales.female_arrives) Whales.matchmaker_arrives)
        Whales.male_arrives)
      (Whales.female_sleeps (omega arith))

whales_never_all_asleep_example :
    (Whales.waiting female_late.males ≡ 0)
    ⊎ ((Whales.waiting female_late.females ≡ 0) ⊎ (Whales.waiting female_late.matchmakers ≡ 0))
whales_never_all_asleep_example = Whales.whales_never_all_asleep whale_run

-- Two males, one female.
whales_mate_unmatched_example : Whales.Reach (Whales.one_pair 2)
whales_mate_unmatched_example = Whales.whales_mate_unmatched 1
