-- ===== src/Synchprobs/Stoplight.antt =====
-- The intersection: `gostraight`, `turnleft` and `turnright` of kern/synchprobs/problems.c. Its locks
-- and its semaphore are taken by what Synch shows of them: a lock has one owner, and a completed `P`
-- takes one unit that is there.
pub mod Quadrants
pub mod Progress
pub mod Emptying
use ms_projects.Common.{ℕ, ◌+◌, ◌-◌, ◌%◌, ◌<◌, ◌≡◌, Option, none, some, List, [], ◌∷◌}
use ms_projects.Common.Sums.{assign}

-- The quadrants that a car from `direction` passes, in the order of its `lock_acquire`.
pub data Turn : Type 0 where
  gostraight turnleft turnright : Turn

unfoldable pub route : Turn → ℕ → List ℕ
route gostraight direction = direction ∷ ((direction + 3) % 4) ∷ []
route turnleft direction = direction ∷ ((direction + 3) % 4) ∷ ((direction + 2) % 4) ∷ []
route turnright direction = direction ∷ []

-- Where a car stands, with the quadrants that are ahead of it.
pub data Place : Type 0 where
  outside : Place
  -- Behind `P(allow3sem)`.
  admitted : (ahead : List ℕ) → Place
  -- Behind `inQuadrant(q)`, with the lock of `q` alone.
  inside : (q : ℕ) (ahead : List ℕ) → Place
  -- Behind `inQuadrant(q')`, before the lock of `q` is released.
  crossing : (q q' : ℕ) (ahead : List ℕ) → Place
  -- Behind the last `lock_release`.
  departed : Place

-- The owners of `quadlock`, the count of `allow3sem`, and the cars.
pub record Intersection : Type 0 where
  pub quadlock : ℕ → Option ℕ
  pub allow3sem : ℕ
  pub place : ℕ → Place

-- `stoplight_init`
unfoldable pub stoplight_init : Intersection
stoplight_init = record { quadlock = λ _. none; allow3sem = 3; place = λ _. outside }

-- One call of a lock or semaphore operation by the car `i`.
pub data Move (i : ℕ) (s : Intersection) : Intersection → Type 0 where
  arrives :
      (turn : Turn) (direction : ℕ)
      → direction < 4
      → s.place i ≡ outside
      → 0 < s.allow3sem
      → Move i s (record s {
        allow3sem = s.allow3sem - 1;
        place = assign s.place i (admitted (route turn direction));
      })
  enters :
      (q : ℕ) (ahead : List ℕ)
      → s.place i ≡ admitted (q ∷ ahead)
      → s.quadlock q ≡ none
      → Move i s (record s {
        quadlock = assign s.quadlock q (some i);
        place = assign s.place i (inside q ahead);
      })
  advances :
      (q q' : ℕ) (ahead : List ℕ)
      → s.place i ≡ inside q (q' ∷ ahead)
      → s.quadlock q' ≡ none
      → Move i s (record s {
        quadlock = assign s.quadlock q' (some i);
        place = assign s.place i (crossing q q' ahead);
      })
  releases :
      (q q' : ℕ) (ahead : List ℕ)
      → s.place i ≡ crossing q q' ahead
      → Move i s (record s {
        quadlock = assign s.quadlock q none;
        place = assign s.place i (inside q' ahead);
      })
  -- `leaveIntersection`, and the last `lock_release`.
  leaves :
      (q : ℕ)
      → s.place i ≡ inside q []
      → Move i s
          (record s { quadlock = assign s.quadlock q none; place = assign s.place i departed })
  -- `V(allow3sem)`
  signs_off :
      s.place i ≡ departed
      → Move i s (record s { allow3sem = s.allow3sem + 1; place = assign s.place i outside })

-- Runs of the cars below `n`.
pub data Reach (n : ℕ) : Intersection → Type 0 where
  start : Reach n stoplight_init
  later : {s t : Intersection} (i : ℕ) → i < n → Reach n s → Move i s t → Reach n t
