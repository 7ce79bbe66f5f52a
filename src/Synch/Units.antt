-- ===== src/Synch/Units.antt =====
-- A semaphore among any number of threads: units are conserved, and no wake-up is lost.
use ms_projects.Common.{
  ℕ, ◌+◌, ◌≤◌, ◌≡◌, refl, ap, ◌≢◌, ◌⊎◌, inl, true, false, some, List, [], ◌∷◌, ◌++◌, arith, length,
  length-append,
}
use ms_projects.Synch.{Semaphore, p_round, v}

-- The semaphore, and the threads that have been woken and have not tested the count again.
pub record SemSystem : Type 0 where
  pub sem : Semaphore
  pub woken : List ℕ

-- A step with the calls of `P` and of `V` that it completes.
pub data Step (s : SemSystem) : ℕ → ℕ → SemSystem → Type 0 where
  p_takes :
      (thread : ℕ) {sem' : Semaphore}
      → p_round thread s.sem ≡ (true, sem')
      → Step s 1 0 (record s { sem = sem' })
  p_sleeps :
      (thread : ℕ) {sem' : Semaphore}
      → p_round thread s.sem ≡ (false, sem')
      → Step s 0 0 (record s { sem = sem' })
  -- The scheduler may run any woken thread.
  retry_takes :
      (xs ys : List ℕ) (thread : ℕ) {sem' : Semaphore}
      → s.woken ≡ xs ++ (thread ∷ ys)
      → p_round thread s.sem ≡ (true, sem')
      → Step s 1 0 (record { sem = sem'; woken = xs ++ ys })
  retry_sleeps :
      (xs ys : List ℕ) (thread : ℕ) {sem' : Semaphore}
      → s.woken ≡ xs ++ (thread ∷ ys)
      → p_round thread s.sem ≡ (false, sem')
      → Step s 0 0 (record { sem = sem'; woken = xs ++ ys })
  v_wakes :
      {ts : List ℕ} {sem' : Semaphore}
      → v s.sem ≡ some (ts, sem')
      → Step s 0 1 (record { sem = sem'; woken = s.woken ++ ts })

-- The states that a semaphore of `initial` units comes to, with the calls completed so far.
pub data Reach (initial : ℕ) : ℕ → ℕ → SemSystem → Type 0 where
  start :
      Reach initial 0 0
        (record { sem = record { sem_wchan = []; sem_count = initial }; woken = [] })
  later :
      {ps vs dp dv : ℕ} {s t : SemSystem}
      → Reach initial ps vs s
      → Step s dp dv t
      → Reach initial (ps + dp) (vs + dv) t

Step-conserves :
    {s t : SemSystem} {dp dv : ℕ} → Step s dp dv t → t.sem.sem_count + dp ≡ s.sem.sem_count + dv
unfolding p_round v
Step-conserves (p_takes thread e) = ground arith
Step-conserves (p_sleeps thread e) = ground arith
Step-conserves (retry_takes xs ys thread w e) = ground arith
Step-conserves (retry_sleeps xs ys thread w e) = ground arith
Step-conserves (v_wakes e) = ground arith

-- However the threads are scheduled, the units left and the calls of `P` that have returned make up
-- the initial units and the calls of `V`.
pub Reach-conserves :
    {initial ps vs : ℕ} {s : SemSystem}
    → Reach initial ps vs s
    → s.sem.sem_count + ps ≡ initial + vs
Reach-conserves start = omega arith
Reach-conserves (later r st) = omega (arith, Reach-conserves r, Step-conserves st)

-- Where threads sleep, every unit that is there has a woken thread that will test for it.
abbrev pub NoneLost : SemSystem → Type 0
NoneLost s = (s.sem.sem_wchan ≡ []) ⊎ (s.sem.sem_count ≤ length s.woken)

v-wakes :
    (wc : List ℕ) (c : ℕ) {ts : List ℕ} {sem' : Semaphore}
    → v (record { sem_wchan = wc; sem_count = c }) ≡ some (ts, sem')
    → (sem'.sem_count ≡ c + 1)
      × (((wc ≡ []) × (sem'.sem_wchan ≡ [])) ⊎ ((wc ≢ []) × (length ts ≡ 1)))
unfolding v
v-wakes [] c e = ground arith
v-wakes (t ∷ wc) c e = ground arith

Step-NoneLost : {s t : SemSystem} {dp dv : ℕ} → Step s dp dv t → NoneLost s → NoneLost t
unfolding p_round v
Step-NoneLost (p_takes thread e) n = ground arith
Step-NoneLost (p_sleeps thread e) n = ground arith
Step-NoneLost (retry_takes xs ys thread w e) n =
    ground (arith, ap length w, length-append xs (thread ∷ ys), length-append xs ys)
Step-NoneLost (retry_sleeps xs ys thread w e) n = ground arith
Step-NoneLost {s} (v_wakes {ts} e) n =
    ground (arith, v-wakes s.sem.sem_wchan s.sem.sem_count e, length-append s.woken ts)

-- However the threads are scheduled, while threads sleep on the semaphore every unit that is there
-- has a woken thread that has yet to test for it.
pub Reach-NoneLost : {initial ps vs : ℕ} {s : SemSystem} → Reach initial ps vs s → NoneLost s
Reach-NoneLost start = inl refl
Reach-NoneLost (later r st) = Step-NoneLost st (Reach-NoneLost r)
