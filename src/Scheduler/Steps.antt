-- ===== src/Scheduler/Steps.antt =====
-- The steps of the processors of kern/thread/thread.c, and their histories. A call of `wchan_wakeone`, of
-- `wchan_wakeall` or of `thread_consider_migration` is one step, although it holds one lock after the other.
use ms_projects.Common.{ℕ, ◌<◌, ◌≡◌, ◌≢◌, true, false, some}
use ms_projects.Scheduler.{
  ThreadState, s_run, System, fork, thread_switch, next_thread, wakeone, wakeall, cpus_created,
}
use ms_projects.Scheduler.Migrate.{thread_consider_migration}

-- A step of the processors below `n`, with the wait channels below `m`.
pub data Step (n m : ℕ) (s : System) : System → Type 0 where
  forks : (c : ℕ) → c < n → (s.cpus c).c_isidle ≡ false → Step n m s (fork c s)
  switches :
      (c : ℕ) (newstate : ThreadState) (wc : ℕ) {t : System}
      → c < n
      → wc < m
      → newstate ≢ s_run
      → thread_switch c newstate wc s ≡ some t
      → Step n m s t
  finds :
      (c : ℕ) {t : System}
      → c < n
      → (s.cpus c).c_isidle ≡ true
      → next_thread c s ≡ some t
      → Step n m s t
  migrates : (c : ℕ) {t : System} → c < n → thread_consider_migration n c s ≡ some t → Step n m s t
  wakes_one : (wc : ℕ) → wc < m → Step n m s (wakeone wc s)
  wakes_all : (wc : ℕ) → wc < m → Step n m s (wakeall wc s)

pub data Reach (n m : ℕ) : System → Type 0 where
  start : Reach n m (cpus_created n)
  later : {s t : System} → Reach n m s → Step n m s t → Reach n m t
