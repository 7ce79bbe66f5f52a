-- ===== src/Synch.antt =====
-- Synchronisation: kern/thread/synch.c with synch.h, and the wait channels of kern/thread/thread.c.
-- The body of each operation between `spinlock_acquire` and `spinlock_release` is one step. A thread
-- that goes to sleep takes the lock of the wait channel before it gives up the spinlock, so its test
-- and its joining the channel are one step too.
pub mod Create
pub mod Units
pub mod Owner
pub mod Readers
pub mod Signals
mod Tests
use ms_projects.Common.{
  ℕ, zero, suc, ◌+◌, ◌-◌, ◌^◌, Bool, true, false, Option, none, some, List, [], ◌∷◌, ◌++◌, ltb,
  ◌==◌, if◌then◌else◌,
}

-- The threads asleep on a `struct wchan`, the longest first.
abbrev pub Wchan : Type 0
Wchan = List ℕ

-- `wchan_sleep`: `thread_switch` puts the thread at the tail.
abbrev pub wchan_sleep : ℕ → Wchan → Wchan
wchan_sleep thread wc = wc ++ (thread ∷ [])

-- `wchan_wakeone` and `wchan_wakeall`: the threads made runnable, and those left.
unfoldable pub wchan_wakeone : Wchan → List ℕ × Wchan
wchan_wakeone [] = ([], [])
wchan_wakeone (t ∷ wc) = (t ∷ [], wc)

unfoldable pub wchan_wakeall : Wchan → List ℕ × Wchan
wchan_wakeall wc = (wc, [])

-- `struct semaphore`
pub record Semaphore : Type 0 where
  pub sem_wchan : Wchan
  pub sem_count : ℕ

-- One round of the loop of `P`: the thread takes a unit (`true`) or goes to sleep.
unfoldable pub p_round : ℕ → Semaphore → Bool × Semaphore
p_round thread sem =
    if sem.sem_count == 0
    then (false, record sem { sem_wchan = wchan_sleep thread sem.sem_wchan })
    else (true, record sem { sem_count = sem.sem_count - 1 })

-- `V`, with the threads that it wakes. The count is an `int`: past its largest value the assertion
-- fails, and the kernel panics (`none`).
unfoldable pub v : Semaphore → Option (List ℕ × Semaphore)
unfolding wchan_wakeone
v sem =
    let (woken, wc) = wchan_wakeone sem.sem_wchan in
    if ltb (sem.sem_count + 1) (2 ^ 31)
    then some (woken, record { sem_wchan = wc; sem_count = sem.sem_count + 1 })
    else none

-- `struct lock`
pub record Lock : Type 0 where
  pub owner_thread : Option ℕ
  pub lk_wchan : Wchan

unfoldable pub lock_do_i_hold : ℕ → Lock → Bool
lock_do_i_hold thread lk = elim lk.owner_thread [ none ↦ false | some t ↦ t == thread ]

-- One round of the loop of `lock_acquire`, behind its first test.
unfoldable pub acquire_round : ℕ → Lock → Bool × Lock
acquire_round thread lk = elim lk.owner_thread [
  | none ↦ (true, record lk { owner_thread = some thread })
  | some t ↦ (false, record lk { lk_wchan = wchan_sleep thread lk.lk_wchan })
]

-- `lock_acquire` up to its return or its first sleep.
unfoldable pub lock_acquire : ℕ → Lock → Bool × Lock
unfolding lock_do_i_hold acquire_round
lock_acquire thread lk = if lock_do_i_hold thread lk then (true, lk) else acquire_round thread lk

-- `lock_release`, with the threads that it wakes.
unfoldable pub lock_release : ℕ → Lock → List ℕ × Lock
unfolding lock_do_i_hold wchan_wakeone
lock_release thread lk =
    if lock_do_i_hold thread lk
    then (let (woken, wc) = wchan_wakeone lk.lk_wchan in
        (woken, record { owner_thread = none; lk_wchan = wc }))
    else ([], lk)
