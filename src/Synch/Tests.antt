-- ===== src/Synch/Tests.antt =====
-- Runs of the primitives, and the theorems at concrete inputs.
use ms_projects.Common.{
  ℕ, zero, suc, ◌+◌, ◌-◌, ◌≤◌, ◌<◌, ◌≡◌, ◌≢◌, refl, ap, true, false, none, some, [], ◌∷◌, arith,
  length, if◌then◌else◌, ◌==◌,
}
use ms_projects.Synch.{Semaphore, p_round, v, lock_acquire, lock_release}
use ms_projects.Synch.Units.{SemSystem, NoneLost, Reach-conserves, Reach-NoneLost}
use ms_projects.Synch.Units as Units
use ms_projects.Synch.Owner as Owner
use ms_projects.Synch.Readers as Readers
use ms_projects.Synch.Signals as Signals
use ms_projects.Synch.Create.{allocate}

abbrev asleep_one : Semaphore
asleep_one = record { sem_wchan = 5 ∷ []; sem_count = 0 }

-- Thread 5 sleeps on a semaphore of no unit, and another thread calls `V`.
sem_run :
    Units.Reach 0 0 1 (record { sem = record { sem_wchan = []; sem_count = 1 }; woken = 5 ∷ [] })
unfolding p_round v
sem_run = Units.later (Units.later Units.start (Units.p_sleeps 5 refl)) (Units.v_wakes refl)

Reach-conserves_example : 1 + 0 ≡ 0 + 1
Reach-conserves_example = Reach-conserves sem_run

Reach-NoneLost_example :
    NoneLost (record { sem = record { sem_wchan = []; sem_count = 1 }; woken = 5 ∷ [] })
Reach-NoneLost_example = Reach-NoneLost sem_run

-- Thread 7 has the lock, 8 sleeps on it, 9 calls `lock_release` in vain.
lock_run : (s : Owner.LockSystem) × Owner.Reach s × (s.inside 7 ≡ true)
unfolding lock_acquire lock_release
lock_run = (
  _,
  Owner.later (Owner.later (Owner.later Owner.start (Owner.acquires 7 refl)) (Owner.sleeps 8 refl))
      (Owner.releases 9 refl),
  refl,
)

lock_mutual_exclusion_example : ◌≡◌ {A = ℕ} 7 7
lock_mutual_exclusion_example = Owner.lock_mutual_exclusion lock_run.1 7 7 lock_run.2 lock_run.2

-- Then 7 releases it, and 8 is woken.
free_run : Owner.Reach (record {
  lock = record { owner_thread = none; lk_wchan = 9 ∷ [] };
  woken = 8 ∷ [];
  inside = Owner.mark (Owner.mark (λ _. false) 7 true) 7 false;
})
unfolding lock_acquire lock_release
free_run =
    Owner.later
      (Owner.later
        (Owner.later (Owner.later Owner.start (Owner.acquires 7 refl)) (Owner.sleeps 8 refl))
        (Owner.sleeps 9 refl))
      (Owner.releases 7 refl)

lock_none_lost_example : 0 < length {A = ℕ} (8 ∷ [])
lock_none_lost_example = Owner.lock_none_lost free_run refl (λ e. cc)

-- Thread 0 takes units for writing, next to thread 1, which has not begun.
abbrev taken : ℕ → Readers.Rwlock
taken zero = record {
  lk_read = none;
  lk_write = some 0;
  sem_resource = 30;
  pc = Readers.at (λ _. Readers.outside) 0 (Readers.write_taking 0);
}
taken (suc k) = record (taken k) {
  sem_resource = (taken k).sem_resource - 1;
  pc = Readers.at (taken k).pc 0 (Readers.write_taking (k + 1));
}

taken_left : (k : ℕ) → k ≤ 30 → (taken k).sem_resource + k ≡ 30
taken_left zero h = refl
taken_left (suc k) h = omega (arith, taken_left k (omega arith))

taken_pc : (k : ℕ) → (taken k).pc 0 ≡ Readers.write_taking k
taken_pc zero = refl
taken_pc (suc k) = ap Readers.write_taking (omega arith)

taken-Reach : (k : ℕ) → k ≤ 30 → Readers.Reach 2 (taken k)
taken-Reach zero h = Readers.later 0 (omega arith) Readers.start (Readers.lock_write refl refl)
taken-Reach (suc k) h =
    Readers.later 0 (omega arith) (taken-Reach k (omega arith))
      (Readers.p_write k (taken_pc k) (omega arith) (omega (arith, taken_left k)))

abbrev written : Readers.Rwlock
written = record (taken 30) { lk_write = none; pc = Readers.at (taken 30).pc 0 Readers.writing }

written-Reach : Readers.Reach 2 written
written-Reach =
    Readers.later 0 (omega arith) (taken-Reach 30 (omega arith))
      (Readers.unlock_write 30 refl (omega arith))

writer_alone_example : (written.pc 1 ≢ Readers.writing) × (written.pc 1 ≢ Readers.reading)
writer_alone_example =
    Readers.writer_alone written-Reach 0 1 (omega arith) (omega arith) (λ e. omega (arith, e)) refl

no_more_memory : (allocate (record { outcomes = true ∷ []; live = 12 })).0 ≡ false
unfolding allocate
no_more_memory = refl

-- Two threads on a variable: thread 1 has the lock, thread 2 is outside.
abbrev paired : Signals.CvSystem
paired = record {
  cv_wchan = [];
  cv_spinlock = none;
  owner = some 1;
  pc = λ i. if i == 1 then Signals.holding else Signals.outside;
}

paired-Owned : Signals.Owned paired
paired-Owned i h = ground arith

signalled : Signals.owns ((Signals.cv_signal paired).pc 1) ≡ true
unfolding Signals.cv_signal
signalled = refl

abbrev two_asleep : Signals.CvSystem
two_asleep = record {
  cv_wchan = 3 ∷ 4 ∷ [];
  cv_spinlock = none;
  owner = some 1;
  pc = λ i. if i == 1 then Signals.holding else Signals.asleep;
}

cv_wait_loses_signal_example : Signals.SignalLost 1 2 paired
cv_wait_loses_signal_example =
    Signals.cv_wait_loses_signal paired 1 2 (λ e. omega (arith, e)) refl refl refl refl refl
