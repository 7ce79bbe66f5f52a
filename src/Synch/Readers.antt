-- ===== src/Synch/Readers.antt =====
-- The reader-writer lock of kern/thread/synch.c: writers are alone. Its two locks and its semaphore
-- are taken by what `Owner` and `Units` show of them: a lock has one owner, and a completed `P` takes
-- one unit that is there.
use ms_projects.Common.{
  ℕ, zero, suc, ◌+◌, ◌-◌, ◌≤◌, ◌<◌, ◌≡◌, refl, ap, ◌≢◌, Option, none, some, arith, ◌==◌,
  if◌then◌else◌, ℕ_discrete, dec_lt,
}

-- `max_readers`, as `rwlock_create` sets it.
abbrev pub max_readers : ℕ
max_readers = 30

-- Where a thread stands.
pub data Pc : Type 0 where
  outside : Pc
  -- `rwlock_acquire_read`: behind `lock_acquire(lk_read)`, and behind `P(sem_resource)`.
  read_locked : Pc
  read_taken : Pc
  reading : Pc
  -- `rwlock_acquire_write`: behind `lock_acquire(lk_write)` and `i` rounds of the loop.
  write_taking : (i : ℕ) → Pc
  writing : Pc
  -- `rwlock_release_write`: `i` rounds of the loop are left.
  write_releasing : (i : ℕ) → Pc

-- `struct rwlock`: the owners of its locks and the count of its semaphore; and the threads.
pub record Rwlock : Type 0 where
  pub lk_read : Option ℕ
  pub lk_write : Option ℕ
  pub sem_resource : ℕ
  pub pc : ℕ → Pc

abbrev pub at : (ℕ → Pc) → ℕ → Pc → ℕ → Pc
at pc i p j = if i == j then p else pc j

-- One call of a lock or semaphore operation by thread `i`.
pub data Move (i : ℕ) (s : Rwlock) : Rwlock → Type 0 where
  lock_read :
      s.pc i ≡ outside
      → s.lk_read ≡ none
      → Move i s (record s { lk_read = some i; pc = at s.pc i read_locked })
  p_read :
      s.pc i ≡ read_locked
      → 0 < s.sem_resource
      → Move i s (record s { sem_resource = s.sem_resource - 1; pc = at s.pc i read_taken })
  unlock_read : s.pc i ≡ read_taken → Move i s (record s { lk_read = none; pc = at s.pc i reading })
  -- `rwlock_release_read`
  v_read :
      s.pc i ≡ reading
      → Move i s (record s { sem_resource = s.sem_resource + 1; pc = at s.pc i outside })
  lock_write :
      s.pc i ≡ outside
      → s.lk_write ≡ none
      → Move i s (record s { lk_write = some i; pc = at s.pc i (write_taking 0) })
  p_write :
      (n : ℕ)
      → s.pc i ≡ write_taking n
      → n < max_readers
      → 0 < s.sem_resource
      → Move i s
          (record s { sem_resource = s.sem_resource - 1; pc = at s.pc i (write_taking (n + 1)) })
  unlock_write :
      (n : ℕ)
      → s.pc i ≡ write_taking n
      → max_readers ≤ n
      → Move i s (record s { lk_write = none; pc = at s.pc i writing })
  -- `rwlock_release_write`
  release_write :
      s.pc i ≡ writing → Move i s (record s { pc = at s.pc i (write_releasing max_readers) })
  v_write :
      (n : ℕ)
      → s.pc i ≡ write_releasing n
      → 0 < n
      → Move i s
          (record s { sem_resource = s.sem_resource + 1; pc = at s.pc i (write_releasing (n - 1)) })
  done_write : s.pc i ≡ write_releasing 0 → Move i s (record s { pc = at s.pc i outside })

-- Runs of the threads below `n`, from `rwlock_create` on.
pub data Reach (n : ℕ) : Rwlock → Type 0 where
  start :
      Reach n
        (record { lk_read = none; lk_write = none; sem_resource = max_readers; pc = λ _. outside })
  later : {s t : Rwlock} (i : ℕ) → i < n → Reach n s → Move i s t → Reach n t

-- The units that a thread holds.
abbrev pub units : Pc → ℕ
units outside = 0
units read_locked = 0
units read_taken = 1
units reading = 1
units (write_taking i) = i
units writing = max_readers
units (write_releasing i) = i

-- The units of the threads below `n`.
pub total_units : ℕ → (ℕ → Pc) → ℕ
total_units zero pc = 0
total_units (suc n) pc = total_units n pc + units (pc n)

total_units-at_above :
    (n : ℕ) (pc : ℕ → Pc) (i : ℕ) (p : Pc) → n ≤ i → total_units n (at pc i p) ≡ total_units n pc
unfolding total_units
total_units-at_above zero pc i p h = refl
total_units-at_above (suc n) pc i p h = ground (arith, total_units-at_above n pc i p)

total_units-at :
    (n : ℕ) (pc : ℕ → Pc) (i : ℕ) (p : Pc)
    → i < n
    → total_units n (at pc i p) + units (pc i) ≡ total_units n pc + units p
unfolding total_units
total_units-at zero pc i p h = absurd (omega arith)
total_units-at (suc n) pc i p h = elim (dec_lt i n) [
  | yes below ↦ ground (arith, total_units-at n pc i p below)
  | no last ↦ ground (arith, total_units-at_above n pc i p)
]

-- Two threads hold no more than all of them.
units_le_total : (n i : ℕ) (pc : ℕ → Pc) → i < n → units (pc i) ≤ total_units n pc
unfolding total_units
units_le_total zero i pc h = absurd (omega arith)
units_le_total (suc n) i pc h = elim (ℕ_discrete i n) [
  | yes same ↦ ground arith
  | no other ↦ omega (arith, units_le_total n i pc (omega arith))
]

two_le_total :
    (n i j : ℕ) (pc : ℕ → Pc)
    → i < n
    → j < n
    → i ≢ j
    → units (pc i) + units (pc j) ≤ total_units n pc
unfolding total_units
two_le_total zero i j pc hi hj ne = absurd (omega arith)
two_le_total (suc n) i j pc hi hj ne = elim (ℕ_discrete i n) [
  | yes same ↦ ground (arith, units_le_total n j pc)
  | no other ↦ elim (ℕ_discrete j n) [
    | yes same ↦ ground (arith, units_le_total n i pc)
    | no other' ↦ ground (arith, two_le_total n i j pc)
  ]
]

-- Units are neither lost nor made up; a writer takes no more than there are, and owns `lk_write`
-- while it takes them.
pub record Inv (n : ℕ) (s : Rwlock) : Type 0 where
  pub conserved : s.sem_resource + total_units n s.pc ≡ max_readers
  pub taking : (i k : ℕ) → s.pc i ≡ write_taking k → (k ≤ max_readers) × (s.lk_write ≡ some i)

module _ {n i : ℕ} {s : Rwlock} (h : i < n) (v : Inv n s) where
  Move-conserves : {t : Rwlock} → Move i s t → t.sem_resource + total_units n t.pc ≡ max_readers
  Move-conserves (lock_read p e) =
      ground (arith, v.conserved, total_units-at n s.pc i read_locked h)
  Move-conserves (p_read p e) = ground (arith, v.conserved, total_units-at n s.pc i read_taken h)
  Move-conserves (unlock_read p) = ground (arith, v.conserved, total_units-at n s.pc i reading h)
  Move-conserves (v_read p) = ground (arith, v.conserved, total_units-at n s.pc i outside h)
  Move-conserves (lock_write p e) =
      ground (arith, v.conserved, total_units-at n s.pc i (write_taking 0) h)
  Move-conserves (p_write k p lt e) =
      ground (arith, v.conserved, total_units-at n s.pc i (write_taking (k + 1)) h)
  Move-conserves (unlock_write k p le) =
      ground (arith, v.conserved, v.taking i k, total_units-at n s.pc i writing h)
  Move-conserves (release_write p) =
      ground (arith, v.conserved, total_units-at n s.pc i (write_releasing max_readers) h)
  Move-conserves (v_write k p lt) =
      ground (arith, v.conserved, total_units-at n s.pc i (write_releasing (k - 1)) h)
  Move-conserves (done_write p) = ground (arith, v.conserved, total_units-at n s.pc i outside h)

  Move-taking :
      {t : Rwlock}
      → Move i s t
      → (j k : ℕ) → t.pc j ≡ write_taking k
      → (k ≤ max_readers) × (t.lk_write ≡ some j)
  Move-taking (lock_read p e) j k q = ground (arith, v.taking j k)
  Move-taking (p_read p e) j k q = ground (arith, v.taking j k)
  Move-taking (unlock_read p) j k q = ground (arith, v.taking j k)
  Move-taking (v_read p) j k q = ground (arith, v.taking j k)
  Move-taking (lock_write p e) j k q = ground (arith, v.taking j k)
  Move-taking (p_write m p lt e) j k q = ground (arith, v.taking j k, v.taking i m)
  Move-taking (unlock_write m p le) j k q = ground (arith, v.taking j k, v.taking i m)
  Move-taking (release_write p) j k q = ground (arith, v.taking j k)
  Move-taking (v_write m p lt) j k q = ground (arith, v.taking j k)
  Move-taking (done_write p) j k q = ground (arith, v.taking j k)

total_units-outside : (n : ℕ) → total_units n (λ _. outside) ≡ 0
unfolding total_units
total_units-outside zero = refl
total_units-outside (suc n) = omega (arith, total_units-outside n)

Reach-Inv : {n : ℕ} {s : Rwlock} → Reach n s → Inv n s
Reach-Inv {n} start = record {
  conserved = omega (arith, total_units-outside n);
  taking = λ i k q. cc;
}
Reach-Inv (later i h r mv) =
    let v = Reach-Inv r in record { conserved = Move-conserves h v mv; taking = Move-taking h v mv }

-- In every run of `n` threads: while a thread has the lock for writing no other one has it for
-- writing or for reading.
pub writer_alone :
    {n : ℕ} {s : Rwlock}
    → Reach n s
    → (i j : ℕ) → i < n
    → j < n
    → i ≢ j
    → s.pc i ≡ writing
    → (s.pc j ≢ writing) × (s.pc j ≢ reading)
writer_alone {n} {s} r i j hi hj ne w =
    (λ q. absurd (crowded (ap units q)), λ q. absurd (crowded_one (ap units q)))
  where
    v : Inv n s
    v = Reach-Inv r

    both : units (s.pc i) + units (s.pc j) ≤ total_units n s.pc
    both = two_le_total n i j s.pc hi hj ne

    all_units : units (s.pc i) ≡ 30
    all_units = ap units w

    crowded : units (s.pc j) ≡ 30 → ⊥
    crowded q = omega (arith, v.conserved, both, all_units)

    crowded_one : units (s.pc j) ≡ 1 → ⊥
    crowded_one q = omega (arith, v.conserved, both, all_units)

-- In every run, two threads are never at once in the loop that takes the units for writing, so no
-- two writers can each wait for the other's.
pub one_taker :
    {n : ℕ} {s : Rwlock}
    → Reach n s
    → (i j k m : ℕ) → s.pc i ≡ write_taking k
    → s.pc j ≡ write_taking m
    → i ≡ j
one_taker r i j k m p q = let v = Reach-Inv r in ground (arith, v.taking i k, v.taking j m)
