-- ===== src/Synch/Create.antt =====
-- Creation and destruction of the primitives of kern/thread/synch.c, and the memory that they take.
use ms_projects.Common.{
  ℕ, ◌+◌, ◌-◌, ◌≡◌, ◌>>=◌, refl, ◌⊎◌, inl, inr, Bool, true, false, not, Option, none, some, List,
  [], ◌∷◌, ◌++◌, arith, if◌then◌else◌, replicate,
}
use ms_projects.Synch.{Wchan, Semaphore, Lock}

-- The allocator: whether each coming `kmalloc` succeeds (past the end none does), and the blocks that
-- are in use.
pub record Memory : Type 0 where
  pub outcomes : List Bool
  pub live : ℕ

unfoldable pub kmalloc : Memory → Bool × Memory
kmalloc mem = elim mem.outcomes [
  | [] ↦ (false, mem)
  | b ∷ bs ↦ (b, record { outcomes = bs; live = if b then mem.live + 1 else mem.live })
]

unfoldable pub kfree : Memory → Memory
kfree mem = record mem { live = mem.live - 1 }

-- The structure, the copy of its name and its wait channel; what has been got is given back when one
-- of them fails. `sem_create`, `lock_create` and `cv_create` all begin so.
unfoldable pub allocate : Memory → Bool × Memory
unfolding kmalloc kfree
allocate mem =
    let (a, m₁) = kmalloc mem in
    let (b, m₂) = kmalloc m₁ in
    let (c, m₃) = kmalloc m₂ in
    if not a
    then (false, m₁)
    else if not b
    then (false, kfree m₂)
    else if not c
    then (false, kfree (kfree m₃))
    else (true, m₃)

-- The channel must be empty: `threadlist_cleanup` asserts it, and the kernel panics (`none`).
unfoldable pub release : Wchan → Memory → Option Memory
unfolding kfree
release [] mem = some (kfree (kfree (kfree mem)))
release (t ∷ wc) mem = none

unfoldable pub sem_create : ℕ → Memory → Option Semaphore × Memory
sem_create initial_count mem =
    let (done, mem') = allocate mem in
    if done
    then (some (record { sem_wchan = []; sem_count = initial_count }), mem')
    else (none, mem')

unfoldable pub sem_destroy : Semaphore → Memory → Option Memory
unfolding release
sem_destroy sem mem = release sem.sem_wchan mem

unfoldable pub lock_create : Memory → Option Lock × Memory
lock_create mem =
    let (done, mem') = allocate mem in
    if done then (some (record { owner_thread = none; lk_wchan = [] }), mem') else (none, mem')

unfoldable pub lock_destroy : Lock → Memory → Option Memory
unfolding release
lock_destroy lk mem = release lk.lk_wchan mem

unfoldable pub cv_create : Memory → Option Wchan × Memory
cv_create mem = let (done, mem') = allocate mem in if done then (some [], mem') else (none, mem')

unfoldable pub cv_destroy : Wchan → Memory → Option Memory
unfolding release
cv_destroy wc mem = release wc mem

-- `struct rwlock`; a lock that could not be made is NULL.
pub record RwlockParts : Type 0 where
  pub lk_read : Option Lock
  pub lk_write : Option Lock
  pub sem_resource : Semaphore
  pub max_readers : ℕ

-- `rwlock_create` behind the allocation of the structure and its name. It tests neither lock, and
-- where the semaphore fails it gives back the structure alone.
unfoldable pub rwlock_parts : Memory → Option RwlockParts × Memory
unfolding kfree
rwlock_parts mem =
    let (rd, m₁) = lock_create mem in
    let (wr, m₂) = lock_create m₁ in
    let (sem, m₃) = sem_create 30 m₂ in
    elim sem [
      | none ↦ (none, kfree m₃)
      | some s ↦
          (some (record { lk_read = rd; lk_write = wr; sem_resource = s; max_readers = 30 }), m₃)
    ]

unfoldable pub rwlock_create : Memory → Option RwlockParts × Memory
unfolding kmalloc kfree
rwlock_create mem =
    let (a, m₁) = kmalloc mem in
    let (b, m₂) = kmalloc m₁ in
    if not a then (none, m₁) else if not b then (none, kfree m₂) else rwlock_parts m₂

-- What an allocation of three blocks leaves.
abbrev Allocated : Memory → Bool × Memory → Type 0
Allocated mem (true, mem') = mem'.live ≡ mem.live + 3
Allocated mem (false, mem') = mem'.live ≡ mem.live

allocate-Allocated :
    (bs : List Bool) (n : ℕ)
    → Allocated (record { outcomes = bs; live = n }) (allocate (record { outcomes = bs; live = n }))
unfolding allocate
allocate-Allocated [] n = refl
allocate-Allocated (false ∷ bs) n = refl
allocate-Allocated (true ∷ []) n = omega arith
allocate-Allocated (true ∷ false ∷ bs) n = omega arith
allocate-Allocated (true ∷ true ∷ []) n = omega arith
allocate-Allocated (true ∷ true ∷ false ∷ bs) n = omega arith
allocate-Allocated (true ∷ true ∷ true ∷ bs) n = omega arith

-- `sem_create` either fails and leaves no block behind, or makes a semaphore of the given count with
-- an empty channel; and `sem_destroy` of that gives back all that was taken.
pub sem_create-sem_destroy :
    (initial_count : ℕ) (mem : Memory)
    → let (r, mem') = sem_create initial_count mem in
      ((r ≡ none) × (mem'.live ≡ mem.live))
      ⊎ ((s : Semaphore) × (m : Memory) × (r ≡ some s)
          × (s.sem_count ≡ initial_count)
          × (s.sem_wchan ≡ [])
          × (sem_destroy s mem' ≡ some m)
          × (m.live ≡ mem.live))
unfolding sem_create sem_destroy
sem_create-sem_destroy c mem = made (allocate mem) (allocate-Allocated mem.outcomes mem.live)
  where
    made :
        (r : Bool × Memory)
        → Allocated mem r
        → let (o, mem') =
            if r.0
            then (let p : Option Semaphore × Memory =
                  (some (record { sem_wchan = []; sem_count = c }), r.1) in
                p)
            else (none, r.1) in
          ((o ≡ none) × (mem'.live ≡ mem.live))
          ⊎ ((s : Semaphore) × (m : Memory) × (o ≡ some s)
              × (s.sem_count ≡ c)
              × (s.sem_wchan ≡ [])
              × (sem_destroy s mem' ≡ some m)
              × (m.live ≡ mem.live))
    made (false, mem') a = inl (refl, a)
    made (true, mem') a =
        inr (record { sem_wchan = []; sem_count = c }, _, refl, refl, refl, refl, omega arith)

-- Where the semaphore of a reader-writer lock cannot be made, `rwlock_create` fails and leaves seven
-- blocks behind: the name and the three blocks of each lock.
pub rwlock_create_leaks :
    (rest : List Bool) (n : ℕ)
    → (allocate (record { outcomes = rest; live = n + 8 })).0 ≡ false
    → let mem : Memory = record { outcomes = replicate 8 true ++ rest; live = n } in
      ((rwlock_create mem).0 ≡ none) × ((rwlock_create mem).1.live ≡ n + 7)
unfolding rwlock_create rwlock_parts lock_create sem_create allocate
rwlock_create_leaks [] n e = (refl, omega arith)
rwlock_create_leaks (false ∷ bs) n e = (refl, omega arith)
rwlock_create_leaks (true ∷ []) n e = (refl, omega arith)
rwlock_create_leaks (true ∷ false ∷ bs) n e = (refl, omega arith)
rwlock_create_leaks (true ∷ true ∷ []) n e = (refl, omega arith)
rwlock_create_leaks (true ∷ true ∷ false ∷ bs) n e = (refl, omega arith)
rwlock_create_leaks (true ∷ true ∷ true ∷ bs) n e = cc

-- `lock_destroy` asserts that it is given a lock.
unfoldable pub destroy_lock : Option Lock → Memory → Option Memory
unfolding lock_destroy
destroy_lock none mem = none
destroy_lock (some lk) mem = lock_destroy lk mem

unfoldable pub rwlock_destroy : RwlockParts → Memory → Option Memory
unfolding kfree
rwlock_destroy lock mem = do
  m₁ ← destroy_lock lock.lk_read mem
  m₂ ← destroy_lock lock.lk_write m₁
  m₃ ← sem_destroy lock.sem_resource m₂
  some (kfree (kfree m₃))

-- Where every allocation succeeds, `rwlock_create` makes a lock of 30 units that nobody owns, and
-- `rwlock_destroy` of it gives back all that was taken.
pub rwlock_create-rwlock_destroy :
    (rest : List Bool) (n : ℕ)
    → let mem : Memory = record { outcomes = replicate 11 true ++ rest; live = n } in
      (rw : RwlockParts) × (m : Memory) × ((rwlock_create mem).0 ≡ some rw)
      × (rw.sem_resource.sem_count ≡ 30)
      × (rwlock_destroy rw (rwlock_create mem).1 ≡ some m)
      × (m.live ≡ n)
unfolding rwlock_create rwlock_parts lock_create sem_create allocate rwlock_destroy destroy_lock
    lock_destroy sem_destroy
rwlock_create-rwlock_destroy rest n = (_, _, refl, refl, refl, omega arith)
