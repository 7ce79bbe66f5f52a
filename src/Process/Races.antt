-- ===== src/Process/Races.antt =====
-- Two calls of `thread_fork` of which neither runs to its end before the other begins: kern/thread/thread.c
-- reads the count of pids and fills the entry only behind `pid_alloc`, and no lock is held in between.
use ms_projects.Common.{
  ℕ, ◌+◌, ◌<◌, ◌≡◌, refl, sym, ap, ◌∙◌, ◌≢◌, true, none, some, arith, ◌==◌, subst, if◌then◌else◌,
  length, length-set, set,
}
use ms_projects.Process.{
  ProcState, pid_max, entry, put, index, pid_alloc, free_index, ForkEnv, ForkResult, forked,
  fork_process,
}
use ms_projects.Process.Slots.{entry-set, entry-set_self}
use ms_projects.Process.Table.{child}

-- Nothing fails in the second half of `thread_fork`.
abbrev pub Completes : ForkEnv → Type 0
Completes env = (env.process_allocated ≡ true) × (env.exitsem_created ≡ true) × (env.copied ≡ none)

-- `pid_alloc` twice, with nothing filled in between.
pid_alloc-again :
    (s s₁ : ProcState) (i : ℕ)
    → pid_alloc s ≡ (index i, s₁)
    → s₁.pid_counter + 1 ≢ pid_max
    → (s₁.process_table ≡ s.process_table)
      × (pid_alloc s₁ ≡ (index i, record s₁ { pid_counter = s₁.pid_counter + 1 }))
unfolding pid_alloc
pid_alloc-again s s₁ i e ne =
    let same : s₁.process_table ≡ s.process_table = ground (arith, e) in
    (same, ground (arith, e, ne, ap (free_index 99 1) same))

module _ (env : ForkEnv) (parent i : ℕ) (s : ProcState) (inside : i < length s.process_table)
    (done : Completes env) where
  -- The state that the second half of `thread_fork` leaves.
  abbrev filled : ProcState
  filled = put (put s i (some (child 0 0 0))) i (some (child s.pid_counter parent env.new_thread))

  fork_process-filled : fork_process env parent i s ≡ (forked s.pid_counter, filled)
  unfolding fork_process
  fork_process-filled =
      ground (arith, done, entry-set_self s.process_table i (some (child 0 0 0)) inside)

  filled_size : length filled.process_table ≡ length s.process_table
  filled_size =
      length-set (set s.process_table i (some (child 0 0 0))) i _
      ∙ length-set s.process_table i (some (child 0 0 0))

  filled_entries :
      (j : ℕ)
      → entry filled.process_table j ≡ (
          if i == j
          then some (child s.pid_counter parent env.new_thread)
          else entry s.process_table j)
  filled_entries j = ground (
    arith,
    entry-set (set s.process_table i (some (child 0 0 0))) i j
        (some (child s.pid_counter parent env.new_thread)),
    entry-set s.process_table i j (some (child 0 0 0)) inside,
    length-set s.process_table i (some (child 0 0 0)),
  )

-- Both forks return the pid `pid`, and only the second child, of `parent`, is in the table, at `i`.
pub record Collide (s : ProcState) (i pid parent thread : ℕ) (first second : ForkResult)
    (t : ProcState) : Type 0 where
  pub first_pid : first ≡ forked pid
  pub second_pid : second ≡ forked pid
  pub second_child : entry t.process_table i ≡ some (child pid parent thread)
  pub others : (j : ℕ) → j ≢ i → entry t.process_table j ≡ entry s.process_table j

-- Two threads fork, and the second one calls `pid_alloc` between the `pid_alloc` of the first and its
-- reading of the count of pids; then the first one goes on to its end, and the second one behind it. Where
-- nothing fails and the count has not come to `__PID_MAX`, both calls get the same free entry and both
-- children the same pid, and the second child takes the place of the first in the table, all other entries
-- being as they were.
pub fork_process-Collide :
    (env₁ env₂ : ForkEnv) (parent₁ parent₂ i : ℕ) (s s₁ : ProcState)
    → Completes env₁
    → Completes env₂
    → i < length s.process_table
    → pid_alloc s ≡ (index i, s₁)
    → s₁.pid_counter + 1 ≢ pid_max
    → (s₂ : ProcState) × (pid_alloc s₁ ≡ (index i, s₂))
      × Collide s i s₂.pid_counter parent₂ env₂.new_thread
          (fork_process env₁ parent₁ i s₂).0
          (fork_process env₂ parent₂ i (fork_process env₁ parent₁ i s₂).1).0
          (fork_process env₂ parent₂ i (fork_process env₁ parent₁ i s₂).1).1
fork_process-Collide env₁ env₂ parent₁ parent₂ i s s₁ done₁ done₂ inside e ne =
    let (same, again) = pid_alloc-again s s₁ i e ne in
    let inside₂ : i < length s₁.process_table = subst (λ t. i < length t) (sym same) inside in
    (
      s₂,
      again,
      rw
          (
            fork_process-filled env₁ parent₁ i s₂ inside₂ done₁,
            fork_process-filled env₂ parent₂ i t₁ (omega (arith, size inside₂, inside₂)) done₂,
          )
          (record {
            first_pid = refl;
            second_pid = refl;
            second_child = ground (
              arith,
              filled_entries env₂ parent₂ i t₁ (omega (arith, size inside₂, inside₂)) done₂ i,
            );
            others = λ j other. ground (
              arith,
              other,
              filled_entries env₂ parent₂ i t₁ (omega (arith, size inside₂, inside₂)) done₂ j,
              filled_entries env₁ parent₁ i s₂ inside₂ done₁ j,
              ap (λ t. entry t j) same,
            );
          }),
    )
  where
    s₂ : ProcState
    s₂ = record s₁ { pid_counter = s₁.pid_counter + 1 }

    t₁ : ProcState
    t₁ = put (put s₂ i (some (child 0 0 0))) i (some (child s₂.pid_counter parent₁ env₁.new_thread))

    size : i < length s₁.process_table → length t₁.process_table ≡ length s₂.process_table
    size inside₂ = filled_size env₁ parent₁ i s₂ inside₂ done₁
