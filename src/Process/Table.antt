-- ===== src/Process/Table.antt =====
-- The invariant of the process table, and what each call does to the table.
use ms_projects.Common.{
  ℕ, ◌+◌, ◌≤◌, ◌<◌, ◌≡◌, refl, sym, ap, ◌∙◌, ◌≢◌, inl, inr, true, false, ◌&&◌, subst, Option, none,
  some, arith, ◌==◌, if◌then◌else◌, length, set, length-set, Bool-cases,
}
use ms_projects.Common.Errno.{Errno, enomem, emproc, enproc}
use ms_projects.Process.{
  Process, ProcState, proc_max, pid_max, entry, PidResult, index, table_full, pids_used, pid_alloc,
  ForkEnv, ForkResult, failed, forked, put, destroy_process, fork_process, thread_fork,
}
use ms_projects.Process.Slots.{entry-set, entry-set_self, AllocSpec, pid_alloc-AllocSpec}

-- Pids in the table are distinct and have been issued.
pub record IsValid (s : ProcState) : Type 0 where
  pub sized : length s.process_table ≡ proc_max
  pub unique :
      (i j : ℕ) (p q : Process)
      → entry s.process_table i ≡ some p
      → entry s.process_table j ≡ some q
      → p.pid ≡ q.pid
      → i ≡ j
  pub issued : (i : ℕ) (p : Process) → entry s.process_table i ≡ some p → p.pid ≤ s.pid_counter

-- A call that keeps every entry, and may count pids.
pub record Keeps (s s' : ProcState) : Type 0 where
  pub entries : (j : ℕ) → entry s'.process_table j ≡ entry s.process_table j
  pub counted : s.pid_counter ≤ s'.pid_counter
  pub same_size : length s'.process_table ≡ length s.process_table

-- A call that fills the empty entry `i` with the process `p`, whose pid is new.
pub record Adds (i : ℕ) (p : Process) (s s' : ProcState) : Type 0 where
  pub was_free : entry s.process_table i ≡ none
  pub entries :
      (j : ℕ) → entry s'.process_table j ≡ (if i == j then some p else entry s.process_table j)
  pub pid_new : p.pid ≡ s.pid_counter + 1
  pub counted : s'.pid_counter ≡ s.pid_counter + 1
  pub same_size : length s'.process_table ≡ length s.process_table

pub Keeps-IsValid : {s s' : ProcState} → Keeps s s' → IsValid s → IsValid s'
Keeps-IsValid k v = record {
  sized = k.same_size ∙ v.sized;
  unique = λ i j p q a b e. v.unique i j p q (sym (k.entries i) ∙ a) (sym (k.entries j) ∙ b) e;
  issued = λ i p a. omega (arith, v.issued i p (sym (k.entries i) ∙ a), k.counted);
}

pub Adds-IsValid : {i : ℕ} {p : Process} {s s' : ProcState} → Adds i p s s' → IsValid s → IsValid s'
Adds-IsValid {i} {p} {s} {s'} k v = record {
  sized = k.same_size ∙ v.sized;
  unique = λ a b q r x y e.
      ground
        (arith, k.entries a, k.entries b, k.pid_new, v.unique a b q r, v.issued a q, v.issued b r);
  issued = λ a q x. ground (arith, k.entries a, k.pid_new, k.counted, v.issued a q);
}

-- The process that a fork makes.
abbrev pub child : ℕ → ℕ → ℕ → Process
child pid parent thread = record {
  pid = pid;
  ppid = parent;
  exitsem = 0;
  exited = false;
  exitcode = 0;
  self = thread;
}

-- What `thread_fork` may do.
abbrev pub Forks : ForkEnv → ℕ → ProcState → ForkResult × ProcState → Type 0
Forks env parent s (failed e, s') = Keeps s s' × (s'.fork_sem ≡ s.fork_sem)
Forks env parent s (forked pid, s') =
    (i : ℕ) × (0 < i)
    × (i < proc_max)
    × (pid ≢ pid_max)
    × Adds i (child pid parent env.new_thread) s s'
    × (s'.fork_sem ≡ s.fork_sem)

module _ (env : ForkEnv) (parent i : ℕ) (s : ProcState) (inside : i < length s.process_table) where
  -- The state after `pid_alloc`, and the entries that a fork writes after one another.
  abbrev counted_state : ProcState
  counted_state = record s { pid_counter = s.pid_counter + 1 }

  abbrev child_state : ProcState
  child_state =
      put (put counted_state i (some (child 0 0 0))) i
        (some (child (s.pid_counter + 1) parent env.new_thread))

  fork_process-unallocated :
      (env.process_allocated && env.exitsem_created) ≡ false
      → fork_process env parent i counted_state ≡ (failed enomem, counted_state)
  unfolding fork_process
  fork_process-unallocated h = ground arith

  fork_process-child :
      (env.process_allocated && env.exitsem_created) ≡ true
      → fork_process env parent i counted_state ≡ elim env.copied [
        | some e ↦ (failed e, destroy_process i child_state)
        | none ↦ (forked (s.pid_counter + 1), child_state)
      ]
  unfolding fork_process
  fork_process-child h =
      ground (arith, entry-set_self s.process_table i (some (child 0 0 0)) inside)

  child_entries :
      (j : ℕ)
      → entry child_state.process_table j ≡ (
          if i == j
          then some (child (s.pid_counter + 1) parent env.new_thread)
          else entry s.process_table j)
  child_entries j = ground (
    arith,
    entry-set (set s.process_table i (some (child 0 0 0))) i j
        (some (child (s.pid_counter + 1) parent env.new_thread)),
    entry-set s.process_table i j (some (child 0 0 0)) inside,
    length-set s.process_table i (some (child 0 0 0)),
  )

  child_size : length child_state.process_table ≡ length s.process_table
  child_size =
      length-set (set s.process_table i (some (child 0 0 0))) i _
      ∙ length-set s.process_table i (some (child 0 0 0))

  destroyed-Keeps : entry s.process_table i ≡ none → Keeps s (destroy_process i child_state)
  unfolding destroy_process
  destroyed-Keeps free = record {
    entries = λ j.
        ground (arith, entry-set child_state.process_table i j none, child_entries j, child_size);
    counted = omega arith;
    same_size = length-set child_state.process_table i none ∙ child_size;
  }

  same_sem : (destroy_process i child_state).fork_sem ≡ s.fork_sem
  unfolding destroy_process
  same_sem = refl

  fork_process-Forks :
      0 < i
      → i < proc_max
      → entry s.process_table i ≡ none
      → s.pid_counter + 1 ≢ pid_max
      → Forks env parent s (fork_process env parent i counted_state)
  fork_process-Forks lo hi free fresh =
      elim (Bool-cases (env.process_allocated && env.exitsem_created)) [
        | inr a ↦
            rw (fork_process-unallocated a)
              (record { entries = λ j. refl; counted = omega arith; same_size = refl }, refl)
        | inl a ↦ subst (Forks env parent s) (sym (fork_process-child a)) (outcome env.copied)
      ]
    where
      outcome :
          (c : Option Errno)
          → Forks env parent s (elim c [
            | some e ↦ (failed e, destroy_process i child_state)
            | none ↦ (forked (s.pid_counter + 1), child_state)
          ])
      outcome (some e) = (destroyed-Keeps free, same_sem)
      outcome none = (
        i,
        lo,
        hi,
        fresh,
        record {
          was_free = free;
          entries = child_entries;
          pid_new = refl;
          counted = refl;
          same_size = child_size;
        },
        refl,
      )

-- `thread_fork` either fails, and then every entry is as it was, also where a later step failed
-- after the entry had been filled; or it fills one empty entry with a process whose pid has not been
-- issued before and whose parent is the caller.
pub thread_fork-Forks :
    (env : ForkEnv) (parent : ℕ) (s : ProcState)
    → IsValid s
    → Forks env parent s (thread_fork env parent s)
unfolding thread_fork
thread_fork-Forks env parent s v = elim (Bool-cases (env.thread_created && env.stack_allocated)) [
  | inr a ↦
      subst (Forks env parent s) (sym (refused a))
        (record { entries = λ j. refl; counted = omega arith; same_size = refl }, refl)
  | inl a ↦
      subst (Forks env parent s) (sym (allocated a)) (outcome (pid_alloc s) (pid_alloc-AllocSpec s))
]
  where
    rest : PidResult × ProcState → ForkResult × ProcState
    rest r = elim r.0 [
      | table_full ↦ (failed enproc, r.1)
      | pids_used ↦ (failed emproc, r.1)
      | index i ↦ fork_process env parent i r.1
    ]

    refused :
        (env.thread_created && env.stack_allocated) ≡ false
        → thread_fork env parent s ≡ (failed enomem, s)
    refused a = ground arith

    allocated :
        (env.thread_created && env.stack_allocated) ≡ true
        → thread_fork env parent s ≡ rest (pid_alloc s)
    allocated a = ground arith

    outcome : (r : PidResult × ProcState) → AllocSpec s r → Forks env parent s (rest r)
    outcome (index i, s') (lo, hi, free, first, e, fresh) =
        subst (λ t. Forks env parent s (fork_process env parent i t)) (sym e)
          (fork_process-Forks env parent i s (omega (arith, v.sized)) lo hi free
            (λ q. fresh (ap (λ (t : ProcState). t.pid_counter) e ∙ q)))
    outcome (table_full, s') (full, e) =
        subst (λ t. Forks env parent s (failed enproc, t)) (sym e)
          (record { entries = λ j. refl; counted = omega arith; same_size = refl }, refl)
    outcome (pids_used, s') (e, last) =
        subst (λ t. Forks env parent s (failed emproc, t)) (sym e)
          (record { entries = λ j. refl; counted = omega arith; same_size = refl }, refl)
