-- ===== src/Process/Life.antt =====
-- The life of one child, and the children that nobody can wait for.
use ms_projects.Common.{
  ℕ, ◌+◌, ◌≤◌, ◌<◌, ◌≡◌, refl, ap, subst, ◌∙◌, true, not, ◌||◌, none, some, arith, ◌==◌,
  if◌then◌else◌, length,
}
use ms_projects.Common.Int.{pos, lt_pos}
use ms_projects.Common.Errno.{esrch}
use ms_projects.Process.{
  Process, ProcState, proc_max, pid_max, entry, put, update_entry, ForkEnv, forked, thread_fork,
  blocked, returns, wait_failed, reaped, mkwait_exit, sys_waitpid, sys__exit,
}
use ms_projects.Process.Slots.{entry-set}
use ms_projects.Process.Table.{IsValid, Adds, Adds-IsValid, Forks, child, thread_fork-Forks}
use ms_projects.Process.History.{entry-some_lt, Step-IsValid, exits}
use ms_projects.Process.Wait.{
  GoodStatus, sys_waitpid-wait_switch, wait_switch-exited, wait_switch-sleeps,
}

-- The life of the child of pid `pid` that stands at entry `i` of `s₁`.
abbrev pub LivesAt : ℕ → ℕ → ℕ → ℕ → ProcState → ProcState → ℕ → Type 0
LivesAt parent code status pid s s₁ i =
    (sys_waitpid parent (pos pid) status 0 s₁ ≡ blocked)
    × (sys_waitpid parent (pos pid) status 0 (sys__exit i code s₁)
        ≡ returns (reaped pid (mkwait_exit code), put (sys__exit i code s₁) i none))
    × ((j : ℕ) → entry (put (sys__exit i code s₁) i none).process_table j ≡ entry s.process_table j)

module _ (env : ForkEnv) (parent code status : ℕ) (s s₁ : ProcState) (i pid : ℕ) (v : IsValid s)
    (hi : i < proc_max) (adds : Adds i (child pid parent env.new_thread) s s₁)
    (small : pid < pid_max) (good : GoodStatus parent status) where
  abbrev born : Process
  born = child pid parent env.new_thread

  abbrev dead : Process
  dead = record born { exitcode = code; exited = true; exitsem = 1 }

  born_at : entry s₁.process_table i ≡ some born
  born_at = ground (arith, adds.entries i)

  inside : i < length s₁.process_table
  inside = omega (arith, adds.same_size, v.sized)

  exit_state :
      sys__exit i code s₁
      ≡ put (record s₁ { fork_sem = s₁.fork_sem + 1; execv_sem = 2 }) i (some dead)
  unfolding sys__exit
  exit_state = rw (born_at, sys__exit, update_entry) refl

  dead_entries :
      (j : ℕ)
      → entry (sys__exit i code s₁).process_table j
        ≡ (if i == j then some dead else entry s₁.process_table j)
  dead_entries j =
      ap (λ (t : ProcState). entry t.process_table j) exit_state
      ∙ entry-set s₁.process_table i j (some dead) inside

  dead_at : entry (sys__exit i code s₁).process_table i ≡ some dead
  dead_at = ground (arith, dead_entries i)

  dead_inside : i < length (sys__exit i code s₁).process_table
  dead_inside = entry-some_lt _ i dead_at

  pid_pos : 0 < pid
  pid_pos = omega (arith, adds.pid_new)

  exited-IsValid : IsValid (sys__exit i code s₁)
  exited-IsValid = Step-IsValid (exits i code) (Adds-IsValid adds v)

  lives : LivesAt parent code status pid s s₁ i
  lives = (
    sys_waitpid-wait_switch pid status 0 i born s₁ (Adds-IsValid adds v) (hi, born_at, refl) pid_pos
          small good
        ∙ wait_switch-sleeps pid i born s₁ refl refl,
    sys_waitpid-wait_switch pid status 0 i dead (sys__exit i code s₁) exited-IsValid
          (hi, dead_at, refl) pid_pos small good
        ∙ wait_switch-exited pid 0 i dead (sys__exit i code s₁) refl (omega arith),
    λ j. ground (
      arith,
      entry-set (sys__exit i code s₁).process_table i j none dead_inside,
      dead_entries j,
      adds.entries j,
      adds.was_free,
    ),
  )

-- A child that a fork has made with a pid below `__PID_MAX`: until it exits its parent sleeps in
-- `sys_waitpid`; after it has exited with a code the parent gets its pid and the encoded code, and
-- then every entry of the table is as it was before the fork.
pub thread_fork_exit_wait :
    (env : ForkEnv) (parent code status : ℕ) (s : ProcState) {pid : ℕ} {s₁ : ProcState}
    → IsValid s
    → thread_fork env parent s ≡ (forked pid, s₁)
    → pid < pid_max
    → GoodStatus parent status
    → (i : ℕ) × LivesAt parent code status pid s s₁ i
thread_fork_exit_wait env parent code status s {pid} {s₁} v e small good =
    life (subst (Forks env parent s) e (thread_fork-Forks env parent s v))
  where
    life : Forks env parent s (forked pid, s₁) → (i : ℕ) × LivesAt parent code status pid s s₁ i
    life (i, lo, hi, ne, adds, sem) =
        (i, lives env parent code status s s₁ i pid v hi adds small good)

-- Once the count has come to `__PID_MAX`, a fork that succeeds gives its child a pid for which every
-- call of `sys_waitpid` fails with ESRCH.
pub thread_fork_past_pid_max :
    (env : ForkEnv) (parent : ℕ) (s : ProcState) {pid : ℕ} {s₁ : ProcState}
    → IsValid s
    → pid_max ≤ s.pid_counter
    → thread_fork env parent s ≡ (forked pid, s₁)
    → (cur_pid status options : ℕ) (t : ProcState)
    → sys_waitpid cur_pid (pos pid) status options t ≡ returns (wait_failed esrch, t)
unfolding sys_waitpid
thread_fork_past_pid_max env parent s {pid} {s₁} v past e cur_pid status options t =
    rw (refused (subst (Forks env parent s) e (thread_fork-Forks env parent s v)), sys_waitpid) refl
  where
    refused :
        Forks env parent s (forked pid, s₁)
        → (lt_pos (pos pid) 1 || not (lt_pos (pos pid) pid_max)) ≡ true
    refused (i, lo, hi, ne, adds, sem) = let e = adds.pid_new in ground arith
