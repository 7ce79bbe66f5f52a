-- ===== src/Process/Signals.antt =====
-- The exit semaphores: `V(exitsem)` of `sys__exit` comes only behind `exited`.
use ms_projects.Common.{
  ℕ, ◌+◌, ◌-◌, ◌<◌, ◌≡◌, sym, ap, subst, ◌∙◌, Bool, true, Option, none, some, arith, ◌==◌,
  if◌then◌else◌, length, Option-cases, Bool-cases, inl, inr, ℕ_discrete, eq→==, ne→==,
}
use ms_projects.Common.Int.{ℤ}
use ms_projects.Process.{
  Process, ProcState, entry, put, update_entry, thread_bootstrap, ForkEnv, ForkResult, failed,
  forked, Outcome, blocked, returns, WaitResult, wait_failed, running, reaped, thread_fork,
  sys_fork, sys_waitpid, wait_woken, sys__exit,
}
use ms_projects.Process.Slots.{entry-set}
use ms_projects.Process.Table.{IsValid, Forks, thread_fork-Forks}
use ms_projects.Process.Wait.{WaitOutcome, Released, Signalled, sys_waitpid-WaitOutcome}
use ms_projects.Process.History.{
  Step, forks, spawns, waits, wakes, exits, Reach, start, later, entry-some_lt, entry-replicate,
  sems-IsValid, Reach-IsValid,
}

put-Signalled :
    (s : ProcState) (i : ℕ) (r : Option Process)
    → i < length s.process_table
    → ((p : Process) → r ≡ some p → 0 < p.exitsem → p.exited ≡ true)
    → Signalled s
    → Signalled (put s i r)
put-Signalled s i r inside new up = λ j p at h. elim (ℕ_discrete i j) [
  | yes same ↦
      new p
        (sym (
            entry-set s.process_table i j r inside
            ∙ ap (λ (b : Bool). if b then r else entry s.process_table j) (eq→== i j same))
          ∙ at)
        h
  | no other ↦
      up j p
        (sym (
            entry-set s.process_table i j r inside
            ∙ ap (λ (b : Bool). if b then r else entry s.process_table j) (ne→== i j other))
          ∙ at)
        h
]

thread_fork-Signalled :
    (env : ForkEnv) (parent : ℕ) (s : ProcState)
    → IsValid s
    → Signalled s
    → Signalled (thread_fork env parent s).1
thread_fork-Signalled env parent s v up =
    finish (thread_fork env parent s) (thread_fork-Forks env parent s v)
  where
    finish : (r : ForkResult × ProcState) → Forks env parent s r → Signalled r.1
    finish (failed e, t) f = λ j p at h. up j p (sym (f.0.entries j) ∙ at) h
    finish (forked pid, t) (i, lo, hi, ne, adds, sem) = λ j p at h. elim (ℕ_discrete i j) [
      | yes same ↦ ground (arith, adds.entries j, at, h, same)
      | no other ↦ up j p (ground (arith, adds.entries j, at, other)) h
    ]

-- What holds of the table that a call leaves, if it returns.
abbrev LeavesSignalled : {A : Type 0} → Outcome (A × ProcState) → Type 0
LeavesSignalled blocked = Unit {0}
LeavesSignalled (returns (r, t)) = Signalled t

sys_fork-LeavesSignalled :
    (tf_allocated : Bool) (env : ForkEnv) (parent : ℕ) (s : ProcState)
    → IsValid s
    → Signalled s
    → LeavesSignalled (sys_fork tf_allocated env parent s)
unfolding sys_fork
sys_fork-LeavesSignalled tf_allocated env parent s v up = elim (Bool-cases (s.fork_sem == 0)) [
  | inl z ↦ rw (z, sys_fork) tt
  | inr nz ↦ elim (Bool-cases tf_allocated) [
    | inr a ↦ rw (nz, sys_fork, a) up
    | inl a ↦
        rw (nz, sys_fork, a)
          (finish (thread_fork env parent entered) (
            thread_fork-Signalled env parent entered (sems-IsValid s (s.fork_sem - 1) s.execv_sem v)
              up))
  ]
]
  where
    entered : ProcState
    entered = record s { fork_sem = s.fork_sem - 1 }

    finish :
        (r : ForkResult × ProcState)
        → Signalled r.1
        → LeavesSignalled {A = ForkResult} (elim r.0 [
          | failed e ↦ returns (failed e, record (r.1) { fork_sem = r.1.fork_sem + 1 })
          | forked pid ↦ returns (forked pid, r.1)
        ])
    finish (failed e, t) w = w
    finish (forked pid, t) w = w

sys_waitpid-LeavesSignalled :
    (cur_pid : ℕ) (pid : ℤ) (status options : ℕ) (s : ProcState)
    → IsValid s
    → Signalled s
    → LeavesSignalled (sys_waitpid cur_pid pid status options s)
sys_waitpid-LeavesSignalled cur_pid pid status options s v up =
    finish (sys_waitpid cur_pid pid status options s)
      (sys_waitpid-WaitOutcome cur_pid pid status options s)
  where
    finish :
        (r : Outcome (WaitResult × ProcState))
        → WaitOutcome Released cur_pid pid status options s r
        → LeavesSignalled r
    finish blocked w = tt
    finish (returns (wait_failed e, t)) w = subst Signalled (sym w) up
    finish (returns (running, t)) w = subst Signalled (sym w.0) up
    finish (returns (reaped q st, t)) (i, p, at, _, _, _, _, _, e) =
        subst Signalled (sym e)
          (put-Signalled s i none (omega (arith, at.0, v.sized)) (λ q h. cc) up)

wait_woken-Signalled :
    (pid i : ℕ) (s : ProcState) {r : WaitResult} {t : ProcState}
    → wait_woken pid i s ≡ some (r, t)
    → Signalled s
    → Signalled t
unfolding wait_woken
wait_woken-Signalled pid i s {r} {t} e up = elim (Option-cases (entry s.process_table i)) [
  | inl none_here ↦ ground arith
  | inr (p, here) ↦
      let cleared : t ≡ put s i none = ground arith in
      subst Signalled (sym cleared)
        (put-Signalled s i none (entry-some_lt s.process_table i here) (λ q h. cc) up)
]

sys__exit-Signalled : (i code : ℕ) (s : ProcState) → Signalled s → Signalled (sys__exit i code s)
unfolding sys__exit
sys__exit-Signalled i code s up = elim (Option-cases (entry s.process_table i)) [
  | inl e ↦ rw (e, update_entry) up
  | inr (p, e) ↦
      rw (e, update_entry)
        (put-Signalled (record s { fork_sem = s.fork_sem + 1; execv_sem = 2 }) i
          (some (record p { exitcode = code; exited = true; exitsem = p.exitsem + 1 }))
          (entry-some_lt s.process_table i e) (λ q h more. sym (ap exit_of h)) up)
]
  where
    exit_of : Option Process → Bool
    exit_of none = true
    exit_of (some p) = p.exited

Step-Signalled : {s t : ProcState} → Step s t → IsValid s → Signalled s → Signalled t
Step-Signalled {s} (forks tf env parent e) v up =
    subst LeavesSignalled e (sys_fork-LeavesSignalled tf env parent s v up)
Step-Signalled {s} (spawns env parent e) v up =
    rw (← ap (λ (r : ForkResult × ProcState). r.1) e) (thread_fork-Signalled env parent s v up)
Step-Signalled {s} (waits cur_pid pid status options e) v up =
    subst LeavesSignalled e (sys_waitpid-LeavesSignalled cur_pid pid status options s v up)
Step-Signalled {s} (wakes pid i e) v up = wait_woken-Signalled pid i s e up
Step-Signalled {s} (exits i code) v up = sys__exit-Signalled i code s up

-- The semaphores are up only of processes whose exit is marked.
pub Reach-Signalled : {s : ProcState} → Reach s → Signalled s
unfolding thread_bootstrap
Reach-Signalled start = λ i p at h. cc (entry-replicate 100 i, at)
Reach-Signalled (later r st small) = Step-Signalled st (Reach-IsValid r) (Reach-Signalled r)
