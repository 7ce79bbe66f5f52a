-- ===== src/Process/History.antt =====
-- Every history of forks, spawns, waits and exits keeps the table valid.
use ms_projects.Common.{
  ℕ, zero, suc, ◌+◌, ◌-◌, ◌<◌, ◌≡◌, refl, sym, ap, subst, ◌∙◌, ◌≢◌, inl, inr, Bool, Option, none,
  some, List, [], ◌∷◌, arith, ◌==◌, if◌then◌else◌, length, set, replicate, length-set, Option-cases,
  Bool-cases, ℕ_discrete, eq→==, ne→==, ◌^◌,
}
use ms_projects.Common.Int.{ℤ}
use ms_projects.Process.{
  Process, ProcState, entry, put, update_entry, thread_bootstrap, ForkEnv, ForkResult, failed,
  forked, thread_fork, sys_fork, Outcome, blocked, returns, WaitResult, wait_failed, running,
  reaped, sys_waitpid, wait_woken, sys__exit,
}
use ms_projects.Process.Slots.{entry-set}
use ms_projects.Process.Table.{IsValid, Keeps-IsValid, Adds-IsValid, Forks, thread_fork-Forks}
use ms_projects.Process.Wait.{WaitOutcome, Released, sys_waitpid-WaitOutcome}

-- Writing an entry of a pid that stood there, or clearing it, keeps the table valid.
put-IsValid :
    (s : ProcState) (i : ℕ) (r : Option Process)
    → i < length s.process_table
    → ((p : Process)
        → r ≡ some p
        → (q : Process) × (entry s.process_table i ≡ some q) × (q.pid ≡ p.pid))
    → IsValid s
    → IsValid (put s i r)
put-IsValid s i r inside old v = record {
  sized = length-set s.process_table i r ∙ v.sized;
  unique = λ a b p q x y e. apart a b p q (origin a p x) (origin b q y) e;
  issued = λ a p x. let (q, at, e) = origin a p x in omega (arith, v.issued a q at, e);
}
  where
    origin :
        (a : ℕ) (p : Process)
        → entry (set s.process_table i r) a ≡ some p
        → (q : Process) × (entry s.process_table a ≡ some q) × (q.pid ≡ p.pid)
    origin a p x = elim (ℕ_discrete i a) [
      | yes same ↦
          let (q, at, e) = old p (
            sym (
              entry-set s.process_table i a r inside
              ∙ ap (λ (t : Bool). if t then r else entry s.process_table a) (eq→== i a same))
            ∙ x) in
          (q, ap (entry s.process_table) (sym same) ∙ at, e)
      | no other ↦ (
        p,
        sym (
              entry-set s.process_table i a r inside
              ∙ ap (λ (t : Bool). if t then r else entry s.process_table a) (ne→== i a other))
            ∙ x,
        refl,
      )
    ]

    apart :
        (a b : ℕ) (p q : Process)
        → (q' : Process) × (entry s.process_table a ≡ some q') × (q'.pid ≡ p.pid)
        → (q' : Process) × (entry s.process_table b ≡ some q') × (q'.pid ≡ q.pid)
        → p.pid ≡ q.pid
        → a ≡ b
    apart a b p q (p', at_a, e) (q', at_b, e') h = v.unique a b p' q' at_a at_b (e ∙ h ∙ sym e')

-- One call, which runs to its end with no other call in between; a sleeper is woken when its semaphore
-- lets it through.
pub data Step (s : ProcState) : ProcState → Type 0 where
  forks :
      (tf_allocated : Bool) (env : ForkEnv) (parent : ℕ) {r : ForkResult} {t : ProcState}
      → sys_fork tf_allocated env parent s ≡ returns (r, t)
      → Step s t
  spawns :
      (env : ForkEnv) (parent : ℕ) {r : ForkResult} {t : ProcState}
      → thread_fork env parent s ≡ (r, t)
      → Step s t
  waits :
      (cur_pid : ℕ) (pid : ℤ) (status options : ℕ) {r : WaitResult} {t : ProcState}
      → sys_waitpid cur_pid pid status options s ≡ returns (r, t)
      → Step s t
  wakes : (pid i : ℕ) {r : WaitResult} {t : ProcState} → wait_woken pid i s ≡ some (r, t) → Step s t
  exits : (i exitcode : ℕ) → Step s (sys__exit i exitcode s)

-- Such calls one after another, as long as the count of pids fits an int.
pub data Reach : ProcState → Type 0 where
  start : Reach thread_bootstrap
  later : {s t : ProcState} → Reach s → Step s t → t.pid_counter < 2 ^ 31 → Reach t

pub sems-IsValid :
    (s : ProcState) (f x : ℕ) → IsValid s → IsValid (record s { fork_sem = f; execv_sem = x })
sems-IsValid s f x v = record { sized = v.sized; unique = v.unique; issued = v.issued }

pub entry-some_lt :
    (t : List (Option Process)) (i : ℕ) {p : Process} → entry t i ≡ some p → i < length t
entry-some_lt [] i e = cc
entry-some_lt (x ∷ t) zero e = omega arith
entry-some_lt (x ∷ t) (suc i) e = omega (arith, entry-some_lt t i e)

pub entry-replicate : (n i : ℕ) → entry (replicate n none) i ≡ none
entry-replicate zero i = refl
entry-replicate (suc n) zero = refl
entry-replicate (suc n) (suc i) = entry-replicate n i

thread_bootstrap-IsValid : IsValid thread_bootstrap
unfolding thread_bootstrap
thread_bootstrap-IsValid = record {
  sized = refl;
  unique = λ i j p q a b e. absurd (empty i p a);
  issued = λ i p a. absurd (empty i p a);
}
  where
    empty : (i : ℕ) (p : Process) → entry (replicate 100 none) i ≢ some p
    empty i p a = cc (entry-replicate 100 i)

thread_fork-IsValid :
    (env : ForkEnv) (parent : ℕ) (s : ProcState) → IsValid s → IsValid (thread_fork env parent s).1
thread_fork-IsValid env parent s v =
    finish (thread_fork env parent s) (thread_fork-Forks env parent s v)
  where
    finish : (r : ForkResult × ProcState) → Forks env parent s r → IsValid r.1
    finish (failed e, t) f = Keeps-IsValid f.0 v
    finish (forked pid, t) (i, lo, hi, ne, adds, sem) = Adds-IsValid adds v

-- The state that a call leaves, if it returns, is valid.
abbrev LeavesValid : {A : Type 0} → Outcome (A × ProcState) → Type 0
LeavesValid blocked = Unit {0}
LeavesValid (returns (r, t)) = IsValid t

sys_fork-LeavesValid :
    (tf_allocated : Bool) (env : ForkEnv) (parent : ℕ) (s : ProcState)
    → IsValid s
    → LeavesValid (sys_fork tf_allocated env parent s)
unfolding sys_fork
sys_fork-LeavesValid tf_allocated env parent s v = elim (Bool-cases (s.fork_sem == 0)) [
  | inl z ↦ rw (z, sys_fork) tt
  | inr nz ↦ elim (Bool-cases tf_allocated) [
    | inr a ↦ rw (nz, sys_fork, a) (sems-IsValid s (s.fork_sem - 1 + 1) s.execv_sem v)
    | inl a ↦
        rw (nz, sys_fork, a)
          (finish (thread_fork env parent entered)
            (thread_fork-IsValid env parent entered entered_valid))
  ]
]
  where
    entered : ProcState
    entered = record s { fork_sem = s.fork_sem - 1 }

    entered_valid : IsValid entered
    entered_valid = sems-IsValid s (s.fork_sem - 1) s.execv_sem v

    finish :
        (r : ForkResult × ProcState)
        → IsValid r.1
        → LeavesValid {A = ForkResult} (elim r.0 [
          | failed e ↦ returns (failed e, record (r.1) { fork_sem = r.1.fork_sem + 1 })
          | forked pid ↦ returns (forked pid, r.1)
        ])
    finish (failed e, t) w = sems-IsValid t (t.fork_sem + 1) t.execv_sem w
    finish (forked pid, t) w = w

update_entry-IsValid :
    (i : ℕ) (f : Process → Process) (s : ProcState)
    → ((p : Process) → (f p).pid ≡ p.pid)
    → IsValid s
    → IsValid (update_entry i f s)
update_entry-IsValid i f s same v = elim (Option-cases (entry s.process_table i)) [
  | inl e ↦ rw (e, update_entry) v
  | inr (p, e) ↦
      rw (e, update_entry)
        (put-IsValid s i (some (f p)) (entry-some_lt s.process_table i e)
          (λ q h. (p, e, sym (same p) ∙ ap pid_of h)) v)
]
  where
    pid_of : Option Process → ℕ
    pid_of none = 0
    pid_of (some p) = p.pid

sys_waitpid-LeavesValid :
    (cur_pid : ℕ) (pid : ℤ) (status options : ℕ) (s : ProcState)
    → IsValid s
    → LeavesValid (sys_waitpid cur_pid pid status options s)
sys_waitpid-LeavesValid cur_pid pid status options s v =
    finish (sys_waitpid cur_pid pid status options s)
      (sys_waitpid-WaitOutcome cur_pid pid status options s)
  where
    finish :
        (r : Outcome (WaitResult × ProcState))
        → WaitOutcome Released cur_pid pid status options s r
        → LeavesValid r
    finish blocked w = tt
    finish (returns (wait_failed e, t)) w = subst IsValid (sym w) v
    finish (returns (running, t)) w = subst IsValid (sym w.0) v
    finish (returns (reaped q st, t)) (i, p, at, _, _, _, _, _, e) =
        subst IsValid (sym e) (put-IsValid s i none (omega (arith, at.0, v.sized)) (λ q h. cc) v)

wait_woken-IsValid :
    (pid i : ℕ) (s : ProcState) {r : WaitResult} {t : ProcState}
    → wait_woken pid i s ≡ some (r, t)
    → IsValid s
    → IsValid t
unfolding wait_woken
wait_woken-IsValid pid i s {r} {t} e v = elim (Option-cases (entry s.process_table i)) [
  | inl none_here ↦ ground arith
  | inr (p, here) ↦
      let cleared : t ≡ put s i none = ground arith in
      subst IsValid (sym cleared)
        (put-IsValid s i none (entry-some_lt s.process_table i here) (λ q h. cc) v)
]

pub Step-IsValid : {s t : ProcState} → Step s t → IsValid s → IsValid t
unfolding sys__exit
Step-IsValid {s} (forks tf env parent e) v =
    subst LeavesValid e (sys_fork-LeavesValid tf env parent s v)
Step-IsValid {s} (spawns env parent e) v =
    rw (← ap (λ (r : ForkResult × ProcState). r.1) e) (thread_fork-IsValid env parent s v)
Step-IsValid {s} (waits cur_pid pid status options e) v =
    subst LeavesValid e (sys_waitpid-LeavesValid cur_pid pid status options s v)
Step-IsValid {s} (wakes pid i e) v = wait_woken-IsValid pid i s e v
Step-IsValid {s} (exits i code) v =
    update_entry-IsValid i _ _ (λ p. refl) (sems-IsValid s (s.fork_sem + 1) 2 v)

-- In every history, from `thread_bootstrap` on, of forks, spawns, waits and exits that each run to their
-- end before the next begins, and as long as the count of pids is below 2^31, the table keeps its size
-- and no two processes in it have the same pid, and no pid is above the count.
pub Reach-IsValid : {s : ProcState} → Reach s → IsValid s
Reach-IsValid start = thread_bootstrap-IsValid
Reach-IsValid (later r st small) = Step-IsValid st (Reach-IsValid r)
