-- ===== src/Process/Wait.antt =====
-- `sys_waitpid`, `sys__exit` and the life of a child process.
use ms_projects.Common.{
  ℕ, zero, suc, ◌+◌, ◌%◌, ◌≤◌, ◌<◌, ◌≡◌, refl, sym, ap, ◌∙◌, ◌≢◌, ◌⊎◌, inl, inr, true, false, not,
  ◌&&◌, ◌||◌, Option, none, some, List, arith, leb, ◌==◌, Option-cases, Bool-cases, ℕ_discrete,
  eq→==, ne→==,
}
use ms_projects.Common.Int.{ℤ, pos, lt_pos, to_nat}
use ms_projects.Common.Errno.{esrch}
use ms_projects.Process.{
  Process, ProcState, proc_max, pid_max, entry, put, find_pid, getptable_index, Outcome, blocked,
  returns, WaitResult, wait_failed, running, reaped, mkwait_exit, userspacetop, wait_switch,
  wait_child, sys_waitpid,
}
use ms_projects.Process.Table.{IsValid}

-- The process of pid `pid` stands at entry `i`.
abbrev pub At : ProcState → ℕ → ℕ → Process → Type 0
At s pid i p = (i < proc_max) × (entry s.process_table i ≡ some p) × (p.pid ≡ pid)

-- What the search for a pid answers.
abbrev pub FindSpec : ℕ → ProcState → Option ℕ → Type 0
FindSpec pid s none =
    (j : ℕ) (p : Process) → j < proc_max → entry s.process_table j ≡ some p → p.pid ≢ pid
FindSpec pid s (some i) = (p : Process) × At s pid i p

abbrev FoundFrom : ℕ → List (Option Process) → ℕ → ℕ → Option ℕ → Type 0
FoundFrom pid t i n none =
    (j : ℕ) (p : Process) → i ≤ j → j < i + n → entry t j ≡ some p → p.pid ≢ pid
FoundFrom pid t i n (some k) = (p : Process) × (k < i + n) × (entry t k ≡ some p) × (p.pid ≡ pid)

module _ (pid : ℕ) (t : List (Option Process)) where
  -- What was found behind entry `i` was found from it on.
  found_later :
      (i n : ℕ) (r : Option ℕ)
      → ((p : Process) → entry t i ≡ some p → p.pid ≢ pid)
      → FoundFrom pid t (i + 1) n r
      → FoundFrom pid t i (suc n) r
  found_later i n none here f = λ j p lo hi e. elim (ℕ_discrete i j) [
    | yes same ↦ here p (rw same e)
    | no other ↦ f j p (omega arith) (omega arith) e
  ]
  found_later i n (some k) here (p, lt, e, q) = (p, omega arith, e, q)

  find_pid-FoundFrom : (n i : ℕ) → FoundFrom pid t i n (find_pid n i pid t)
  unfolding find_pid
  find_pid-FoundFrom zero i = λ j p lo hi e. absurd (omega arith)
  find_pid-FoundFrom (suc n) i = elim (Option-cases (entry t i)) [
    | inl e ↦
        rw (e, find_pid)
          (found_later i n (find_pid n (i + 1) pid t) (λ p h. cc) (find_pid-FoundFrom n (i + 1)))
    | inr (p, e) ↦ elim (ℕ_discrete p.pid pid) [
      | yes hit ↦ rw (e, find_pid, eq→== _ _ hit) (p, omega arith, e, hit)
      | no miss ↦
          rw (e, find_pid, ne→== _ _ miss)
            (found_later i n (find_pid n (i + 1) pid t) (λ q h. ground arith)
              (find_pid-FoundFrom n (i + 1)))
    ]
  ]

pub getptable_index-FindSpec : (pid : ℕ) (s : ProcState) → FindSpec pid s (getptable_index pid s)
unfolding getptable_index
getptable_index-FindSpec pid s =
    finish (find_pid proc_max 0 pid s.process_table)
      (find_pid-FoundFrom pid s.process_table proc_max 0)
  where
    finish : (r : Option ℕ) → FoundFrom pid s.process_table 0 proc_max r → FindSpec pid s r
    finish none f = λ j p hi e. f j p (omega arith) (omega arith) e
    finish (some k) (p, lt, e, q) = (p, (omega arith, e, q))

-- Pids are distinct, so the search finds the entry that is meant.
pub getptable_index-At :
    (pid : ℕ) (s : ProcState) (i : ℕ) (p : Process)
    → IsValid s
    → At s pid i p
    → getptable_index pid s ≡ some i
getptable_index-At pid s i p v at = finish (getptable_index pid s) (getptable_index-FindSpec pid s)
  where
    finish : (r : Option ℕ) → FindSpec pid s r → r ≡ some i
    finish none f = absurd (f i p at.0 at.1 at.2)
    finish (some k) (q, (lt, e, h)) = ap some (v.unique k i q p e at.1 (h ∙ sym at.2))

-- The address that `sys_waitpid` accepts for the status, from a user process or from the kernel.
abbrev pub GoodStatus : ℕ → ℕ → Type 0
GoodStatus cur_pid status =
    (0x40000000 < status) × (status % 4 ≡ 0) × (cur_pid ≢ 0 → status < userspacetop)

-- What `sys_waitpid` may do; `Gone` is what is said of the process of which it gives the status.
abbrev pub WaitOutcome :
    (Process → Type 0) → ℕ → ℤ → ℕ → ℕ → ProcState → Outcome (WaitResult × ProcState) → Type 0
WaitOutcome Gone cur_pid pid status options s blocked =
    (i : ℕ) × (p : Process) × At s (to_nat pid) i p
    × (p.ppid ≡ cur_pid)
    × (p.exited ≡ false)
    × (p.exitsem ≡ 0)
    × (options ≡ 0)
WaitOutcome Gone cur_pid pid status options s (returns (wait_failed e, s')) = s' ≡ s
WaitOutcome Gone cur_pid pid status options s (returns (running, s')) =
    (s' ≡ s)
    × ((i : ℕ) × (p : Process) × At s (to_nat pid) i p
        × (p.ppid ≡ cur_pid)
        × (p.exited ≡ false)
        × (options ≡ 1))
WaitOutcome Gone cur_pid pid status options s (returns (reaped q st, s')) =
    (i : ℕ) × (p : Process) × At s (to_nat pid) i p
    × (p.ppid ≡ cur_pid)
    × (q ≡ to_nat pid)
    × (st ≡ mkwait_exit p.exitcode)
    × Gone p
    × GoodStatus cur_pid status
    × (s' ≡ put s i none)

-- Its exit is marked, or its semaphore lets the caller through.
abbrev pub Released : Process → Type 0
Released p = (p.exited ≡ true) ⊎ (0 < p.exitsem)

-- Its exit is marked.
abbrev pub Exited : Process → Type 0
Exited p = p.exited ≡ true

abbrev pub WaitSpec : ℕ → ℤ → ℕ → ℕ → ProcState → Outcome (WaitResult × ProcState) → Type 0
WaitSpec = WaitOutcome Exited

-- Only of processes whose exit is marked is the semaphore up.
abbrev pub Signalled : ProcState → Type 0
Signalled s =
    (i : ℕ) (p : Process) → entry s.process_table i ≡ some p → 0 < p.exitsem → p.exited ≡ true

wait_switch-WaitOutcome :
    (cur_pid : ℕ) (pid : ℤ) (status options i : ℕ) (p : Process) (s : ProcState)
    → At s (to_nat pid) i p
    → GoodStatus cur_pid status
    → p.ppid ≡ cur_pid
    → WaitOutcome Released cur_pid pid status options s (wait_switch (to_nat pid) options i p s)
unfolding wait_switch
wait_switch-WaitOutcome cur_pid pid status options i p s at good owned =
    elim (ℕ_discrete options 1) [
      | yes nohang ↦ elim (Bool-cases p.exited) [
        | inl e ↦
            rw (eq→== _ _ nohang, wait_switch, e) (i, p, at, owned, refl, refl, inl e, good, refl)
        | inr e ↦ rw (eq→== _ _ nohang, wait_switch, e) (refl, (i, p, at, owned, e, nohang))
      ]
      | no hang ↦ elim (ℕ_discrete options 0) [
        | yes sleep ↦ elim (Bool-cases p.exited) [
          | inl e ↦
              rw (ne→== _ _ hang, eq→== _ _ sleep, wait_switch, e)
                (i, p, at, owned, refl, refl, inl e, good, refl)
          | inr e ↦ elim (ℕ_discrete p.exitsem 0) [
            | yes z ↦
                rw (ne→== _ _ hang, eq→== _ _ sleep, wait_switch, e, eq→== _ _ z)
                  (i, p, at, owned, e, z, sleep)
            | no nz ↦
                rw (ne→== _ _ hang, eq→== _ _ sleep, wait_switch, e, ne→== _ _ nz)
                  (i, p, at, owned, refl, refl, inr (omega arith), good, refl)
          ]
        ]
        | no other ↦ rw (ne→== _ _ hang, ne→== _ _ other, wait_switch) refl
      ]
    ]

wait_child-WaitOutcome :
    (cur_pid : ℕ) (pid : ℤ) (status options i : ℕ) (p : Process) (s : ProcState)
    → At s (to_nat pid) i p
    → WaitOutcome Released cur_pid pid status options s
        (wait_child cur_pid (to_nat pid) status options i p s)
unfolding wait_child
wait_child-WaitOutcome cur_pid pid status options i p s at =
    elim (Bool-cases (status == 0 || leb status 0x40000000 || not (status % 4 == 0))) [
      | inl bad ↦ rw (bad, wait_child) refl
      | inr e ↦ elim (Bool-cases (not (cur_pid == 0) && leb userspacetop status)) [
        | inl bad ↦ rw (e, wait_child, bad) refl
        | inr e' ↦ elim (Bool-cases (not (p.ppid == cur_pid))) [
          | inl bad ↦ rw (e, wait_child, e', bad) refl
          | inr e'' ↦
              rw (e, wait_child, e', e'')
                (wait_switch-WaitOutcome cur_pid pid status options i p s at (ground arith)
                  (ground arith))
        ]
      ]
    ]

pub sys_waitpid-WaitOutcome :
    (cur_pid : ℕ) (pid : ℤ) (status options : ℕ) (s : ProcState)
    → WaitOutcome Released cur_pid pid status options s (sys_waitpid cur_pid pid status options s)
unfolding sys_waitpid
sys_waitpid-WaitOutcome cur_pid pid status options s =
    elim (Bool-cases (lt_pos pid 1 || not (lt_pos pid pid_max))) [
      | inl bad ↦ rw (bad, sys_waitpid) refl
      | inr e ↦
          rw (e, sys_waitpid)
            (searched (getptable_index (to_nat pid) s) (getptable_index-FindSpec (to_nat pid) s))
    ]
  where
    searched :
        (r : Option ℕ)
        → FindSpec (to_nat pid) s r
        → WaitOutcome Released cur_pid pid status options s (elim r [
          | none ↦ returns (wait_failed esrch, s)
          | some i ↦ elim (entry s.process_table i) [
            | none ↦ returns (wait_failed esrch, s)
            | some p ↦ wait_child cur_pid (to_nat pid) status options i p s
          ]
        ])
    searched none f = refl
    searched (some i) (p, at) = rw at.1 (wait_child-WaitOutcome cur_pid pid status options i p s at)

-- Where the semaphores are up only of processes whose exit is marked, `sys_waitpid` gives a status only
-- of a child of the caller that has exited, the encoded exit code of that child, and then frees its
-- entry and no other; it says "still running" only under WNOHANG of such a child that has not exited;
-- it sleeps only without WNOHANG on such a child; and with an error it changes nothing.
pub sys_waitpid-WaitSpec :
    (cur_pid : ℕ) (pid : ℤ) (status options : ℕ) (s : ProcState)
    → Signalled s
    → WaitSpec cur_pid pid status options s (sys_waitpid cur_pid pid status options s)
sys_waitpid-WaitSpec cur_pid pid status options s up =
    marked (sys_waitpid cur_pid pid status options s)
      (sys_waitpid-WaitOutcome cur_pid pid status options s)
  where
    exit_marked :
        (i : ℕ) (p : Process) → entry s.process_table i ≡ some p → Released p → p.exited ≡ true
    exit_marked i p at (inl e) = e
    exit_marked i p at (inr h) = up i p at h

    marked :
        (r : Outcome (WaitResult × ProcState))
        → WaitOutcome Released cur_pid pid status options s r
        → WaitSpec cur_pid pid status options s r
    marked blocked w = w
    marked (returns (wait_failed e, t)) w = w
    marked (returns (running, t)) w = w
    marked (returns (reaped q st, t)) (i, p, at, owned, same, code, gone, good, e) =
        (i, p, at, owned, same, code, exit_marked i p at.1 gone, good, e)

-- With a valid address the parent of a process comes to the `switch`.
pub sys_waitpid-wait_switch :
    (pid status options i : ℕ) (p : Process) (s : ProcState)
    → IsValid s
    → At s pid i p
    → 0 < pid
    → pid < pid_max
    → GoodStatus p.ppid status
    → sys_waitpid p.ppid (pos pid) status options s ≡ wait_switch pid options i p s
unfolding sys_waitpid wait_child
sys_waitpid-wait_switch pid status options i p s v at lo hi good =
    rw (valid_pid, sys_waitpid, getptable_index-At pid s i p v at, at.1)
      (rw (valid_status, wait_child, user_status, own) refl)
  where
    valid_pid : (lt_pos (pos pid) 1 || not (lt_pos (pos pid) pid_max)) ≡ false
    valid_pid = ground arith

    valid_status : (status == 0 || leb status 0x40000000 || not (status % 4 == 0)) ≡ false
    valid_status = ground arith

    user_status : (not (p.ppid == 0) && leb userspacetop status) ≡ false
    user_status = ground arith

    own : not (p.ppid == p.ppid) ≡ false
    own = ground arith

pub wait_switch-exited :
    (pid options i : ℕ) (p : Process) (s : ProcState)
    → p.exited ≡ true
    → options < 2
    → wait_switch pid options i p s ≡ returns (reaped pid (mkwait_exit p.exitcode), put s i none)
unfolding wait_switch
wait_switch-exited pid options i p s ex opt = ground arith

pub wait_switch-sleeps :
    (pid i : ℕ) (p : Process) (s : ProcState)
    → p.exited ≡ false
    → p.exitsem ≡ 0
    → wait_switch pid 0 i p s ≡ blocked
unfolding wait_switch
wait_switch-sleeps pid i p s ex z = ground arith
