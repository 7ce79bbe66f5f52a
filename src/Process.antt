-- ===== src/Process.antt =====
-- The process table: kern/syscall/process_syscalls.c with its header, and what `thread_bootstrap` and
-- `thread_fork` of kern/thread/thread.c do to the table. The source holds no lock over the table and the
-- count of pids: a call here is one that runs to its end before another touches them (Races is about
-- two that do not). The count is a number that does not overflow; `Reach` of History keeps it in an int.
pub mod Slots
pub mod Table
pub mod Wait
pub mod History
pub mod Signals
pub mod Races
pub mod Life
mod Tests
use ms_projects.Common.{
  ℕ, zero, suc, ◌+◌, ◌-◌, ◌*◌, ◌%◌, ◌^◌, Bool, true, false, not, ◌||◌, ◌&&◌, Option, none, some,
  List, leb, ◌==◌, if◌then◌else◌, get_elem?, set, replicate,
}
use ms_projects.Common.Int.{ℤ, lt_pos, to_nat}
use ms_projects.Common.Errno.{Errno, enomem, efault, einval, emproc, enproc, esrch, echild}

abbrev pub proc_max : ℕ
proc_max = 100

abbrev pub pid_max : ℕ
pid_max = 32767

-- `struct process`; `exitsem` is the count of its semaphore, `self` names the thread, and `exitcode`
-- is the 32-bit pattern of an `int`.
pub record Process : Type 0 where
  pub pid : ℕ
  pub ppid : ℕ
  pub exitsem : ℕ
  pub exited : Bool
  pub exitcode : ℕ
  pub self : ℕ

-- The globals of process_syscalls.h; the semaphores are their counts.
pub record ProcState : Type 0 where
  pub process_table : List (Option Process)
  pub pid_counter : ℕ
  pub fork_sem : ℕ
  pub execv_sem : ℕ

-- Entry `i`: `none` for NULL, and past the end.
abbrev pub entry : List (Option Process) → ℕ → Option Process
entry t i = elim (get_elem? t i) [ none ↦ none | some p ↦ p ]

-- The end of `thread_bootstrap`.
unfoldable pub thread_bootstrap : ProcState
thread_bootstrap = record {
  process_table = replicate proc_max none;
  pid_counter = 0;
  fork_sem = 8;
  execv_sem = 2;
}

-- The loop of `pid_alloc`, `n` rounds before its end: the `i` that it stops at.
unfoldable pub free_index : ℕ → ℕ → List (Option Process) → ℕ
free_index zero i t = i
free_index (suc n) i t = elim (entry t i) [ none ↦ i | some p ↦ free_index n (i + 1) t ]

-- What `pid_alloc` returns: an index, -1 or -2.
pub data PidResult : Type 0 where
  index : ℕ → PidResult
  table_full : PidResult
  pids_used : PidResult

unfoldable pub pid_alloc : ProcState → PidResult × ProcState
pid_alloc s =
    let i = free_index (proc_max - 1) 1 s.process_table in
    if i == proc_max
    then (table_full, s)
    else let s' = record s { pid_counter = s.pid_counter + 1 } in
      if s'.pid_counter == pid_max then (pids_used, s') else (index i, s')

-- The allocations that a call makes succeed or not.
pub record ForkEnv : Type 0 where
  pub thread_created : Bool
  pub stack_allocated : Bool
  pub process_allocated : Bool
  pub exitsem_created : Bool
  -- What `as_copy`, or `init_filetable` for a kernel thread, returns.
  pub copied : Option Errno
  pub new_thread : ℕ

abbrev pub put : ProcState → ℕ → Option Process → ProcState
put s i p = record s { process_table = set s.process_table i p }

-- `pid` and `self` are what `kmalloc` left there.
unfoldable pub init_process : Bool → Bool → ℕ → ℕ → ℕ → ProcState → Option Errno × ProcState
init_process process_allocated exitsem_created pid self ptable_index s =
    if not process_allocated
    then (some enomem, s)
    else if not exitsem_created
    then (some enomem, s)
    else (
      none,
      put s ptable_index (
          some (record {
            pid = pid;
            ppid = 0;
            exitsem = 0;
            exited = false;
            exitcode = 0;
            self = self;
          })),
    )

unfoldable pub destroy_process : ℕ → ProcState → ProcState
destroy_process ptable_index s = put s ptable_index none

-- The fields that `thread_fork` fills in.
abbrev pub adopt : ℕ → ℕ → ℕ → Process → Process
adopt pid ppid thread p = record p { pid = pid; ppid = ppid; self = thread }

abbrev pub update_entry : ℕ → (Process → Process) → ProcState → ProcState
update_entry i f s = elim (entry s.process_table i) [ none ↦ s | some p ↦ put s i (some (f p)) ]

-- What a fork returns: an error, or the pid of the new thread.
pub data ForkResult : Type 0 where
  failed : Errno → ForkResult
  forked : ℕ → ForkResult

-- The second half of `thread_fork`, on the entry `i`.
unfoldable pub fork_process : ForkEnv → ℕ → ℕ → ProcState → ForkResult × ProcState
unfolding init_process destroy_process
fork_process env parent i s =
    let (result, s') = init_process env.process_allocated env.exitsem_created 0 0 i s in
    elim result [
      | some e ↦ (failed e, s')
      | none ↦
          let s'' = update_entry i (adopt s.pid_counter parent env.new_thread) s' in
          elim env.copied [
            | some e ↦ (failed e, destroy_process i s'')
            | none ↦ (forked s.pid_counter, s'')
          ]
    ]

-- `thread_fork`, called by the thread of pid `parent`.
unfoldable pub thread_fork : ForkEnv → ℕ → ProcState → ForkResult × ProcState
thread_fork env parent s =
    if not env.thread_created
    then (failed enomem, s)
    else if not env.stack_allocated
    then (failed enomem, s)
    else let (result, s') = pid_alloc s in
      elim result [
        | table_full ↦ (failed enproc, s')
        | pids_used ↦ (failed emproc, s')
        | index i ↦ fork_process env parent i s'
      ]

-- A call that sleeps on a semaphore whose count is 0 is `blocked`.
pub data Outcome {ℓ} (A : Type ℓ) : Type ℓ where
  blocked : Outcome A
  returns : A → Outcome A

-- `sys_fork`; `tf_allocated` is the allocation of the child's trap frame.
unfoldable pub sys_fork : Bool → ForkEnv → ℕ → ProcState → Outcome (ForkResult × ProcState)
unfolding thread_fork
sys_fork tf_allocated env parent s =
    if s.fork_sem == 0
    then blocked
    else let entered = record s { fork_sem = s.fork_sem - 1 } in
      if not tf_allocated
      then returns (failed enomem, record entered { fork_sem = entered.fork_sem + 1 })
      else let (result, s') = thread_fork env parent entered in
        elim result [
          | failed e ↦ returns (failed e, record s' { fork_sem = s'.fork_sem + 1 })
          | forked pid ↦ returns (forked pid, s')
        ]

-- `sys_getpid`
abbrev pub sys_getpid : ℕ → ℕ
sys_getpid cur_pid = cur_pid

-- `getptable_index`, `n` entries before its end.
unfoldable pub find_pid : ℕ → ℕ → ℕ → List (Option Process) → Option ℕ
find_pid zero i pid t = none
find_pid (suc n) i pid t =
    let more = find_pid n (i + 1) pid t in
    elim (entry t i) [ none ↦ more | some p ↦ if p.pid == pid then some i else more ]

unfoldable pub getptable_index : ℕ → ProcState → Option ℕ
getptable_index pid s = find_pid proc_max 0 pid s.process_table

-- `_MKWAIT_EXIT` and `WEXITSTATUS` of kern/include/kern/wait.h, on 32-bit patterns.
abbrev pub mkwait_exit : ℕ → ℕ
mkwait_exit x = x * 4 % 2 ^ 32

-- What `sys_waitpid` gives back: an error, 0 with nothing stored, or a pid and a status.
pub data WaitResult : Type 0 where
  wait_failed : Errno → WaitResult
  running : WaitResult
  reaped : ℕ → ℕ → WaitResult

abbrev pub userspacetop : ℕ
userspacetop = 0x80000000

-- The end of `sys_waitpid`: the status is stored and the entry goes.
abbrev pub reap : ℕ → ℕ → Process → ProcState → WaitResult × ProcState
reap pid i p s = (reaped pid (mkwait_exit p.exitcode), destroy_process i s)

-- The `switch` of `sys_waitpid`, on the entry `i` of the process `p`.
unfoldable pub wait_switch : ℕ → ℕ → ℕ → Process → ProcState → Outcome (WaitResult × ProcState)
unfolding destroy_process
wait_switch pid options i p s =
    if options == 1
    then (if not p.exited then returns (running, s) else returns (reap pid i p s))
    else if options == 0
    then (if p.exited
        then returns (reap pid i p s)
        else if p.exitsem == 0
        then blocked
        else returns (reap pid i p s))
    else returns (wait_failed einval, s)

-- `sys_waitpid` from the checks of the status address on.
unfoldable pub wait_child :
    ℕ → ℕ → ℕ → ℕ → ℕ → Process → ProcState → Outcome (WaitResult × ProcState)
unfolding wait_switch
wait_child cur_pid pid status options i p s =
    if status == 0 || leb status 0x40000000 || not (status % 4 == 0)
    then returns (wait_failed efault, s)
    else if not (cur_pid == 0) && leb userspacetop status
    then returns (wait_failed efault, s)
    else if not (p.ppid == cur_pid)
    then returns (wait_failed echild, s)
    else wait_switch pid options i p s

-- `sys_waitpid`, called by the thread of pid `cur_pid`. `status` is the address, `options` the flags.
-- Where it is `blocked` it sleeps in `P(exitsem)`; `wait_woken` is what follows.
unfoldable pub sys_waitpid : ℕ → ℤ → ℕ → ℕ → ProcState → Outcome (WaitResult × ProcState)
sys_waitpid cur_pid pid status options s =
    if lt_pos pid 1 || not (lt_pos pid pid_max)
    then returns (wait_failed esrch, s)
    else elim (getptable_index (to_nat pid) s) [
      | none ↦ returns (wait_failed esrch, s)
      | some i ↦ elim (entry s.process_table i) [
        | none ↦ returns (wait_failed esrch, s)
        | some p ↦ wait_child cur_pid (to_nat pid) status options i p s
      ]
    ]

-- `sys_waitpid` after its `P(exitsem)` has been let through: it does not test `exited` again.
unfoldable pub wait_woken : ℕ → ℕ → ProcState → Option (WaitResult × ProcState)
unfolding destroy_process
wait_woken pid i s = elim (entry s.process_table i) [
  | none ↦ none
  | some p ↦ if p.exitsem == 0 then none else some (reap pid i p s)
]

-- `sys__exit` up to `thread_exit`, by the thread whose entry is `i`.
unfoldable pub sys__exit : ℕ → ℕ → ProcState → ProcState
sys__exit i exitcode s =
    let released = record s { fork_sem = s.fork_sem + 1; execv_sem = 2 } in
    update_entry i (λ p. record p { exitcode = exitcode; exited = true; exitsem = p.exitsem + 1 })
      released
