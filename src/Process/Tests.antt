-- ===== src/Process/Tests.antt =====
-- Runs of the process table, and the theorems at concrete inputs.
use ms_projects.Common.{ℕ, ◌≡◌, refl, true, none, some, ◌∷◌, arith, replicate}
use ms_projects.Common.Int.{pos}
use ms_projects.Common.Errno.{emproc}
use ms_projects.Process.{
  ProcState, index, put, thread_bootstrap, free_index, pid_alloc, ForkEnv, forked, failed,
  thread_fork, fork_process, find_pid, getptable_index, returns, reaped, wait_child, sys_waitpid,
  sys__exit,
}
use ms_projects.Process.Table.{IsValid, Forks, child, thread_fork-Forks}
use ms_projects.Process.History.{Reach, start, later, spawns, exits, Reach-IsValid}
use ms_projects.Process.Signals.{Reach-Signalled}
use ms_projects.Process.Wait.{WaitSpec, sys_waitpid-WaitSpec}
use ms_projects.Process.Races.{Collide, fork_process-Collide}
use ms_projects.Process.Life.{LivesAt, thread_fork_exit_wait}

abbrev env : ForkEnv
env = record {
  thread_created = true;
  stack_allocated = true;
  process_allocated = true;
  exitsem_created = true;
  copied = none;
  new_thread = 7;
}

-- The shell's table after the kernel has spawned it.
abbrev shell : ProcState
shell = record {
  process_table = none ∷ some (child 1 0 7) ∷ replicate 98 none;
  pid_counter = 1;
  fork_sem = 8;
  execv_sem = 2;
}

spawn_shell : thread_fork env 0 thread_bootstrap ≡ (forked 1, shell)
unfolding thread_bootstrap thread_fork pid_alloc free_index fork_process
spawn_shell = refl

shell-IsValid : IsValid shell
shell-IsValid = Reach-IsValid (later start (spawns env 0 spawn_shell) (omega arith))

abbrev with_child : ProcState
with_child = put (record shell { pid_counter = 2 }) 2 (some (child 2 1 7))

fork_child : thread_fork env 1 shell ≡ (forked 2, with_child)
unfolding thread_fork pid_alloc free_index fork_process
fork_child = refl

wait_for_child :
    sys_waitpid 1 (pos 2) 0x50000000 0 (sys__exit 2 42 with_child)
    ≡ returns (reaped 2 168, put (sys__exit 2 42 with_child) 2 none)
unfolding sys_waitpid wait_child sys__exit getptable_index find_pid
wait_for_child = refl

-- The fork that brings the count to `__PID_MAX` fails, and the next one succeeds.
abbrev worn : ProcState
worn = record shell { pid_counter = 32766 }

fork_refused : (thread_fork env 1 worn).0 ≡ failed emproc
unfolding thread_fork pid_alloc free_index fork_process
fork_refused = refl

abbrev worn_out : ProcState
worn_out = record shell { pid_counter = 32767 }

abbrev worn_child : ProcState
worn_child = put (record shell { pid_counter = 32768 }) 2 (some (child 32768 1 7))

fork_granted : thread_fork env 1 worn_out ≡ (forked 32768, worn_child)
unfolding thread_fork pid_alloc free_index fork_process
fork_granted = refl

thread_fork-Forks_example : Forks env 1 shell (thread_fork env 1 shell)
thread_fork-Forks_example = thread_fork-Forks env 1 shell shell-IsValid

-- The child has exited.
with_zombie-Reach : Reach (sys__exit 2 42 with_child)
unfolding sys__exit
with_zombie-Reach =
    later
      (later (later start (spawns env 0 spawn_shell) (omega arith)) (spawns env 1 fork_child)
        (omega arith))
      (exits 2 42) (omega arith)

sys_waitpid-WaitSpec_example :
    WaitSpec 1
      (pos 2)
      0x50000000
      0
      (sys__exit 2 42 with_child)
      (sys_waitpid 1 (pos 2) 0x50000000 0 (sys__exit 2 42 with_child))
sys_waitpid-WaitSpec_example =
    sys_waitpid-WaitSpec 1 (pos 2) 0x50000000 0 (sys__exit 2 42 with_child)
      (Reach-Signalled with_zombie-Reach)

thread_fork_exit_wait_example : (i : ℕ) × LivesAt 1 42 0x50000000 2 shell with_child i
thread_fork_exit_wait_example =
    thread_fork_exit_wait env 1 42 0x50000000 shell shell-IsValid fork_child (omega arith)
      (omega arith)

worn_out-IsValid : IsValid worn_out
worn_out-IsValid = record {
  sized = refl;
  unique = shell-IsValid.unique;
  issued = λ i p e. omega (arith, shell-IsValid.issued i p e);
}

shell_alloc : pid_alloc shell ≡ (index 2, record shell { pid_counter = 2 })
unfolding pid_alloc free_index
shell_alloc = refl

fork_process-Collide_example :
    (s₂ : ProcState) × (pid_alloc (record shell { pid_counter = 2 }) ≡ (index 2, s₂))
    × Collide shell 2 s₂.pid_counter 1 7
        (fork_process env 1 2 s₂).0
        (fork_process env 1 2 (fork_process env 1 2 s₂).1).0
        (fork_process env 1 2 (fork_process env 1 2 s₂).1).1
fork_process-Collide_example =
    fork_process-Collide env env 1 1 2 shell (record shell { pid_counter = 2 }) (refl, refl, refl)
      (refl, refl, refl) (omega arith) shell_alloc (λ e. omega (arith, e))
