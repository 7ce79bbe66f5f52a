-- ===== src/Scheduler/Tests.antt =====
-- A history of two processors, and the theorems at it.
use ms_projects.Common.{◌≡◌, ◌≢◌, refl, true, some, arith, if◌then◌else◌, ltb}
use ms_projects.Scheduler.{
  ThreadState, s_run, s_sleep, System, cpus_created, fork, thread_switch, next_thread, wakeone,
}
use ms_projects.Scheduler.Steps.{Reach, start, later, forks, switches, finds, wakes_one}
use ms_projects.Scheduler.Migrate.{thread_consider_migration}
use ms_projects.Scheduler.Places.{places}
use ms_projects.Scheduler.History.{every_thread_once, switch_never_panics}

sleep_ne : s_sleep ≢ s_run
sleep_ne e = cc e

-- Thread 0 forks thread 2 and goes to sleep, thread 2 comes to run, and thread 0 is woken.
scheduler_run : (s : System) × Reach 2 1 s × ((s.cpus 0).c_curthread ≡ 2)
unfolding cpus_created fork thread_switch next_thread wakeone
scheduler_run = (
  _,
  later
      (later
        (later (later start (forks 0 (omega arith) refl))
          (switches 0 s_sleep 0 (omega arith) (omega arith) sleep_ne refl))
        (finds 0 (omega arith) refl refl))
      (wakes_one 0 (omega arith)),
  refl,
)

every_thread_once_example :
    places 2 1 0 scheduler_run.0 ≡ (if ltb 0 scheduler_run.0.threads then 1 else 0)
every_thread_once_example = every_thread_once scheduler_run.1 0

switch_never_panics_example :
    ((newstate : ThreadState)
      → newstate ≢ s_run
      → (t : System) × (thread_switch 0 newstate 0 scheduler_run.0 ≡ some t))
    × ((scheduler_run.0.cpus 0).c_isidle ≡ true
        → (t : System) × (next_thread 0 scheduler_run.0 ≡ some t))
    × ((t : System) × (thread_consider_migration 2 0 scheduler_run.0 ≡ some t))
switch_never_panics_example = switch_never_panics scheduler_run.1 0 0 (omega arith) (omega arith)
