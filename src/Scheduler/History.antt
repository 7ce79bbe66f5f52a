-- ===== src/Scheduler/History.antt =====
-- All histories of the processors: kern/thread/thread.c.
use ms_projects.Common.{
  ℕ, ◌<◌, ◌≡◌, ◌≢◌, refl, subst, true, Option, some, [], arith, if◌then◌else◌, ltb,
}
use ms_projects.Common.Sums.{total_zero, total_one}
use ms_projects.Threadlist.Segments.{occurs}
use ms_projects.Scheduler.{ThreadState, s_run, System, thread_switch, next_thread, cpus_created}
use ms_projects.Scheduler.Steps.{
  Step, forks, switches, finds, migrates, wakes_one, wakes_all, Reach, start, later,
}
use ms_projects.Scheduler.Migrate.{thread_consider_migration}
use ms_projects.Scheduler.Sending.{migration-Inv}
use ms_projects.Scheduler.Places.{on_cpu, places, Inv}
use ms_projects.Scheduler.Invariant.{fork-Inv, wakeone-Inv, wakeall-Inv}
use ms_projects.Scheduler.Switch.{thread_switch-Inv}
use ms_projects.Scheduler.Next.{next_thread-Inv}

boot-Inv : (n m : ℕ) → Inv n m [] [] (cpus_created n)
unfolding cpus_created
boot-Inv n m = record {
  once = λ t. ground (
    arith,
    total_one (on_cpu t) n (cpus_created n).cpus t (λ c. ground arith),
    total_zero (occurs t) m [] refl,
  );
  cpu_known = λ t lt. lt;
  running = λ c lt b. refl;
  queued = λ c lt t h. absurd (omega (arith, h));
  zombies = λ c lt t h. absurd (omega (arith, h));
}

-- A result that is there is the one that was found.
result-Inv :
    {n m : ℕ} {r : Option System} {t : System}
    → (s' : System) × (r ≡ some s') × Inv n m [] [] s'
    → r ≡ some t
    → Inv n m [] [] t
result-Inv {n} {m} (s', ok, v) e = subst (λ x. Inv n m [] [] x) (cc (ok, e)) v

Step-Inv : {n m : ℕ} {s t : System} → Step n m s t → Inv n m [] [] s → Inv n m [] [] t
Step-Inv (forks c lt busy) v = fork-Inv v c lt busy
Step-Inv (switches c newstate wc lt small ne e) v =
    result-Inv (thread_switch-Inv v lt small newstate ne) e
Step-Inv (finds c lt idle e) v = result-Inv (next_thread-Inv v lt idle) e
Step-Inv (migrates c lt e) v = result-Inv (migration-Inv v lt) e
Step-Inv (wakes_one wc small) v = wakeone-Inv v wc small
Step-Inv (wakes_all wc small) v = wakeall-Inv v wc small

Reach-Inv : {n m : ℕ} {s : System} → Reach n m s → Inv n m [] [] s
Reach-Inv {n} {m} start = boot-Inv n m
Reach-Inv (later r st) = Step-Inv st (Reach-Inv r)

-- In every history of the processors, every thread that has been created is in exactly one place: it
-- runs on one processor, or is on one run queue, asleep on one wait channel, among the zombies of one
-- processor, or destroyed, and once.
pub every_thread_once :
    {n m : ℕ} {s : System}
    → Reach n m s
    → (t : ℕ) → places n m t s ≡ (if ltb t s.threads then 1 else 0)
every_thread_once r t = omega (arith, (Reach-Inv r).once t)

-- In every history of the processors, a `thread_switch` to a state other than `S_RUN` does not panic, a
-- round of its loop that finds a thread passes the assertions of `exorcise`, and
-- `thread_consider_migration` follows no NULL pointer: they all come back.
pub switch_never_panics :
    {n m : ℕ} {s : System}
    → Reach n m s
    → (c wc : ℕ) → c < n
    → wc < m
    → ((newstate : ThreadState)
        → newstate ≢ s_run
        → (t : System) × (thread_switch c newstate wc s ≡ some t))
      × ((s.cpus c).c_isidle ≡ true → (t : System) × (next_thread c s ≡ some t))
      × ((t : System) × (thread_consider_migration n c s ≡ some t))
switch_never_panics r c wc lt small =
    let v = Reach-Inv r in
    (
      λ newstate ne. let (t, ok, _) = thread_switch-Inv v lt small newstate ne in (t, ok),
      λ idle. let (t, ok, _) = next_thread-Inv v lt idle in (t, ok),
      let (t, ok, _) = migration-Inv v lt in (t, ok),
    )
