-- ===== src/Scheduler/Next.antt =====
-- The loop of `thread_switch` of kern/thread/thread.c, and `exorcise`: the next thread comes to run.
use ms_projects.Common.{
  ℕ, ◌+◌, ◌<◌, ◌≡◌, ◌≢◌, refl, sym, subst, ap, ◌∙◌, true, false, some, List, [], ◌∷◌, arith, ◌==◌,
  if◌then◌else◌, ℕ_discrete,
}
use ms_projects.Common.Sums.{assign, total-assign}
use ms_projects.Threadlist.Segments.{occurs}
use ms_projects.Threadlist.Lists.{assign-elim}
use ms_projects.Scheduler.{
  ThreadState, s_run, is_zombie, Cpu, System, set_cpu, exorcise, found, run_next, next_thread,
}
use ms_projects.Scheduler.Places.{on_cpu, Inv, cpu_le, two_cpus}

-- Zombies other than the thread that runs are destroyed.
exorcise_all :
    (cur : ℕ) (t_state : ℕ → ThreadState) (zs destroyed : List ℕ)
    → ((z : ℕ) → 0 < occurs z zs → (z ≢ cur) × (is_zombie (t_state z) ≡ true))
    → (ds : List ℕ) × (exorcise cur t_state zs destroyed ≡ some ds)
      × ((z : ℕ) → occurs z ds ≡ occurs z zs + occurs z destroyed)
unfolding exorcise
exorcise_all cur t_state [] destroyed h = (destroyed, refl, λ z. omega arith)
exorcise_all cur t_state (z ∷ zs) destroyed h =
    let (ne, dead) = h z (ground arith) in
    let (ds, ok, count) =
      exorcise_all cur t_state zs (z ∷ destroyed) (λ y l. h y (omega (arith, l))) in
    (ds, ground (arith, ne, dead, ok), λ y. omega (arith, count y))

module _ {n m : ℕ} {s : System} (v : Inv n m [] [] s) {c : ℕ} (lt : c < n)
    (idle : (s.cpus c).c_isidle ≡ true) {next : ℕ} {queue : List ℕ}
    (e : (s.cpus c).c_runqueue ≡ next ∷ queue) where
  queue_was :
      (x : ℕ) → occurs x (s.cpus c).c_runqueue ≡ (if next == x then 1 else 0) + occurs x queue
  queue_was x = ap (occurs x) e

  -- The next thread is no zombie.
  not_next : (d : ℕ) → d < n → (x : ℕ) → 0 < occurs x (s.cpus d).c_zombies → x ≢ next
  not_next d lt' x h e' = elim (ℕ_discrete c d) [
    | yes same ↦
        let here : 0 < occurs x (s.cpus c).c_zombies =
          subst (λ k. 0 < occurs x (s.cpus k).c_zombies) (sym same) h in
        ground (arith, here, e', queue_was x, cpu_le v x c lt)
    | no ne ↦ ground (arith, h, e', queue_was x, two_cpus v x c d lt lt' ne)
  ]

  still_zombie :
      (d : ℕ)
      → d < n
      → (x : ℕ) → 0 < occurs x (s.cpus d).c_zombies
      → is_zombie (assign s.t_state next s_run x) ≡ true
  still_zombie d lt' x h =
      let ne = not_next d lt' x h in
      let was : is_zombie (s.t_state x) ≡ true = ground (arith, v.zombies d lt' x h) in
      ap is_zombie {y = s.t_state x} (ground (arith, ne)) ∙ was

  running_next : List ℕ → System
  running_next ds =
      set_cpu c
        (record { c_curthread = next; c_isidle = false; c_runqueue = queue; c_zombies = [] })
        (record s { t_state = assign s.t_state next s_run; destroyed = ds })

  running_next-Inv :
      (ds : List ℕ)
      → ((z : ℕ) → occurs z ds ≡ occurs z (s.cpus c).c_zombies + occurs z s.destroyed)
      → Inv n m [] [] (running_next ds)
  unfolding running_next
  running_next-Inv ds count =
      let cpu' : Cpu = record {
        c_curthread = next;
        c_isidle = false;
        c_runqueue = queue;
        c_zombies = [];
      } in
      record {
        once = λ t. ground (
          arith,
          v.once t,
          total-assign (on_cpu t) n s.cpus c cpu' lt,
          idle,
          queue_was t,
          count t,
        );
        cpu_known = v.cpu_known;
        running =
            assign-elim (λ d w. d < n → w.c_isidle ≡ false → s.t_cpu w.c_curthread ≡ d) s.cpus c
              cpu' (λ _ _. v.queued c lt next (ground (arith, queue_was next)))
              (λ d ne. v.running d);
        queued =
            assign-elim (λ d w. d < n → (x : ℕ) → 0 < occurs x w.c_runqueue → s.t_cpu x ≡ d) s.cpus
              c cpu' (λ _ x h. v.queued c lt x (omega (arith, h, queue_was x)))
              (λ d ne. v.queued d);
        zombies =
            assign-elim
              (λ d w.
                d < n
                → (x : ℕ) → 0 < occurs x w.c_zombies
                → 0 < (if is_zombie (assign s.t_state next s_run x) then 1 else 0) + 0)
              s.cpus c cpu' (λ _ x h. absurd (omega (arith, h)))
              (λ d ne lt' x h. ground (arith, still_zombie d lt' x h));
      }

-- A round of the loop on an idle processor finds no thread, or a thread that then runs; the assertions
-- of `exorcise` hold, and every thread is in one place as before.
pub next_thread-Inv :
    {n m : ℕ} {s : System} (v : Inv n m [] [] s) {c : ℕ}
    → c < n
    → (s.cpus c).c_isidle ≡ true
    → (s' : System) × (next_thread c s ≡ some s') × Inv n m [] [] s'
unfolding next_thread run_next found running_next
next_thread-Inv {n} {m} {s} v {c} lt idle = by_queue (s.cpus c).c_runqueue refl
  where
    by_queue :
        (q : List ℕ)
        → (s.cpus c).c_runqueue ≡ q
        → (s' : System) × (next_thread c s ≡ some s') × Inv n m [] [] s'
    by_queue [] e = (s, ap (λ q. run_next c q s) e, v)
    by_queue (next ∷ queue) e =
        let (ds, ok, count) =
          exorcise_all next (assign s.t_state next s_run) (s.cpus c).c_zombies s.destroyed
            (λ z h. (not_next v lt idle e c lt z h, still_zombie v lt idle e c lt z h)) in
        (
          _,
          ap (λ q. run_next c q s) e ∙ ap (found c next queue s) ok,
          running_next-Inv v lt idle e ds count,
        )
