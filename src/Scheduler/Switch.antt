-- ===== src/Scheduler/Switch.antt =====
-- `thread_switch` of kern/thread/thread.c keeps every thread in one place, and does not panic.
use ms_projects.Common.{
  ℕ, ◌+◌, ◌<◌, ◌≡◌, ◌≢◌, refl, sym, subst, ap, ◌∙◌, inl, inr, Bool, true, false, ◌&&◌, some, [],
  arith, if◌then◌else◌, ℕ_discrete,
}
use ms_projects.Common.Sums.{assign}
use ms_projects.Threadlist.Segments.{occurs}
use ms_projects.Threadlist.Lists.{assign-elim}
use ms_projects.Scheduler.{
  ThreadState, s_run, is_zombie, is_ready, is_empty, Cpu, System, put, leave, and_leave,
  thread_switch,
}
use ms_projects.Scheduler.Places.{Inv, set_cpu-places}
use ms_projects.Scheduler.Puts.{Put, put-Put}

-- The thread that has left is among the zombies only if it is one.
leave-zombies :
    {n m c : ℕ} {newstate : ThreadState} {s s' : System}
    → Put n m c newstate s s'
    → (d : ℕ) → d < n
    → (x : ℕ) → 0 < occurs x (s'.cpus d).c_zombies
    → 0 < (if is_zombie (assign s'.t_state (s'.cpus c).c_curthread newstate x) then 1 else 0) + 0
leave-zombies {c = c} {newstate} {s} {s'} p d lt x h = elim (ℕ_discrete (s'.cpus c).c_curthread x) [
  | yes e ↦ elim p.dying [
    | inl z ↦ ground (arith, e, z)
    | inr no_zombies ↦
        let here : 0 < occurs (s.cpus c).c_curthread (s'.cpus d).c_zombies =
          subst (λ y. 0 < occurs y (s'.cpus d).c_zombies) (sym e ∙ p.same) h in
        absurd (omega (arith, here, no_zombies d lt))
  ]
  | no ne ↦
      subst (λ z. 0 < (if is_zombie z then 1 else 0) + 0) {x = s'.t_state x} (ground (arith, ne))
        (ground (arith, ne, p.same, p.inv.zombies d lt x h))
]

-- Behind it the processor runs nothing, and the thread is in one place.
leave-Inv :
    {n m c : ℕ} {newstate : ThreadState} {s s' : System}
    → c < n
    → Put n m c newstate s s'
    → Inv n m [] [] (leave c newstate s')
unfolding leave
leave-Inv {n} {m} {c} {newstate} {s} {s'} lt p =
    let v = p.inv in
    let cpu = s'.cpus c in
    let cpu' : Cpu = record cpu { c_isidle = true } in
    record {
      once = λ t. ground (arith, v.once t, set_cpu-places n m t c cpu' s' lt, p.busy, p.same);
      cpu_known = v.cpu_known;
      running =
          assign-elim (λ d w. d < n → w.c_isidle ≡ false → s'.t_cpu w.c_curthread ≡ d) s'.cpus c
            cpu' (λ lt' b. absurd (cc b)) (λ d ne. v.running d);
      queued =
          assign-elim (λ d w. d < n → (x : ℕ) → 0 < occurs x w.c_runqueue → s'.t_cpu x ≡ d) s'.cpus
            c cpu' (v.queued c) (λ d ne. v.queued d);
      zombies =
          assign-elim
            (λ d w.
              d < n
              → (x : ℕ) → 0 < occurs x w.c_zombies
              → 0 < (if is_zombie (assign s'.t_state cpu.c_curthread newstate x) then 1 else 0) + 0)
            s'.cpus c cpu' (leave-zombies p c) (λ d ne. leave-zombies p d);
    }

-- `thread_switch` on a processor to a state other than `S_RUN` comes back, and every thread is in one
-- place as before.
pub thread_switch-Inv :
    {n m : ℕ} {s : System} (v : Inv n m [] [] s) {c wc : ℕ}
    → c < n
    → wc < m
    → (newstate : ThreadState) → newstate ≢ s_run
    → (s' : System) × (thread_switch c newstate wc s ≡ some s') × Inv n m [] [] s'
unfolding thread_switch and_leave
thread_switch-Inv {n} {m} {s} v {c} {wc} lt small newstate ne = by_idle (s.cpus c).c_isidle refl
  where
    by_queue :
        (b : Bool)
        → (s.cpus c).c_isidle ≡ false
        → (s' : System) × ((if b then some s else and_leave c newstate (put c newstate wc s))
            ≡ some s')
          × Inv n m [] [] s'
    by_queue true busy = (s, refl, v)
    by_queue false busy =
        let (s', ok, p) = put-Put v lt small newstate ne busy in
        (leave c newstate s', ap (and_leave c newstate) ok, leave-Inv lt p)

    by_idle :
        (b : Bool)
        → (s.cpus c).c_isidle ≡ b
        → (s' : System) × ((if b
              then some s
              else if is_empty (s.cpus c).c_runqueue && is_ready newstate
              then some s
              else and_leave c newstate (put c newstate wc s))
            ≡ some s')
          × Inv n m [] [] s'
    by_idle true e = (s, refl, v)
    by_idle false e = by_queue (is_empty (s.cpus c).c_runqueue && is_ready newstate) e
