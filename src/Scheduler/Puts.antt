-- ===== src/Scheduler/Puts.antt =====
-- Where `thread_switch` of kern/thread/thread.c puts the thread that it switches from.
use ms_projects.Common.{
  ℕ, ◌+◌, ◌<◌, ◌≡◌, ◌≢◌, refl, subst, ap, ◌∙◌, ◌⊎◌, inl, inr, true, false, some, [], ◌∷◌, ◌++◌,
  arith, if◌then◌else◌, ℕ_discrete,
}
use ms_projects.Common.Sums.{assign, total-assign}
use ms_projects.Threadlist.Segments.{occurs, occurs-append}
use ms_projects.Threadlist.Lists.{assign-elim}
use ms_projects.Scheduler.{
  ThreadState, s_run, s_ready, s_sleep, s_zombie, is_zombie, Cpu, System, set_cpu,
  thread_make_runnable, put,
}
use ms_projects.Scheduler.Places.{Inv, cpu_le, two_cpus, set_cpu-places, make_runnable-Inv}
use ms_projects.Scheduler.Invariant.{cur_born}

-- What a processor runs and its zombies are as before.
abbrev Keeps : Cpu → Cpu → Type 0
Keeps w w' =
    (w'.c_isidle ≡ w.c_isidle) × (w'.c_curthread ≡ w.c_curthread) × (w'.c_zombies ≡ w.c_zombies)

make_runnable-Keeps : (s : System) (t d : ℕ) → Keeps (s.cpus d) ((thread_make_runnable t s).cpus d)
unfolding thread_make_runnable
make_runnable-Keeps s t =
    assign-elim (λ d w. Keeps (s.cpus d) w) s.cpus (s.t_cpu t)
      (record (s.cpus (s.t_cpu t)) { c_runqueue = (s.cpus (s.t_cpu t)).c_runqueue ++ (t ∷ []) })
      (refl, refl, refl) (λ d ne. (refl, refl, refl))

-- The thread that runs on `c` is put in a second place.
pub record Put (n m c : ℕ) (newstate : ThreadState) (s s' : System) : Type 0 where
  pub inv : Inv n m [] ((s.cpus c).c_curthread ∷ []) s'
  pub busy : (s'.cpus c).c_isidle ≡ false
  pub same : (s'.cpus c).c_curthread ≡ (s.cpus c).c_curthread
  pub dying :
      (is_zombie newstate ≡ true)
      ⊎ ((d : ℕ) → d < n → occurs (s.cpus c).c_curthread (s'.cpus d).c_zombies ≡ 0)

module _ {n m : ℕ} {s : System} (v : Inv n m [] [] s) {c : ℕ} (lt : c < n)
    (busy : (s.cpus c).c_isidle ≡ false) where
  cur : ℕ
  cur = (s.cpus c).c_curthread

  no_zombie : (d : ℕ) → d < n → occurs cur (s.cpus d).c_zombies ≡ 0
  unfolding cur
  no_zombie d lt' = elim (ℕ_discrete c d) [
    | yes e ↦
        subst (λ x. occurs (s.cpus c).c_curthread (s.cpus x).c_zombies ≡ 0) e
          (ground (arith, busy, cpu_le v (s.cpus c).c_curthread c lt))
    | no ne ↦ ground (arith, busy, two_cpus v (s.cpus c).c_curthread c d lt lt' ne)
  ]

  doubled : Inv n m (cur ∷ []) (cur ∷ []) s
  doubled = record {
    once = λ t. omega (arith, v.once t);
    cpu_known = v.cpu_known;
    running = v.running;
    queued = v.queued;
    zombies = λ d lt' t h. omega (arith, v.zombies d lt' t h);
  }

  put_ready-Put : (wc : ℕ) → (s' : System) × (put c s_ready wc s ≡ some s') × Put n m c s_ready s s'
  unfolding put cur
  put_ready-Put wc =
      let (idle, same, _) = make_runnable-Keeps s (s.cpus c).c_curthread c in
      (
        thread_make_runnable (s.cpus c).c_curthread s,
        ground (arith, v.running c lt busy),
        record {
          inv = make_runnable-Inv doubled (cur_born v c lt busy);
          busy = idle ∙ busy;
          same = same;
          dying = inr (λ d lt'.
              ap (occurs (s.cpus c).c_curthread) (make_runnable-Keeps s (s.cpus c).c_curthread d).2
              ∙ no_zombie d lt');
        },
      )

  put_sleep-Put :
      (wc : ℕ) → wc < m → (s' : System) × (put c s_sleep wc s ≡ some s') × Put n m c s_sleep s s'
  unfolding put cur
  put_sleep-Put wc small =
      let cur = (s.cpus c).c_curthread in
      (
        record s { wc_threads = assign s.wc_threads wc (s.wc_threads wc ++ (cur ∷ [])) },
        refl,
        record {
          inv = record {
            once = λ t. omega (
              arith,
              v.once t,
              total-assign (occurs t) m s.wc_threads wc (s.wc_threads wc ++ (cur ∷ [])) small,
              occurs-append t (s.wc_threads wc) (cur ∷ []),
            );
            cpu_known = v.cpu_known;
            running = v.running;
            queued = v.queued;
            zombies = λ d lt' t h. omega (arith, v.zombies d lt' t h);
          };
          busy = busy;
          same = refl;
          dying = inr no_zombie;
        },
      )

  put_zombie-Put :
      (wc : ℕ) → (s' : System) × (put c s_zombie wc s ≡ some s') × Put n m c s_zombie s s'
  unfolding put cur
  put_zombie-Put wc =
      let cur = (s.cpus c).c_curthread in
      let cpu = s.cpus c in
      let cpu' : Cpu = record cpu { c_zombies = cpu.c_zombies ++ (cur ∷ []) } in
      let here : assign s.cpus c cpu' c ≡ cpu' = ground arith in
      (
        set_cpu c cpu' s,
        refl,
        record {
          inv = record {
            once = λ t. omega (
              arith,
              v.once t,
              set_cpu-places n m t c cpu' s lt,
              occurs-append t cpu.c_zombies (cur ∷ []),
            );
            cpu_known = v.cpu_known;
            running =
                assign-elim (λ d w. d < n → w.c_isidle ≡ false → s.t_cpu w.c_curthread ≡ d) s.cpus c
                  cpu' (v.running c) (λ d ne. v.running d);
            queued =
                assign-elim (λ d w. d < n → (x : ℕ) → 0 < occurs x w.c_runqueue → s.t_cpu x ≡ d)
                  s.cpus c cpu' (v.queued c) (λ d ne. v.queued d);
            zombies =
                assign-elim
                  (λ d w.
                    d < n
                    → (x : ℕ) → 0 < occurs x w.c_zombies
                    → 0 < (if is_zombie (s.t_state x) then 1 else 0) + occurs x (cur ∷ []))
                  s.cpus c cpu'
                  (λ lt' x h. elim (ℕ_discrete cur x) [
                    | yes e ↦ ground (arith, e)
                    | no ne ↦ omega (
                      arith,
                      v.zombies c lt' x
                          (ground (arith, ne, h, occurs-append x cpu.c_zombies (cur ∷ []))),
                    )
                  ])
                  (λ d ne lt' x h. omega (arith, v.zombies d lt' x h));
          };
          busy = ap (λ w. w.c_isidle) here ∙ busy;
          same = ap (λ w. w.c_curthread) here;
          dying = inl refl;
        },
      )

pub put-Put :
    {n m : ℕ} {s : System} (v : Inv n m [] [] s) {c wc : ℕ}
    → c < n
    → wc < m
    → (newstate : ThreadState) → newstate ≢ s_run
    → (s.cpus c).c_isidle ≡ false
    → (s' : System) × (put c newstate wc s ≡ some s') × Put n m c newstate s s'
put-Put v lt small s_run ne busy = absurd (ne refl)
put-Put v {wc = wc} lt small s_ready ne busy = put_ready-Put v lt busy wc
put-Put v {wc = wc} lt small s_sleep ne busy = put_sleep-Put v lt busy wc small
put-Put v {wc = wc} lt small s_zombie ne busy = put_zombie-Put v lt busy wc
