-- ===== src/Scheduler/Invariant.antt =====
-- Every operation keeps every thread in one place: kern/thread/thread.c.
use ms_projects.Common.{
  ℕ, ◌+◌, ◌<◌, ◌≡◌, refl, subst, ap, ◌∙◌, false, List, [], ◌∷◌, arith, if◌then◌else◌, ℕ_discrete,
}
use ms_projects.Common.Sums.{assign, total-assign, total_ge}
use ms_projects.Threadlist.Segments.{occurs}
use ms_projects.Scheduler.{
  s_ready, is_zombie, System, thread_make_runnable, fork, wakeone, make_all_runnable, wakeall,
}
use ms_projects.Scheduler.Places.{on_cpu, Inv, cpu_le, make_runnable-Inv}

module _ {n m : ℕ} where
  -- The threads of `list` are taken off the wait channel.
  taken-Inv :
      {s : System} (v : Inv n m [] [] s) (wc : ℕ) (list rest : List ℕ)
      → wc < m
      → ((t : ℕ) → occurs t (s.wc_threads wc) ≡ occurs t list + occurs t rest)
      → Inv n m list [] (record s { wc_threads = assign s.wc_threads wc rest })
  taken-Inv {s} v wc list rest lt e = record {
    once = λ t. omega (arith, v.once t, e t, total-assign (occurs t) m s.wc_threads wc rest lt);
    cpu_known = v.cpu_known;
    running = v.running;
    queued = v.queued;
    zombies = v.zombies;
  }

  -- Threads asleep have been created.
  asleep_known :
      {s : System}
      → Inv n m [] [] s
      → (wc : ℕ) → wc < m
      → (t : ℕ) → 0 < occurs t (s.wc_threads wc)
      → t < s.threads
  asleep_known {s} v wc lt t h =
      ground (arith, v.once t, h, total_ge (occurs t) m s.wc_threads wc lt)

  all_runnable-Inv :
      (list : List ℕ) {s : System}
      → Inv n m list [] s
      → ((t : ℕ) → 0 < occurs t list → t < s.threads)
      → Inv n m [] [] (make_all_runnable list s)
  unfolding make_all_runnable
  all_runnable-Inv [] v known = v
  all_runnable-Inv (t ∷ list) {s} v known =
      all_runnable-Inv list (make_runnable-Inv v (known t (ground arith)))
        (λ x h. known x (omega (arith, h)))

  pub wakeall-Inv :
      {s : System} → Inv n m [] [] s → (wc : ℕ) → wc < m → Inv n m [] [] (wakeall wc s)
  unfolding wakeall
  wakeall-Inv {s} v wc lt =
      all_runnable-Inv (s.wc_threads wc) (taken-Inv v wc (s.wc_threads wc) [] lt (λ t. omega arith))
        (asleep_known v wc lt)

  pub wakeone-Inv :
      {s : System} → Inv n m [] [] s → (wc : ℕ) → wc < m → Inv n m [] [] (wakeone wc s)
  unfolding wakeone
  wakeone-Inv {s} v wc lt = by_list (s.wc_threads wc) refl
    where
      by_list :
          (ts : List ℕ)
          → s.wc_threads wc ≡ ts
          → Inv n m [] [] (elim ts [
            | [] ↦ s
            | target ∷ rest ↦
                thread_make_runnable target (record s { wc_threads = assign s.wc_threads wc rest })
          ])
      by_list [] e = v
      by_list (t ∷ ts) e =
          make_runnable-Inv (taken-Inv v wc (t ∷ []) ts lt (λ x. ap (occurs x) e ∙ omega arith))
            (asleep_known v wc lt t (ground (arith, ap (occurs t) e)))

  pub on_born :
      {s : System}
      → Inv n m [] [] s
      → (c : ℕ) → c < n
      → (t : ℕ) → 0 < on_cpu t (s.cpus c)
      → t < s.threads
  on_born v c lt t h = ground (arith, cpu_le v t c lt, h)

  pub cur_born :
      {s : System}
      → Inv n m [] [] s
      → (c : ℕ) → c < n
      → (s.cpus c).c_isidle ≡ false
      → (s.cpus c).c_curthread < s.threads
  cur_born {s} v c lt busy = on_born v c lt (s.cpus c).c_curthread (ground (arith, busy))

  pub fork-Inv :
      {s : System}
      → Inv n m [] [] s
      → (c : ℕ) → c < n
      → (s.cpus c).c_isidle ≡ false
      → Inv n m [] [] (fork c s)
  unfolding fork
  fork-Inv {s} v c lt busy = make_runnable-Inv new (omega arith)
    where
      old_state :
          (d : ℕ)
          → d < n
          → (t : ℕ) → 0 < occurs t (s.cpus d).c_zombies
          → 0 < (if is_zombie (assign s.t_state s.threads s_ready t) then 1 else 0) + occurs t []
      old_state d lt' t h =
          subst (λ z. 0 < (if is_zombie z then 1 else 0) + 0)
            (ground (arith, on_born v d lt' t (omega (arith, h)))) (v.zombies d lt' t h)

      new : Inv n m (s.threads ∷ []) [] (record s {
        t_state = assign s.t_state s.threads s_ready;
        t_cpu = assign s.t_cpu s.threads (s.t_cpu (s.cpus c).c_curthread);
        threads = s.threads + 1;
      })
      new = record {
        once = λ t. ground (arith, v.once t);
        cpu_known = λ t h. elim (ℕ_discrete s.threads t) [
          | yes e ↦ ground (arith, e, v.running c lt busy, lt)
          | no ne ↦ ground (arith, ne, v.cpu_known t (omega (arith, h, ne)))
        ];
        running = λ d lt' b. ground (arith, v.running d lt' b, cur_born v d lt' b);
        queued =
            λ d lt' t h. ground (arith, v.queued d lt' t h, on_born v d lt' t (omega (arith, h)));
        zombies = λ d lt' t h. old_state d lt' t h;
      }
