-- ===== src/Scheduler/Places.antt =====
-- Where a thread is, counted over the processors and wait channels: kern/thread/thread.c.
use ms_projects.Common.{
  ℕ, ◌+◌, ◌≤◌, ◌<◌, ◌≡◌, ◌≢◌, sym, ap, false, List, [], ◌∷◌, ◌++◌, arith, ◌==◌, if◌then◌else◌, ltb,
  ℕ_discrete,
}
use ms_projects.Common.Sums.{total, total-assign, total_ge, total_two}
use ms_projects.Threadlist.Segments.{occurs, occurs-append}
use ms_projects.Threadlist.Lists.{assign-elim}
use ms_projects.Scheduler.{is_zombie, Cpu, System, set_cpu, thread_make_runnable}

-- On the run queue of a processor, among its zombies, or running.
abbrev pub on_cpu : ℕ → Cpu → ℕ
on_cpu t cpu =
    occurs t cpu.c_runqueue
    + occurs t cpu.c_zombies
    + (if cpu.c_isidle then 0 else if cpu.c_curthread == t then 1 else 0)

-- In all of these places, asleep, or destroyed.
abbrev pub places : ℕ → ℕ → ℕ → System → ℕ
places n m t s = total (on_cpu t) n s.cpus + total (occurs t) m s.wc_threads + occurs t s.destroyed

abbrev pub born : ℕ → System → ℕ
born t s = if ltb t s.threads then 1 else 0

-- The threads of `held` are in no place, those of `twice` are in one place too many.
pub record Inv (n m : ℕ) (held twice : List ℕ) (s : System) : Type 0 where
  pub once : (t : ℕ) → places n m t s + occurs t held ≡ born t s + occurs t twice
  pub cpu_known : (t : ℕ) → t < s.threads → s.t_cpu t < n
  pub running : (c : ℕ) → c < n → (s.cpus c).c_isidle ≡ false → s.t_cpu (s.cpus c).c_curthread ≡ c
  pub queued : (c : ℕ) → c < n → (t : ℕ) → 0 < occurs t (s.cpus c).c_runqueue → s.t_cpu t ≡ c
  pub zombies :
      (c : ℕ)
      → c < n
      → (t : ℕ) → 0 < occurs t (s.cpus c).c_zombies
      → 0 < (if is_zombie (s.t_state t) then 1 else 0) + occurs t twice

-- A processor that is not idle runs a thread that has been created and is nowhere else.
module _ {n m : ℕ} {s : System} (v : Inv n m [] [] s) where
  pub cpu_le : (t c : ℕ) → c < n → on_cpu t (s.cpus c) ≤ born t s
  cpu_le t c lt = omega (arith, v.once t, total_ge (on_cpu t) n s.cpus c lt)

  pub two_cpus :
      (t c d : ℕ) → c < n → d < n → c ≢ d → on_cpu t (s.cpus c) + on_cpu t (s.cpus d) ≤ born t s
  two_cpus t c d lt lt' ne = omega (arith, v.once t, total_two (on_cpu t) n s.cpus c d lt lt' ne)

pub set_cpu-places :
    (n m t c : ℕ) (v : Cpu) (s : System)
    → c < n
    → places n m t (set_cpu c v s) + on_cpu t (s.cpus c) ≡ places n m t s + on_cpu t v
set_cpu-places n m t c v s lt = omega (arith, total-assign (on_cpu t) n s.cpus c v lt)

module _ {n m : ℕ} {t : ℕ} {held twice : List ℕ} {s : System} (v : Inv n m (t ∷ held) twice s) where
  pub make_runnable-Inv : t < s.threads → Inv n m held twice (thread_make_runnable t s)
  unfolding thread_make_runnable
  make_runnable-Inv known =
      let lt = v.cpu_known t known in
      let cpu = s.cpus (s.t_cpu t) in
      let cpu' : Cpu = record cpu { c_runqueue = cpu.c_runqueue ++ (t ∷ []) } in
      record {
        once = λ x. ground (
          arith,
          v.once x,
          set_cpu-places n m x (s.t_cpu t) cpu' s lt,
          occurs-append x cpu.c_runqueue (t ∷ []),
        );
        cpu_known = v.cpu_known;
        running =
            assign-elim (λ d w. d < n → w.c_isidle ≡ false → s.t_cpu w.c_curthread ≡ d) s.cpus
              (s.t_cpu t) cpu' (v.running (s.t_cpu t)) (λ d ne. v.running d);
        queued =
            assign-elim (λ d w. d < n → (x : ℕ) → 0 < occurs x w.c_runqueue → s.t_cpu x ≡ d) s.cpus
              (s.t_cpu t) cpu'
              (λ _ x h. elim (ℕ_discrete t x) [
                | yes e ↦ ap s.t_cpu (sym e)
                | no ne ↦
                    v.queued (s.t_cpu t) lt x
                      (ground (arith, ne, h, occurs-append x cpu.c_runqueue (t ∷ [])))
              ])
              (λ d ne. v.queued d);
        zombies =
            assign-elim
              (λ d w.
                d < n
                → (x : ℕ) → 0 < occurs x w.c_zombies
                → 0 < (if is_zombie (s.t_state x) then 1 else 0) + occurs x twice)
              s.cpus (s.t_cpu t) cpu' (v.zombies (s.t_cpu t)) (λ d ne. v.zombies d);
      }
