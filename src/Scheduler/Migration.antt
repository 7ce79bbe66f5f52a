-- ===== src/Scheduler/Migration.antt =====
-- Victims of `thread_consider_migration` of kern/thread/thread.c: off a queue, and onto another.
use ms_projects.Common.{
  ℕ, zero, suc, ◌+◌, ◌≤◌, ◌<◌, ◌≡◌, refl, sym, subst, ap, none, some, List, [], ◌∷◌, ◌++◌, length,
  length-append, arith, ◌==◌, if◌then◌else◌, ℕ_discrete,
}
use ms_projects.Common.Sums.{assign, total_ge}
use ms_projects.Threadlist.Segments.{occurs, occurs-append}
use ms_projects.Scheduler.{System, thread_make_runnable}
use ms_projects.Scheduler.Migrate.{remtail, take_victims, queue_up}
use ms_projects.Scheduler.Places.{on_cpu, Inv, make_runnable-Inv}

remtail-last :
    (q : List ℕ)
    → 0 < length q
    → (q' : List ℕ) × (t : ℕ) × (remtail q ≡ some (q', t))
      × ((x : ℕ) → occurs x q ≡ occurs x q' + (if t == x then 1 else 0))
      × (length q ≡ length q' + 1)
unfolding remtail
remtail-last [] h = absurd (omega (arith, h))
remtail-last (t ∷ []) h = ([], t, refl, λ x. omega arith, refl)
remtail-last (t ∷ u ∷ q) h =
    let (q', last, ok, count, len) = remtail-last (u ∷ q) (omega arith) in
    (
      t ∷ q',
      last,
      ap (λ r. elim r [ none ↦ some ([], t) | some (ts', last) ↦ some (t ∷ ts', last) ]) ok,
      λ x. omega (arith, count x),
      omega (arith, len),
    )

pub take_victims-count :
    (k : ℕ) (q vs : List ℕ)
    → k ≤ length q
    → (q' vs' : List ℕ) × (take_victims k q vs ≡ some (q', vs'))
      × ((x : ℕ) → occurs x q' + occurs x vs' ≡ occurs x q + occurs x vs)
      × (length vs' ≡ length vs + k)
unfolding take_victims
take_victims-count zero q vs le = (q, vs, refl, λ x. refl, omega arith)
take_victims-count (suc k) q vs le =
    let (q₁, t, ok₁, count₁, len₁) = remtail-last q (omega (arith, le)) in
    let (q', vs', ok, count, len) = take_victims-count k q₁ (t ∷ vs) (omega (arith, le, len₁)) in
    (q', vs', rw ok₁ ok, λ x. omega (arith, count x, count₁ x), omega (arith, len))

-- `k` of the threads of `vs`, which are in no place and belong to `c`, can be sent.
pub record Held (n m c k : ℕ) (vs : List ℕ) (s : System) : Type 0 where
  pub inv : Inv n m vs [] s
  pub own : (x : ℕ) → 0 < occurs x vs → s.t_cpu x ≡ c
  pub enough : k ≤ length vs

module _ {n m : ℕ} where
  pub reheld :
      {s : System} {vs vs' : List ℕ}
      → ((x : ℕ) → occurs x vs' ≡ occurs x vs)
      → Inv n m vs [] s
      → Inv n m vs' [] s
  reheld e v = record {
    once = λ x. omega (arith, v.once x, e x);
    cpu_known = v.cpu_known;
    running = v.running;
    queued = v.queued;
    zombies = v.zombies;
  }

  -- A thread that is in no place is not on a processor, and has been created.
  pub held_nowhere :
      {s : System} {t : ℕ} {vs : List ℕ}
      → Inv n m (t ∷ vs) [] s
      → (t < s.threads) × (occurs t vs ≡ 0) × ((d : ℕ) → d < n → on_cpu t (s.cpus d) ≡ 0)
  held_nowhere {s} {t} v = (
    ground (arith, v.once t),
    ground (arith, v.once t),
    λ d lt. ground (arith, v.once t, total_ge (on_cpu t) n s.cpus d lt),
  )

  pub queue_up-Inv :
      {s : System} {t d : ℕ} {vs : List ℕ}
      → Inv n m (t ∷ vs) [] s
      → s.t_cpu t ≡ d
      → Inv n m vs [] (queue_up d t s)
  unfolding queue_up thread_make_runnable
  queue_up-Inv {s} {t} {d} {vs} v e =
      subst (λ k. Inv n m vs [] (queue_up k t s)) e (make_runnable-Inv v (held_nowhere v).0)

  pub retarget-Inv :
      {s : System} {t d : ℕ} {vs : List ℕ}
      → Inv n m (t ∷ vs) [] s
      → d < n
      → Inv n m (t ∷ vs) [] (record s { t_cpu = assign s.t_cpu t d })
  retarget-Inv {s} {t} {d} {vs} v lt =
      let (_, _, nowhere) = held_nowhere v in
      record {
        once = v.once;
        cpu_known = λ x h. elim (ℕ_discrete t x) [
          | yes e ↦ ground (arith, e, lt)
          | no ne ↦ ground (arith, ne, v.cpu_known x h)
        ];
        running = λ k lt' busy. ground (arith, v.running k lt' busy, nowhere k lt', busy);
        queued = λ k lt' x h. elim (ℕ_discrete t x) [
          | yes e ↦
              let here : 0 < occurs t (s.cpus k).c_runqueue =
                subst (λ y. 0 < occurs y (s.cpus k).c_runqueue) (sym e) h in
              absurd (omega (arith, nowhere k lt', here))
          | no ne ↦ ground (arith, ne, v.queued k lt' x h)
        ];
        zombies = v.zombies;
      }

  -- The first victim is skipped, or goes to `d`.
  pub skip-Held :
      {c k t : ℕ} {vs : List ℕ} {s : System}
      → Held n m c (suc k) (t ∷ vs) s
      → Held n m c k (vs ++ (t ∷ [])) s
  skip-Held {t = t} {vs} h = record {
    inv = reheld (λ x. omega (arith, occurs-append x vs (t ∷ []))) h.inv;
    own = λ x l. h.own x (omega (arith, l, occurs-append x vs (t ∷ [])));
    enough = omega (arith, h.enough, length-append {0} vs (t ∷ []));
  }

  pub send-Held :
      {c k t d : ℕ} {vs : List ℕ} {s : System}
      → d < n
      → Held n m c (suc k) (t ∷ vs) s
      → Held n m c k vs (queue_up d t (record s { t_cpu = assign s.t_cpu t d }))
  unfolding queue_up
  send-Held {t = t} {d} {vs} {s} lt h = record {
    inv = queue_up-Inv (retarget-Inv h.inv lt) (ground arith);
    own = λ x l. ground (arith, h.own x (omega (arith, l)), held_nowhere h.inv, l);
    enough = omega (arith, h.enough);
  }
