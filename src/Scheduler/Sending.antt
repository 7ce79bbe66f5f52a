-- ===== src/Scheduler/Sending.antt =====
-- `thread_consider_migration` of kern/thread/thread.c loses no thread.
use ms_projects.Common.{
  ℕ, zero, suc, ◌+◌, ◌-◌, ◌/◌, ◌%◌, ◌^◌, ◌≤◌, ◌<◌, ◌≡◌, refl, ◌>>=◌, Bool, true, false, Option,
  some, List, [], ◌∷◌, ◌++◌, length, arith, ◌==◌, if◌then◌else◌, ltb,
}
use ms_projects.Common.Sums.{assign, total}
use ms_projects.Threadlist.Segments.{occurs}
use ms_projects.Threadlist.Lists.{assign-elim}
use ms_projects.Scheduler.{is_zombie, Cpu, System, set_cpu}
use ms_projects.Scheduler.Migrate.{
  take_victims, queue_up, send_to, send_all, put_back, waiting, thread_consider_migration,
}
use ms_projects.Scheduler.Places.{Inv, set_cpu-places}
use ms_projects.Scheduler.Migration.{take_victims-count, Held, queue_up-Inv, skip-Held, send-Held}

-- The result is there, and the victims that are left are in no place.
abbrev Sent : ℕ → ℕ → ℕ → Option (ℕ × List ℕ × System) → Type 0
Sent n m c r = (k : ℕ) × (vs : List ℕ) × (s : System) × (r ≡ some (k, vs, s)) × Held n m c k vs s

abbrev AllSent : ℕ → ℕ → ℕ → Option (List ℕ × System) → Type 0
AllSent n m c r = (vs : List ℕ) × (s : System) × (r ≡ some (vs, s)) × Held n m c 0 vs s

module _ {n m c : ℕ} where
  send_to-Sent :
      (d cur share : ℕ)
      → d < n
      → (k : ℕ) (vs : List ℕ) (s : System) → Held n m c k vs s
      → Sent n m c (send_to d cur share k vs s)
  unfolding send_to
  send_to-Sent d cur share lt zero vs s h = (zero, vs, s, refl, h)
  send_to-Sent d cur share lt (suc k) [] s h = absurd (omega (arith, h.enough))
  send_to-Sent d cur share lt (suc k) (t ∷ vs) s h =
      by_count (ltb (length (s.cpus d).c_runqueue) share) (t == cur)
        (send_to-Sent d cur share lt k (vs ++ (t ∷ [])) s (skip-Held h))
        (send_to-Sent d cur share lt k vs (queue_up d t (record s { t_cpu = assign s.t_cpu t d }))
          (send-Held lt h))
    where
      by_count :
          (b b' : Bool) {skipped sent : Option (ℕ × List ℕ × System)}
          → Sent n m c skipped
          → Sent n m c sent
          → Sent n m c (if b then (if b' then skipped else sent) else some (suc k, t ∷ vs, s))
      by_count true true x y = x
      by_count true false x y = y
      by_count false b' x y = (suc k, t ∷ vs, s, refl, h)

  none_left : {k : ℕ} {vs : List ℕ} {s : System} → Held n m c k vs s → Held n m c 0 vs s
  none_left h = record { inv = h.inv; own = h.own; enough = omega arith }

  send_all-AllSent :
      (cur share rounds i k : ℕ) (vs : List ℕ) (s : System)
      → i + rounds ≤ n
      → Held n m c k vs s
      → AllSent n m c (send_all rounds i c cur share k vs s)
  unfolding send_all
  send_all-AllSent cur share zero i k vs s le h = (vs, s, refl, none_left h)
  send_all-AllSent cur share (suc rounds) i k vs s le h =
      let (k', vs', s', ok, h') = send_to-Sent i cur share (omega (arith, le)) k vs s h in
      let (vs'', s'', ok', h'') =
        send_all-AllSent cur share rounds (i + 1) k' vs' s' (omega (arith, le)) h' in
      by_test (k == 0) (i == c)
        (send_all-AllSent cur share rounds (i + 1) k vs s (omega (arith, le)) h)
        (vs'', s'', rw ok ok', h'')
    where
      by_test :
          (b b' : Bool) {past sent : Option (List ℕ × System)}
          → AllSent n m c past
          → AllSent n m c sent
          → AllSent n m c (if b then some (vs, s) else if b' then past else sent)
      by_test true b' x y = (vs, s, refl, none_left h)
      by_test false true x y = x
      by_test false false x y = y

  put_back-Inv : (vs : List ℕ) {s : System} → Held n m c 0 vs s → Inv n m [] [] (put_back c vs s)
  unfolding put_back queue_up
  put_back-Inv [] h = h.inv
  put_back-Inv (t ∷ vs) h = put_back-Inv vs (record {
    inv = queue_up-Inv h.inv (h.own t (ground arith));
    own = λ x l. h.own x (omega (arith, l));
    enough = omega arith;
  })

  -- The own run queue without the victims.
  without_victims :
      {s : System}
      → Inv n m [] [] s
      → c < n
      → (q vs : List ℕ) (k : ℕ)
      → ((x : ℕ) → occurs x q + occurs x vs ≡ occurs x (s.cpus c).c_runqueue)
      → k ≤ length vs
      → Held n m c k vs (set_cpu c (record (s.cpus c) { c_runqueue = q }) s)
  without_victims {s} v lt q vs k count le =
      let cpu' : Cpu = record (s.cpus c) { c_runqueue = q } in
      record {
        inv = record {
          once = λ x. omega (arith, v.once x, count x, set_cpu-places n m x c cpu' s lt);
          cpu_known = v.cpu_known;
          running =
              assign-elim (λ d w. d < n → w.c_isidle ≡ false → s.t_cpu w.c_curthread ≡ d) s.cpus c
                cpu' (v.running c) (λ d ne. v.running d);
          queued =
              assign-elim (λ d w. d < n → (x : ℕ) → 0 < occurs x w.c_runqueue → s.t_cpu x ≡ d)
                s.cpus c cpu' (λ _ x h. v.queued c lt x (omega (arith, h, count x)))
                (λ d ne. v.queued d);
          zombies =
              assign-elim
                (λ d w.
                  d < n
                  → (x : ℕ) → 0 < occurs x w.c_zombies
                  → 0 < (if is_zombie (s.t_state x) then 1 else 0) + 0)
                s.cpus c cpu' (v.zombies c) (λ d ne. v.zombies d);
        };
        own = λ x h. v.queued c lt x (omega (arith, h, count x));
        enough = le;
      }

-- `thread_consider_migration` comes back, so it meets no NULL on its lists, and every thread is in one
-- place as before.
pub migration-Inv :
    {n m : ℕ} {s : System} (v : Inv n m [] [] s) {c : ℕ}
    → c < n
    → (s' : System) × (thread_consider_migration n c s ≡ some s') × Inv n m [] [] s'
unfolding thread_consider_migration
migration-Inv {n} {m} {s} v {c} lt = by_share (ltb my_count one_share)
  where
    my_count : ℕ
    my_count = length (s.cpus c).c_runqueue

    one_share : ℕ
    one_share = (total waiting n s.cpus + (n - 1)) % 2 ^ 32 / n

    moved : Option System
    moved = do
      (queue, victims) ← take_victims (my_count - one_share) (s.cpus c).c_runqueue []
      (left, s') ←
          send_all n 0 c (s.cpus c).c_curthread one_share (my_count - one_share) victims
            (set_cpu c (record (s.cpus c) { c_runqueue = queue }) s)
      some (put_back c left s')

    by_share :
        (b : Bool) → (s' : System) × ((if b then some s else moved) ≡ some s') × Inv n m [] [] s'
    by_share true = (s, refl, v)
    by_share false =
        let (q, vs, ok, count, len) =
          take_victims-count (my_count - one_share) (s.cpus c).c_runqueue [] (omega arith) in
        let (left, s', ok', h) =
          send_all-AllSent (s.cpus c).c_curthread one_share n 0 (my_count - one_share) vs
            (set_cpu c (record (s.cpus c) { c_runqueue = q }) s) (omega arith)
            (without_victims v lt q vs (my_count - one_share) (λ x. omega (arith, count x))
              (omega (arith, len))) in
        (put_back c left s', rw (ok, ok') refl, put_back-Inv left h)
