-- ===== src/Scheduler/Migrate.antt =====
-- `thread_consider_migration` of kern/thread/thread.c.
use ms_projects.Common.{
  ℕ, zero, suc, ◌+◌, ◌-◌, ◌/◌, ◌%◌, ◌^◌, ◌>>=◌, Option, none, some, List, [], ◌∷◌, ◌++◌, length,
  ltb, ◌==◌, if◌then◌else◌,
}
use ms_projects.Common.Sums.{assign, total}
use ms_projects.Scheduler.{Cpu, System, set_cpu}

-- `threadlist_remtail`
unfoldable pub remtail : List ℕ → Option (List ℕ × ℕ)
remtail [] = none
remtail (t ∷ ts) = elim (remtail ts) [
  | none ↦ some ([], t)
  | some (ts', last) ↦ some (t ∷ ts', last)
]

-- The loop that takes the victims off the run queue; `none` is a NULL on the list.
unfoldable pub take_victims : ℕ → List ℕ → List ℕ → Option (List ℕ × List ℕ)
unfolding remtail
take_victims zero queue victims = some (queue, victims)
take_victims (suc to_send) queue victims = do
  (queue', t) ← remtail queue
  take_victims to_send queue' (t ∷ victims)

unfoldable pub queue_up : ℕ → ℕ → System → System
queue_up c t s =
    let cpu = s.cpus c in set_cpu c (record cpu { c_runqueue = cpu.c_runqueue ++ (t ∷ []) }) s

-- The loop that fills the run queue of the processor `d`: what is left to send, and the victims.
unfoldable pub send_to : ℕ → ℕ → ℕ → ℕ → List ℕ → System → Option (ℕ × List ℕ × System)
unfolding queue_up
send_to d curthread one_share zero victims s = some (zero, victims, s)
send_to d curthread one_share (suc to_send) [] s =
    if ltb (length (s.cpus d).c_runqueue) one_share then none else some (suc to_send, [], s)
send_to d curthread one_share (suc to_send) (t ∷ victims) s =
    let skipped = send_to d curthread one_share to_send (victims ++ (t ∷ [])) s in
    let sent =
      send_to d curthread one_share to_send victims
        (queue_up d t (record s { t_cpu = assign s.t_cpu t d })) in
    if ltb (length (s.cpus d).c_runqueue) one_share
    then (if t == curthread then skipped else sent)
    else some (suc to_send, t ∷ victims, s)

-- The loop over the processors from `i` on, of which there are `rounds`.
unfoldable pub send_all : ℕ → ℕ → ℕ → ℕ → ℕ → ℕ → List ℕ → System → Option (List ℕ × System)
unfolding send_to
send_all zero i c curthread one_share to_send victims s = some (victims, s)
send_all (suc rounds) i c curthread one_share to_send victims s =
    let past = send_all rounds (i + 1) c curthread one_share to_send victims s in
    if to_send == 0 then some (victims, s) else if i == c then past else (do
      (left, victims', s') ← send_to i curthread one_share to_send victims s
      send_all rounds (i + 1) c curthread one_share left victims' s')

-- The victims that are left go back on the own run queue.
unfoldable pub put_back : ℕ → List ℕ → System → System
unfolding queue_up
put_back c [] s = s
put_back c (t ∷ victims) s = put_back c victims (queue_up c t s)

abbrev pub waiting : Cpu → ℕ
waiting cpu = length cpu.c_runqueue

-- On processor `c` of `numcpus`.
unfoldable pub thread_consider_migration : ℕ → ℕ → System → Option System
unfolding take_victims send_all put_back
thread_consider_migration numcpus c s =
    let cpu = s.cpus c in
    let my_count = waiting cpu in
    let one_share = (total waiting numcpus s.cpus + (numcpus - 1)) % 2 ^ 32 / numcpus in
    if ltb my_count one_share then some s else do
      (queue, victims) ← take_victims (my_count - one_share) cpu.c_runqueue []
      (left, s') ←
          send_all numcpus 0 c cpu.c_curthread one_share (my_count - one_share) victims
            (set_cpu c (record cpu { c_runqueue = queue }) s)
      some (put_back c left s')
