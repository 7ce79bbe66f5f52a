-- ===== src/Scheduler.antt =====
-- The threads of kern/thread/thread.c on the processors: run queues, `thread_switch`, wait channels and
-- `exorcise`. Lists of threads are what Threadlist shows of them. A step is what is done under the
-- lock of one run queue or wait channel; `thread_switch` is the step up to its loop, and the round of
-- the loop that finds a thread, up to the end in that thread.
pub mod Migrate
pub mod Steps
pub mod Places
pub mod Invariant
pub mod Puts
pub mod Switch
pub mod Next
pub mod Migration
pub mod Sending
pub mod History
mod Tests
use ms_projects.Common.{
  ℕ, ◌+◌, ◌<◌, ◌≡◌, ◌≢◌, Bool, true, false, ◌&&◌, Option, none, some, List, [], ◌∷◌, ◌++◌, ◌==◌,
  if◌then◌else◌,
}
use ms_projects.Common.Sums.{assign}

-- `threadstate_t`
pub data ThreadState : Type 0 where
  s_run s_ready s_sleep s_zombie : ThreadState

-- `struct cpu`
pub record Cpu : Type 0 where
  pub c_curthread : ℕ
  pub c_isidle : Bool
  pub c_runqueue : List ℕ
  pub c_zombies : List ℕ

-- Threads have the numbers below `threads`, in the order of their creation.
pub record System : Type 0 where
  pub cpus : ℕ → Cpu
  pub wc_threads : ℕ → List ℕ
  pub t_state : ℕ → ThreadState
  pub t_cpu : ℕ → ℕ
  pub threads : ℕ
  pub destroyed : List ℕ

abbrev pub set_cpu : ℕ → Cpu → System → System
set_cpu c v s = record s { cpus = assign s.cpus c v }

unfoldable pub thread_make_runnable : ℕ → System → System
thread_make_runnable target s =
    let c = s.t_cpu target in
    let cpu = s.cpus c in set_cpu c (record cpu { c_runqueue = cpu.c_runqueue ++ (target ∷ []) }) s

-- `thread_fork` by the thread that runs on `c`.
unfoldable pub fork : ℕ → System → System
unfolding thread_make_runnable
fork c s =
    let newthread = s.threads in
    thread_make_runnable newthread (record s {
      t_state = assign s.t_state newthread s_ready;
      t_cpu = assign s.t_cpu newthread (s.t_cpu (s.cpus c).c_curthread);
      threads = s.threads + 1;
    })

-- The thread is put in the right place; `none` is a panic, or the assertion of `thread_make_runnable`
-- that the run queue is locked.
unfoldable pub put : ℕ → ThreadState → ℕ → System → Option System
unfolding thread_make_runnable
put c s_run wc s = none
put c s_ready wc s =
    let cur = (s.cpus c).c_curthread in
    if s.t_cpu cur == c then some (thread_make_runnable cur s) else none
put c s_sleep wc s =
    let cur = (s.cpus c).c_curthread in
    some (record s { wc_threads = assign s.wc_threads wc (s.wc_threads wc ++ (cur ∷ [])) })
put c s_zombie wc s =
    let cpu = s.cpus c in
    some (set_cpu c (record cpu { c_zombies = cpu.c_zombies ++ (cpu.c_curthread ∷ []) }) s)

-- `c_isidle = true`, behind `cur->t_state = newstate`
unfoldable pub leave : ℕ → ThreadState → System → System
leave c newstate s =
    let cpu = s.cpus c in
    set_cpu c (record cpu { c_isidle = true })
      (record s { t_state = assign s.t_state cpu.c_curthread newstate })

unfoldable pub and_leave : ℕ → ThreadState → Option System → Option System
unfolding leave
and_leave c newstate none = none
and_leave c newstate (some s) = some (leave c newstate s)

abbrev pub is_ready : ThreadState → Bool
is_ready s_ready = true
is_ready _ = false

abbrev pub is_empty : List ℕ → Bool
is_empty [] = true
is_empty (t ∷ ts) = false

-- `thread_switch` on `c`, up to its loop.
unfoldable pub thread_switch : ℕ → ThreadState → ℕ → System → Option System
unfolding put and_leave
thread_switch c newstate wc s =
    if (s.cpus c).c_isidle
    then some s
    else if is_empty (s.cpus c).c_runqueue && is_ready newstate
    then some s
    else and_leave c newstate (put c newstate wc s)

abbrev pub is_zombie : ThreadState → Bool
is_zombie s_zombie = true
is_zombie _ = false

-- `exorcise` on a processor that runs `cur`; `none` is an assertion that fails.
unfoldable pub exorcise : ℕ → (ℕ → ThreadState) → List ℕ → List ℕ → Option (List ℕ)
exorcise cur t_state [] destroyed = some destroyed
exorcise cur t_state (z ∷ zs) destroyed =
    let rest = exorcise cur t_state zs (z ∷ destroyed) in
    if z == cur then none else if is_zombie (t_state z) then rest else none

-- `next` runs, where the assertions of `exorcise` hold.
unfoldable pub found : ℕ → ℕ → List ℕ → System → Option (List ℕ) → Option System
found c next queue s none = none
found c next queue s (some destroyed) = some (
    set_cpu c (record { c_curthread = next; c_isidle = false; c_runqueue = queue; c_zombies = [] })
      (record s { t_state = assign s.t_state next s_run; destroyed = destroyed }))

unfoldable pub run_next : ℕ → List ℕ → System → Option System
unfolding exorcise found
run_next c [] s = some s
run_next c (next ∷ queue) s =
    found c next queue s
      (exorcise next (assign s.t_state next s_run) (s.cpus c).c_zombies s.destroyed)

-- A round of the loop of `thread_switch` on `c`, and where it finds a thread, the rest of the call.
unfoldable pub next_thread : ℕ → System → Option System
unfolding run_next
next_thread c s = run_next c (s.cpus c).c_runqueue s

-- `wchan_wakeone` and `wchan_wakeall`
unfoldable pub wakeone : ℕ → System → System
unfolding thread_make_runnable
wakeone wc s = elim (s.wc_threads wc) [
  | [] ↦ s
  | target ∷ rest ↦
      thread_make_runnable target (record s { wc_threads = assign s.wc_threads wc rest })
]

unfoldable pub make_all_runnable : List ℕ → System → System
unfolding thread_make_runnable
make_all_runnable [] s = s
make_all_runnable (target ∷ list) s = make_all_runnable list (thread_make_runnable target s)

unfoldable pub wakeall : ℕ → System → System
unfolding make_all_runnable
wakeall wc s =
    make_all_runnable (s.wc_threads wc) (record s { wc_threads = assign s.wc_threads wc [] })

-- `cpu_create` of `n` processors, each with a thread of its own.
unfoldable pub cpus_created : ℕ → System
cpus_created n = record {
  cpus = λ c. record { c_curthread = c; c_isidle = false; c_runqueue = []; c_zombies = [] };
  wc_threads = λ _. [];
  t_state = λ _. s_ready;
  t_cpu = λ t. t;
  threads = n;
  destroyed = [];
}
