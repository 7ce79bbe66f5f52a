-- ===== src/Synch/Signals.antt =====
-- Condition variables: `cv_wait`, `cv_signal` and `cv_broadcast` with the lock that goes with them.
use ms_projects.Common.{
  ℕ, ◌≡◌, refl, sym, subst, ◌∙◌, ◌≢◌, ◌⊎◌, inl, inr, Bool, true, false, ◌||◌, Option, none, some,
  List, [], ◌∷◌, arith, ◌==◌, if◌then◌else◌,
}
use ms_projects.Synch.{Wchan, wchan_sleep, wchan_wakeone, wchan_wakeall}

-- Where a thread stands.
pub data Pc : Type 0 where
  outside : Pc
  -- It has the lock, and does not hold the spinlock of the variable.
  holding : Pc
  -- `cv_wait`: behind `spinlock_acquire(&mycv->cv_spinlock)`; behind `lock_release(mylock)`.
  spinning : Pc
  released : Pc
  -- Between `wchan_lock` and the end of `wchan_sleep` no other thread gets at the channel.
  asleep : Pc
  -- Made runnable, before its `lock_acquire(mylock)`.
  woken : Pc

-- `struct cv`, the owner of the lock, and the threads.
pub record CvSystem : Type 0 where
  pub cv_wchan : Wchan
  pub cv_spinlock : Option ℕ
  pub owner : Option ℕ
  pub pc : ℕ → Pc

abbrev pub at : (ℕ → Pc) → ℕ → Pc → ℕ → Pc
at pc i p j = if i == j then p else pc j

-- The threads of a list become runnable.
abbrev pub wake : List ℕ → (ℕ → Pc) → ℕ → Pc
wake [] pc = pc
wake (t ∷ ts) pc = at (wake ts pc) t woken

-- `cv_signal` and `cv_broadcast` take neither the spinlock nor a look at the lock.
unfoldable pub cv_signal : CvSystem → CvSystem
unfolding wchan_wakeone
cv_signal s =
    let (ts, wc) = wchan_wakeone s.cv_wchan in record s { cv_wchan = wc; pc = wake ts s.pc }

unfoldable pub cv_broadcast : CvSystem → CvSystem
unfolding wchan_wakeall
cv_broadcast s =
    let (ts, wc) = wchan_wakeall s.cv_wchan in record s { cv_wchan = wc; pc = wake ts s.pc }

abbrev pub contains : List ℕ → ℕ → Bool
contains [] i = false
contains (t ∷ ts) i = t == i || contains ts i

pub data Step (s : CvSystem) : CvSystem → Type 0 where
  lock :
      (i : ℕ)
      → (s.pc i ≡ outside) ⊎ (s.pc i ≡ woken)
      → s.owner ≡ none
      → Step s (record s { owner = some i; pc = at s.pc i holding })
  unlock : (i : ℕ) → s.pc i ≡ holding → Step s (record s { owner = none; pc = at s.pc i outside })
  wait_spinlock :
      (i : ℕ)
      → s.pc i ≡ holding
      → s.cv_spinlock ≡ none
      → Step s (record s { cv_spinlock = some i; pc = at s.pc i spinning })
  wait_release :
      (i : ℕ) → s.pc i ≡ spinning → Step s (record s { owner = none; pc = at s.pc i released })
  wait_sleep :
      (i : ℕ)
      → s.pc i ≡ released
      → Step s (record s {
        cv_spinlock = none;
        cv_wchan = wchan_sleep i s.cv_wchan;
        pc = at s.pc i asleep;
      })
  signal : (i : ℕ) → s.pc i ≡ holding → Step s (cv_signal s)
  broadcast : (i : ℕ) → s.pc i ≡ holding → Step s (cv_broadcast s)

pub data Steps (s : CvSystem) : CvSystem → Type 0 where
  here : Steps s s
  next : {t u : CvSystem} → Steps s t → Step t u → Steps s u

-- The program counters that own the lock.
abbrev pub owns : Pc → Bool
owns holding = true
owns spinning = true
owns _ = false

abbrev pub is_asleep : Pc → Bool
is_asleep asleep = true
is_asleep _ = false

-- A thread that has the lock is its owner.
abbrev pub Owned : CvSystem → Type 0
Owned s = (i : ℕ) → owns (s.pc i) ≡ true → s.owner ≡ some i

wake-owns : (ts : List ℕ) (pc : ℕ → Pc) (i : ℕ) → owns (wake ts pc i) ≡ true → owns (pc i) ≡ true
wake-owns [] pc i h = h
wake-owns (t ∷ ts) pc i h = ground (arith, wake-owns ts pc i)

Step-Owned : {s t : CvSystem} → Step s t → Owned s → Owned t
unfolding cv_signal cv_broadcast
Step-Owned (lock i p e) v j h = ground (arith, v j)
Step-Owned (unlock i p) v j h = ground (arith, v j, v i)
Step-Owned (wait_spinlock i p e) v j h = ground (arith, v j, v i)
Step-Owned (wait_release i p) v j h = ground (arith, v j, v i)
Step-Owned (wait_sleep i p) v j h = ground (arith, v j)
Step-Owned {s} (signal i p) v j h = v j (wake-owns (wchan_wakeone s.cv_wchan).0 s.pc j h)
Step-Owned {s} (broadcast i p) v j h = v j (wake-owns (wchan_wakeall s.cv_wchan).0 s.pc j h)

wake_all :
    (ts : List ℕ) (pc : ℕ → Pc) (i : ℕ) → wake ts pc i ≡ (if contains ts i then woken else pc i)
wake_all [] pc i = refl
wake_all (t ∷ ts) pc i = ground (arith, wake_all ts pc i)

run : {s t : CvSystem} → Steps s t → Owned s → Owned t
run here v = v
run (next r st) v = Step-Owned st (run r v)

-- Whatever the threads do with a condition variable, a thread that is back from `cv_wait`, or calls
-- it, has the lock, and no other thread has it.
pub cv_one_holder :
    {s t : CvSystem}
    → Owned s
    → Steps s t
    → (i j : ℕ) → owns (t.pc i) ≡ true
    → owns (t.pc j) ≡ true
    → i ≡ j
cv_one_holder v st i j a b = same (sym (run st v i a) ∙ run st v j b)
  where
    same : {x y : ℕ} → ◌≡◌ {A = Option ℕ} (some x) (some y) → x ≡ y
    same e = cc

-- `cv_signal` wakes the thread that has slept longest and takes it off the channel, and changes no
-- other thread; on an empty channel it changes nothing.
pub cv_signal_longest :
    (s : CvSystem)
    → ((s.cv_wchan ≡ []) × (cv_signal s ≡ s))
      ⊎ ((t : ℕ) × (wc : Wchan) × (s.cv_wchan ≡ t ∷ wc)
          × ((cv_signal s).cv_wchan ≡ wc)
          × ((cv_signal s).pc t ≡ woken)
          × ((i : ℕ) → i ≢ t → (cv_signal s).pc i ≡ s.pc i))
unfolding cv_signal
cv_signal_longest s = on_channel s.cv_wchan s.cv_spinlock s.owner s.pc
  where
    on_channel :
        (wc : Wchan) (sl o : Option ℕ) (pc : ℕ → Pc)
        → let s : CvSystem = record { cv_wchan = wc; cv_spinlock = sl; owner = o; pc = pc } in
          ((wc ≡ []) × (cv_signal s ≡ s))
          ⊎ ((t : ℕ) × (rest : Wchan) × (wc ≡ t ∷ rest)
              × ((cv_signal s).cv_wchan ≡ rest)
              × ((cv_signal s).pc t ≡ woken)
              × ((i : ℕ) → i ≢ t → (cv_signal s).pc i ≡ pc i))
    on_channel [] sl o pc = inl (refl, refl)
    on_channel (t ∷ wc) sl o pc = inr (t, wc, refl, refl, ground arith, λ i h. ground arith)

-- `cv_broadcast` wakes every thread on the channel, leaves it empty, and changes no other thread.
pub cv_broadcast_all :
    (s : CvSystem)
    → ((cv_broadcast s).cv_wchan ≡ [])
      × ((i : ℕ) → (cv_broadcast s).pc i ≡ (if contains s.cv_wchan i then woken else s.pc i))
unfolding cv_broadcast
cv_broadcast_all s = (refl, wake_all s.cv_wchan s.pc)

-- A signal that is lost: `i` has called `cv_wait` and given up the lock; `j` then gets the lock and
-- signals; and `i` sleeps on with nobody left that is to wake it.
pub record SignalLost (i j : ℕ) (s : CvSystem) : Type 0 where
  pub before : CvSystem
  pub after : CvSystem
  pub waits : Steps s before
  pub waiting : before.pc i ≡ released
  pub signaller : before.pc j ≡ holding
  pub goes_on : Steps (cv_signal before) after
  pub sleeps : (after.pc i ≡ asleep) × (after.cv_wchan ≡ i ∷ []) × (after.owner ≡ none)
  pub others : (k : ℕ) → k ≢ i → after.pc k ≡ s.pc k

cv_signal-empty : (s : CvSystem) → s.cv_wchan ≡ [] → cv_signal s ≡ s
unfolding cv_signal
cv_signal-empty s e = ground arith

-- The window of `cv_wait` between `lock_release` and `wchan_lock`: from every state in which `i` has
-- the lock, nobody sleeps on the variable and another thread `j` is outside, there is a run that
-- loses the signal of `j`.
pub cv_wait_loses_signal :
    (s : CvSystem) (i j : ℕ)
    → i ≢ j
    → s.pc i ≡ holding
    → s.pc j ≡ outside
    → s.owner ≡ some i
    → s.cv_spinlock ≡ none
    → s.cv_wchan ≡ []
    → SignalLost i j s
cv_wait_loses_signal s i j ne hi hj ho hs hc = record {
  before = before;
  after = after;
  waits =
      next (next (next here (wait_spinlock i hi hs)) (wait_release i (ground arith)))
        (lock j (inl (ground arith)) refl);
  waiting = ground arith;
  signaller = ground arith;
  goes_on =
      subst (λ t. Steps t after) (sym (cv_signal-empty before hc))
        (next (next here (unlock j (ground arith))) (wait_sleep i (ground arith)));
  sleeps = ground arith;
  others = λ k h. ground arith;
}
  where
    spinning_at : CvSystem
    spinning_at = record s { cv_spinlock = some i; pc = at s.pc i spinning }

    released_at : CvSystem
    released_at = record spinning_at { owner = none; pc = at spinning_at.pc i released }

    before : CvSystem
    before = record released_at { owner = some j; pc = at released_at.pc j holding }

    unlocked : CvSystem
    unlocked = record before { owner = none; pc = at before.pc j outside }

    after : CvSystem
    after = record unlocked {
      cv_spinlock = none;
      cv_wchan = wchan_sleep i unlocked.cv_wchan;
      pc = at unlocked.pc i asleep;
    }
