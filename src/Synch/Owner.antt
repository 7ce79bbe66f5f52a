-- ===== src/Synch/Owner.antt =====
-- A lock among any number of threads: one holder, and no wake-up is lost.
use ms_projects.Common.{
  ℕ, ◌<◌, ◌≡◌, refl, sym, ◌∙◌, subst, ◌≢◌, ◌⊎◌, inl, inr, Bool, true, false, Option, none, List, [],
  ◌∷◌, ◌++◌, arith, ◌==◌, if◌then◌else◌, length, length-append,
}
use ms_projects.Synch.{Lock, lock_do_i_hold, acquire_round, lock_acquire, lock_release}

-- The lock, the threads woken that have not tested for the owner again, and the threads that have
-- come back from `lock_acquire` and have not called `lock_release` since.
pub record LockSystem : Type 0 where
  pub lock : Lock
  pub woken : List ℕ
  pub inside : ℕ → Bool

abbrev pub mark : (ℕ → Bool) → ℕ → Bool → ℕ → Bool
mark f t b i = if t == i then b else f i

pub data Step (s : LockSystem) : LockSystem → Type 0 where
  acquires :
      (thread : ℕ) {lock' : Lock}
      → lock_acquire thread s.lock ≡ (true, lock')
      → Step s (record s { lock = lock'; inside = mark s.inside thread true })
  sleeps :
      (thread : ℕ) {lock' : Lock}
      → lock_acquire thread s.lock ≡ (false, lock')
      → Step s (record s { lock = lock' })
  retry_acquires :
      (xs ys : List ℕ) (thread : ℕ) {lock' : Lock}
      → s.woken ≡ xs ++ (thread ∷ ys)
      → acquire_round thread s.lock ≡ (true, lock')
      → Step s (record { lock = lock'; woken = xs ++ ys; inside = mark s.inside thread true })
  retry_sleeps :
      (xs ys : List ℕ) (thread : ℕ) {lock' : Lock}
      → s.woken ≡ xs ++ (thread ∷ ys)
      → acquire_round thread s.lock ≡ (false, lock')
      → Step s (record s { lock = lock'; woken = xs ++ ys })
  -- Any thread may call it, also one that does not hold the lock.
  releases :
      (thread : ℕ) {ts : List ℕ} {lock' : Lock}
      → lock_release thread s.lock ≡ (ts, lock')
      → Step s (record { lock = lock'; woken = s.woken ++ ts; inside = mark s.inside thread false })

pub data Reach : LockSystem → Type 0 where
  start : Reach (record {
    lock = record { owner_thread = none; lk_wchan = [] };
    woken = [];
    inside = λ _. false;
  })
  later : {s t : LockSystem} → Reach s → Step s t → Reach t

-- The threads inside are the owner; and where threads sleep on a free lock, one that has been woken
-- will test for it.
pub record Inv (s : LockSystem) : Type 0 where
  pub owned : (i : ℕ) → s.inside i ≡ lock_do_i_hold i s.lock
  pub none_lost : (s.lock.lk_wchan ≡ []) ⊎ ((s.lock.owner_thread ≢ none) ⊎ (0 < length s.woken))

abbrev Released : ℕ → Lock → List ℕ × Lock → Type 0
Released thread lk (ts, lk') =
    ((lock_do_i_hold thread lk ≡ false) × (ts ≡ []) × (lk' ≡ lk))
    ⊎ ((lock_do_i_hold thread lk ≡ true)
        × (lk'.owner_thread ≡ none)
        × ((lk'.lk_wchan ≡ []) ⊎ (length ts ≡ 1)))

lock_release-Released :
    (thread : ℕ) (o : Option ℕ) (wc : List ℕ)
    → let lk : Lock = record { owner_thread = o; lk_wchan = wc } in
      Released thread lk (lock_release thread lk)
unfolding lock_release
lock_release-Released thread o [] = ground arith
lock_release-Released thread o (t ∷ wc) = ground arith

Step-Inv : {s t : LockSystem} → Step s t → Inv s → Inv t
unfolding lock_acquire
Step-Inv (acquires thread e) v = record {
  owned = λ i. ground (arith, v.owned i, v.owned thread);
  none_lost = ground arith;
}
Step-Inv (sleeps thread e) v = record {
  owned = λ i. ground (arith, v.owned i);
  none_lost = ground arith;
}
Step-Inv (retry_acquires xs ys thread w e) v = record {
  owned = λ i. ground (arith, v.owned i);
  none_lost = ground arith;
}
Step-Inv (retry_sleeps xs ys thread w e) v = record {
  owned = λ i. ground (arith, v.owned i);
  none_lost = ground arith;
}
Step-Inv {s} (releases thread {ts} {lock'} e) v = released (
    subst (Released thread s.lock) e
      (lock_release-Released thread s.lock.owner_thread s.lock.lk_wchan))
  where
    released :
        Released thread s.lock (ts, lock')
        → Inv (record { lock = lock'; woken = s.woken ++ ts; inside = mark s.inside thread false })
    released (inl (no_owner, none_woken, same)) = record {
      owned = λ i. ground (arith, v.owned i, v.owned thread);
      none_lost = ground (arith, length-append s.woken ts);
    }
    released (inr (holds, free, wakes)) = record {
      owned = λ i. ground (arith, v.owned i);
      none_lost = ground (arith, length-append s.woken ts);
    }

start_unowned : (i : ℕ) → false ≡ lock_do_i_hold i (record { owner_thread = none; lk_wchan = [] })
unfolding lock_do_i_hold
start_unowned i = refl

one_owner : (lk : Lock) (i j : ℕ) → lock_do_i_hold i lk ≡ true → lock_do_i_hold j lk ≡ true → i ≡ j
unfolding lock_do_i_hold
one_owner lk i j a b = ground arith

Reach-Inv : {s : LockSystem} → Reach s → Inv s
Reach-Inv start = record { owned = start_unowned; none_lost = inl refl }
Reach-Inv (later r st) = Step-Inv st (Reach-Inv r)

-- However the threads are scheduled, and whoever calls `lock_release`, no two threads are between
-- `lock_acquire` and `lock_release`.
pub lock_mutual_exclusion :
    {s : LockSystem} → Reach s → (i j : ℕ) → s.inside i ≡ true → s.inside j ≡ true → i ≡ j
lock_mutual_exclusion {s} r i j in_i in_j =
    let v = Reach-Inv r in one_owner s.lock i j (sym (v.owned i) ∙ in_i) (sym (v.owned j) ∙ in_j)

-- However the threads are scheduled, where threads sleep on the lock and nobody owns it, a thread
-- has been woken that has yet to test for the owner.
pub lock_none_lost :
    {s : LockSystem}
    → Reach s
    → s.lock.owner_thread ≡ none
    → s.lock.lk_wchan ≢ []
    → 0 < length s.woken
lock_none_lost r free sleepers = let v = Reach-Inv r in ground (arith, v.none_lost)
