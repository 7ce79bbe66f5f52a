-- ===== src/Process/Slots.antt =====
-- The entries of the process table, and which entry `pid_alloc` finds.
use ms_projects.Common.{
  ℕ, zero, suc, ◌+◌, ◌≤◌, ◌<◌, ◌≡◌, refl, ◌≢◌, inl, inr, Option, none, List, arith, ◌==◌,
  if◌then◌else◌, length, set, get_elem?-set, Option-cases, ℕ_discrete, eq→==, ne→==,
}
use ms_projects.Process.{
  Process, ProcState, proc_max, pid_max, entry, free_index, PidResult, index, table_full, pids_used,
  pid_alloc,
}

pub entry-set :
    (t : List (Option Process)) (i j : ℕ) (p : Option Process)
    → i < length t
    → entry (set t i p) j ≡ (if i == j then p else entry t j)
entry-set t i j p h = ground (arith, get_elem?-set t i j p h)

pub entry-set_self :
    (t : List (Option Process)) (i : ℕ) (p : Option Process)
    → i < length t
    → entry (set t i p) i ≡ p
entry-set_self t i p h = ground (arith, entry-set t i i p h)

free_index_lem :
    (n i : ℕ) (t : List (Option Process))
    → (i ≤ free_index n i t)
      × (free_index n i t ≤ i + n)
      × (free_index n i t < i + n → entry t (free_index n i t) ≡ none)
      × ((j : ℕ) → i ≤ j → j < free_index n i t → entry t j ≢ none)
unfolding free_index
free_index_lem zero i t =
    (omega arith, omega arith, λ h. absurd (omega arith), λ j lo hi. absurd (omega arith))
free_index_lem (suc n) i t = elim (Option-cases (entry t i)) [
  | inl e ↦ rw (e, free_index) (omega arith, omega arith, λ _. e, λ j lo hi. absurd (omega arith))
  | inr (p, e) ↦
      let rest = free_index_lem n (i + 1) t in
      rw (e, free_index)
        (
          omega arith,
          omega arith,
          λ h. rest.2 (omega arith),
          λ j lo hi. elim (ℕ_discrete i j) [
            | yes same ↦ λ none_here. cc
            | no other ↦ rest.3 j (omega arith) hi
          ],
        )
]

-- What `pid_alloc` may answer.
abbrev pub AllocSpec : ProcState → PidResult × ProcState → Type 0
AllocSpec s (index i, s') =
    (0 < i)
    × (i < proc_max)
    × (entry s.process_table i ≡ none)
    × ((j : ℕ) → 0 < j → j < i → entry s.process_table j ≢ none)
    × (s' ≡ record s { pid_counter = s.pid_counter + 1 })
    × (s'.pid_counter ≢ pid_max)
AllocSpec s (table_full, s') =
    ((j : ℕ) → 0 < j → j < proc_max → entry s.process_table j ≢ none) × (s' ≡ s)
AllocSpec s (pids_used, s') =
    (s' ≡ record s { pid_counter = s.pid_counter + 1 }) × (s'.pid_counter ≡ pid_max)

-- `pid_alloc` returns the first free entry from 1 on and counts one more pid; it returns -1, and
-- changes nothing, when every entry from 1 on is taken; it returns -2 when the count has come to
-- `__PID_MAX`.
pub pid_alloc-AllocSpec : (s : ProcState) → AllocSpec s (pid_alloc s)
unfolding pid_alloc
pid_alloc-AllocSpec s =
    let spec = free_index_lem 99 1 s.process_table in
    elim (ℕ_discrete (free_index 99 1 s.process_table) 100) [
      | yes e ↦ rw (e, pid_alloc) (λ j lo hi. spec.3 j lo (omega arith), refl)
      | no ne ↦ elim (ℕ_discrete (s.pid_counter + 1) pid_max) [
        | yes last ↦ rw (ne→== _ _ ne, eq→== _ _ last, pid_alloc) (refl, last)
        | no fresh ↦
            rw (ne→== _ _ ne, ne→== _ _ fresh, pid_alloc)
              (
                spec.0,
                omega (arith, spec),
                spec.2 (omega (arith, spec)),
                λ j lo hi. spec.3 j lo hi,
                refl,
                fresh,
              )
      ]
    ]
