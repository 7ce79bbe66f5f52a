-- ===== src/FileTable/Opening.antt =====
-- `sys_open`: every outcome.
use ms_projects.Common.{
  ℕ, zero, suc, ◌+◌, ◌*◌, ◌≤◌, ◌<◌, ◌≡◌, refl, sym, ap, subst, ◌⊎◌, inl, inr, ◌≢◌, Bool, true,
  false, Option, none, some, arith, if◌then◌else◌, ℕ_discrete, ◌==◌, ltb, length,
}
use ms_projects.Common.Errno.{Errno, enfile, enomem, efault, enametoolong}
use ms_projects.FileTable.{
  FileHandle, Files, Result, returns, failed, OpenEnv, set, slot, open_max, free_slot, o_append,
  path_max, open_file, sys_open,
}
use ms_projects.FileTable.References.{WellFormed, installed-WellFormed, recounted-WellFormed}
use ms_projects.FileTable.Calls.{slot_lt}

-- What the search finds among the `n` slots from `i` on.
abbrev Searched : ℕ → ℕ → ℕ → (ℕ → Option ℕ) → Option ℕ → Type 0
Searched thread n i table none = (fd : ℕ) → i ≤ fd → fd < i + n → table (slot thread fd) ≢ none
Searched thread n i table (some index) =
    (i ≤ index)
    × (index < i + n)
    × (table (slot thread index) ≡ none)
    × ((fd : ℕ) → i ≤ fd → fd < index → table (slot thread fd) ≢ none)

free_slot-Searched :
    (thread n i : ℕ) (table : ℕ → Option ℕ) → Searched thread n i table (free_slot thread n i table)
unfolding free_slot
free_slot-Searched thread zero i table = λ fd a b. absurd (omega arith)
free_slot-Searched thread (suc n) i table =
    at_slot (table (slot thread i)) refl (free_slot thread n (i + 1) table)
      (free_slot-Searched thread n (i + 1) table)
  where
    past :
        (fd p : ℕ)
        → table (slot thread i) ≡ some p
        → i ≤ fd
        → (i + 1 ≤ fd → table (slot thread fd) ≢ none)
        → table (slot thread fd) ≢ none
    past fd p e a later = elim (ℕ_discrete fd i) [
      | yes here ↦ ground (arith, ap (λ x. table (slot thread x)) here)
      | no other ↦ later (omega arith)
    ]

    at_slot :
        (o : Option ℕ)
        → table (slot thread i) ≡ o
        → (rest : Option ℕ) → Searched thread n (i + 1) table rest
        → Searched thread (suc n) i table (elim o [ none ↦ some i | some _ ↦ rest ])
    at_slot none e rest s = (omega arith, omega arith, e, λ fd a b. absurd (omega arith))
    at_slot (some p) e none s = λ fd a b. past fd p e a (λ a'. s fd a' (omega arith))
    at_slot (some p) e (some index) (a, b, c, d) =
        (omega arith, omega arith, c, λ fd x y. past fd p e x (λ x'. d fd x' y))

-- The handle that `sys_open` makes.
abbrev pub opened_handle : OpenEnv → ℕ → FileHandle
opened_handle env flag = record {
  filename = env.dest;
  flags = flag;
  offset = if flag == o_append then env.st_size else 0;
  references = 1;
  vnode = env.new_vnode;
}

-- The outcomes: a new handle at the lowest free descriptor; an error that changes nothing; or, with
-- the flags O_APPEND alone, the error of `VOP_STAT`, with the file left open and no handle to it.
abbrev pub OpenSpec : OpenEnv → ℕ → ℕ → Files → Result × Files → Type 0
OpenSpec env thread flag st (returns fd, st') =
    (p : ℕ) × (env.new_handle ≡ some p)
    × (fd < open_max)
    × (st.fd_table (slot thread fd) ≡ none)
    × ((i : ℕ) → i < fd → st.fd_table (slot thread i) ≢ none)
    × (st' ≡ record {
      handles = set st.handles p (some (opened_handle env flag));
      fd_table = set st.fd_table (slot thread fd) (some p);
      opens = st.opens + 1;
    })
OpenSpec env thread flag st (failed code, st') =
    (st' ≡ st)
    ⊎ ((flag ≡ o_append) × (env.stat ≡ some code) × (st' ≡ record st { opens = st.opens + 1 }))

open_file-OpenSpec :
    (env : OpenEnv) (thread flag index p : ℕ) (st : Files)
    → env.new_handle ≡ some p
    → index < open_max
    → st.fd_table (slot thread index) ≡ none
    → ((i : ℕ) → i < index → st.fd_table (slot thread i) ≢ none)
    → OpenSpec env thread flag st (open_file env thread flag index p st)
unfolding open_file
open_file-OpenSpec env thread flag index p st e lt empty lower = by_opened env.opened
  where
    installed : Files
    installed = record {
      handles = set st.handles p (some (opened_handle env flag));
      fd_table = set st.fd_table (slot thread index) (some p);
      opens = st.opens + 1;
    }

    by_stat :
        (b : Bool) (s : Option Errno)
        → (flag == o_append) ≡ b
        → env.stat ≡ s
        → OpenSpec env thread flag st (
            if b
            then (elim s [
              | some code ↦ (failed code, record st { opens = st.opens + 1 })
              | none ↦ (returns index, installed)
            ])
            else (returns index, installed))
    by_stat false s a b = (p, e, lt, empty, lower, refl)
    by_stat true none a b = (p, e, lt, empty, lower, refl)
    by_stat true (some code) a b = inr (ground arith, b, refl)

    by_opened :
        (o : Option Errno)
        → OpenSpec env thread flag st (elim o [
          | some code ↦ (failed code, st)
          | none ↦
              if flag == o_append
              then (elim env.stat [
                | some code ↦ (failed code, record st { opens = st.opens + 1 })
                | none ↦ (returns index, installed)
              ])
              else (returns index, installed)
        ])
    by_opened (some code) = inl refl
    by_opened none = by_stat (flag == o_append) env.stat refl refl

-- Every outcome of `sys_open`: a new handle of one reference at the lowest free descriptor; an error
-- that changes nothing; or, with the flags O_APPEND alone, the error of `VOP_STAT`, with the file left
-- open and no handle to it.
pub sys_open-OpenSpec :
    (env : OpenEnv) (thread flag : ℕ) (st : Files)
    → OpenSpec env thread flag st (sys_open env thread flag st)
unfolding sys_open
sys_open-OpenSpec env thread flag st = by_name env.null_name env.copied
  where
    by_lock :
        (lock : Bool) (index p : ℕ)
        → env.new_handle ≡ some p
        → Searched thread open_max 0 st.fd_table (some index)
        → OpenSpec env thread flag st
            (if lock then open_file env thread flag index p st else (failed enomem, st))
    by_lock false index p e s = inl refl
    by_lock true index p e (a, b, c, d) =
        open_file-OpenSpec env thread flag index p st e (omega arith) c
          (λ i lt. d i (omega arith) lt)

    by_handle :
        (o : Option ℕ) (index : ℕ)
        → env.new_handle ≡ o
        → Searched thread open_max 0 st.fd_table (some index)
        → OpenSpec env thread flag st (elim o [
          | none ↦ (failed enomem, st)
          | some p ↦
              if env.lock_created then open_file env thread flag index p st else (failed enomem, st)
        ])
    by_handle none index e s = inl refl
    by_handle (some p) index e s = by_lock env.lock_created index p e s

    by_slot :
        (o : Option ℕ)
        → Searched thread open_max 0 st.fd_table o
        → OpenSpec env thread flag st (elim o [
          | none ↦ (failed enfile, st)
          | some index ↦ elim env.new_handle [
            | none ↦ (failed enomem, st)
            | some p ↦
                if env.lock_created
                then open_file env thread flag index p st
                else (failed enomem, st)
          ]
        ])
    by_slot none s = inl refl
    by_slot (some index) s = by_handle env.new_handle index refl s

    by_length :
        (b : Bool)
        → OpenSpec env thread flag st (
            if b
            then (failed enametoolong, st)
            else (elim (free_slot thread open_max 0 st.fd_table) [
              | none ↦ (failed enfile, st)
              | some index ↦ elim env.new_handle [
                | none ↦ (failed enomem, st)
                | some p ↦
                    if env.lock_created
                    then open_file env thread flag index p st
                    else (failed enomem, st)
              ]
            ]))
    by_length true = inl refl
    by_length false =
        by_slot (free_slot thread open_max 0 st.fd_table)
          (free_slot-Searched thread open_max 0 st.fd_table)

    by_name :
        (b : Bool) (o : Option Errno)
        → OpenSpec env thread flag st (
            if b then (failed efault, st) else (elim o [
              | some code ↦ (failed code, st)
              | none ↦
                  if ltb path_max (length env.dest)
                  then (failed enametoolong, st)
                  else (elim (free_slot thread open_max 0 st.fd_table) [
                    | none ↦ (failed enfile, st)
                    | some index ↦ elim env.new_handle [
                      | none ↦ (failed enomem, st)
                      | some p ↦
                          if env.lock_created
                          then open_file env thread flag index p st
                          else (failed enomem, st)
                    ]
                  ])
            ]))
    by_name true o = inl refl
    by_name false (some code) = inl refl
    by_name false none = by_length (ltb path_max (length env.dest))

-- `sys_open` keeps the references right.
pub OpenSpec-WellFormed :
    {threads : ℕ} {st st' : Files}
    → WellFormed (threads * open_max) st
    → (env : OpenEnv) (thread flag : ℕ) → thread < threads
    → ((p : ℕ) → env.new_handle ≡ some p → st.handles p ≡ none)
    → (r : Result) → OpenSpec env thread flag st (r, st')
    → WellFormed (threads * open_max) st'
OpenSpec-WellFormed {threads} {st} {st'} wf env thread flag lt fresh (returns fd)
      (p, e, below, empty, lower, same) =
    subst (WellFormed (threads * open_max)) (sym same) (
      installed-WellFormed wf (slot thread fd) p (opened_handle env flag) (st.opens + 1)
        (slot_lt threads thread fd lt below) empty (fresh p e) refl)
OpenSpec-WellFormed {threads} wf env thread flag lt fresh (failed code) (inl same) =
    subst (WellFormed (threads * open_max)) (sym same) wf
OpenSpec-WellFormed {threads} {st} wf env thread flag lt fresh (failed code) (inr (a, b, same)) =
    subst (WellFormed (threads * open_max)) (sym same) (recounted-WellFormed wf (st.opens + 1))
