-- ===== src/FileTable/History.antt =====
-- Histories of calls on the file tables, each of which runs to its end before the next begins. The table of
-- a new thread is empty, though thread_create of kern/thread/thread.c does not clear it.
use ms_projects.Common.{
  ℕ, ◌+◌, ◌*◌, ◌<◌, ◌≡◌, sym, subst, ◌∙◌, inl, inr, ◌≢◌, Option, none, some, arith, Option-cases,
}
use ms_projects.Common.Int.{ℤ}
use ms_projects.FileTable.{
  FileHandle, Files, Result, failed, OpenEnv, IoEnv, SeekEnv, set, slot, open_max, sys_close,
  sys_dup2, sys_open, moved_bytes, sys_transfer, seek_handle, sys_lseek, copy_table, close_table,
}
use ms_projects.FileTable.References.{WellFormed, pointers_start, installed-WellFormed}
use ms_projects.FileTable.Calls.{Kept, sys_close-Kept, sys_dup2-Kept, on_handle-Kept, slot_lt}
use ms_projects.FileTable.Tables.{close_table-Leaves, copy_table-Leaves}
use ms_projects.FileTable.Opening.{OpenSpec, sys_open-OpenSpec, OpenSpec-WellFormed}

moved_bytes-references :
    (env : IoEnv) (buflen : ℕ) (hd : FileHandle)
    → (moved_bytes env buflen hd).1.references ≡ hd.references
unfolding moved_bytes
moved_bytes-references env buflen hd = ground arith

seek_handle-references :
    (env : SeekEnv) (pos whence : ℕ) (hd : FileHandle)
    → (seek_handle env pos whence hd).1.references ≡ hd.references
unfolding seek_handle
seek_handle-references env pos whence hd = ground arith

module _ {threads : ℕ} {st : Files} (wf : WellFormed (threads * open_max) st) (thread : ℕ)
    (lt : thread < threads) where
  pub sys_transfer-Kept :
      (env : IoEnv) (fd : ℤ) (buflen : ℕ)
      → Kept (threads * open_max) (sys_transfer env thread fd buflen st)
  unfolding sys_transfer
  sys_transfer-Kept env fd buflen = elim (Option-cases env.checked) [
    | inr (code, e) ↦ (failed code, st, ground (arith, e), wf)
    | inl e ↦
        let (r, st', same, wf') =
          on_handle-Kept wf thread lt fd (moved_bytes env buflen)
            (moved_bytes-references env buflen) in
        (r, st', ground (arith, e, same), wf')
  ]

  pub sys_lseek-Kept :
      (env : SeekEnv) (fd : ℤ) (pos whence : ℕ)
      → Kept (threads * open_max) (sys_lseek env thread fd pos whence st)
  unfolding sys_lseek
  sys_lseek-Kept env fd pos whence =
      on_handle-Kept wf thread lt fd (seek_handle env pos whence)
        (seek_handle-references env pos whence)

-- One call by one of `threads` threads.
pub data Call (threads : ℕ) (st : Files) : Files → Type 0 where
  -- `kmalloc` gives an address that is not in use.
  opens :
      (thread : ℕ) (env : OpenEnv) (flag : ℕ) {r : Result} {st' : Files}
      → thread < threads
      → ((p : ℕ) → env.new_handle ≡ some p → st.handles p ≡ none)
      → sys_open env thread flag st ≡ (r, st')
      → Call threads st st'
  closes :
      (thread : ℕ) (fd : ℤ) {r : Result} {st' : Files}
      → thread < threads
      → sys_close thread fd st ≡ some (r, st')
      → Call threads st st'
  dups :
      (thread : ℕ) (oldfd newfd : ℤ) {r : Result} {st' : Files}
      → thread < threads
      → sys_dup2 thread oldfd newfd st ≡ some (r, st')
      → Call threads st st'
  transfers :
      (thread : ℕ) (env : IoEnv) (fd : ℤ) (buflen : ℕ) {r : Result} {st' : Files}
      → thread < threads
      → sys_transfer env thread fd buflen st ≡ some (r, st')
      → Call threads st st'
  seeks :
      (thread : ℕ) (env : SeekEnv) (fd : ℤ) (position whence : ℕ) {r : Result} {st' : Files}
      → thread < threads
      → sys_lseek env thread fd position whence st ≡ some (r, st')
      → Call threads st st'
  -- One file of `init_filetable`, in the table of a new thread.
  consoles :
      (thread fd p : ℕ) (hd : FileHandle)
      → thread < threads
      → fd < open_max
      → st.fd_table (slot thread fd) ≡ none
      → st.handles p ≡ none
      → hd.references ≡ 1
      → Call threads st (record {
        handles = set st.handles p (some hd);
        fd_table = set st.fd_table (slot thread fd) (some p);
        opens = st.opens + 1;
      })
  forks :
      (parent child : ℕ) {st' : Files}
      → parent < threads
      → child < threads
      → parent ≢ child
      → ((fd : ℕ) → fd < open_max → st.fd_table (slot child fd) ≡ none)
      → copy_table parent child open_max st ≡ some st'
      → Call threads st st'
  exits :
      (thread : ℕ) {st' : Files}
      → thread < threads
      → close_table thread open_max st ≡ some st'
      → Call threads st st'

pub data Reach (threads : ℕ) : Files → Type 0 where
  start : Reach threads (record { handles = λ _. none; fd_table = λ _. none; opens = 0 })
  later : {st st' : Files} → Reach threads st → Call threads st st' → Reach threads st'

same_state :
    {n : ℕ} {r r' : Result} {st₁ st₂ : Files} {o : Option (Result × Files)}
    → o ≡ some (r, st₁)
    → o ≡ some (r', st₂)
    → WellFormed n st₁
    → WellFormed n st₂
same_state {n} {st₁} {st₂} a b wf = subst (WellFormed n) (second (sym a ∙ b)) wf
  where
    second :
        {r r' : Result} {x y : Files}
        → ◌≡◌ {A = Option (Result × Files)} (some (r, x)) (some (r', y))
        → x ≡ y
    second e = cc

same_files :
    {n : ℕ} {st₁ st₂ : Files} {o : Option Files}
    → o ≡ some st₁
    → o ≡ some st₂
    → WellFormed n st₁
    → WellFormed n st₂
same_files {n} a b wf = subst (WellFormed n) (only (sym a ∙ b)) wf
  where
    only : {x y : Files} → ◌≡◌ {A = Option Files} (some x) (some y) → x ≡ y
    only e = cc

Call-WellFormed :
    {threads : ℕ} {st st' : Files}
    → Call threads st st'
    → WellFormed (threads * open_max) st
    → WellFormed (threads * open_max) st'
Call-WellFormed {st} {st'} (opens thread env flag {r} lt fresh e) wf =
    OpenSpec-WellFormed wf env thread flag lt fresh r
      (subst (OpenSpec env thread flag st) e (sys_open-OpenSpec env thread flag st))
Call-WellFormed (closes thread fd lt e) wf =
    let (r, st₁, same, wf') = sys_close-Kept wf thread lt fd in same_state same e wf'
Call-WellFormed (dups thread oldfd newfd lt e) wf =
    let (r, st₁, same, wf') = sys_dup2-Kept wf thread lt oldfd newfd in same_state same e wf'
Call-WellFormed (transfers thread env fd buflen lt e) wf =
    let (r, st₁, same, wf') = sys_transfer-Kept wf thread lt env fd buflen in same_state same e wf'
Call-WellFormed (seeks thread env fd position whence lt e) wf =
    let (r, st₁, same, wf') = sys_lseek-Kept wf thread lt env fd position whence in
    same_state same e wf'
Call-WellFormed {threads} {st} (consoles thread fd p hd lt below empty free one) wf =
    installed-WellFormed wf (slot thread fd) p hd (st.opens + 1)
      (slot_lt threads thread fd lt below) empty free one
Call-WellFormed (forks parent child lt lt' ne empty e) wf =
    let (st₁, same, wf', t) =
      copy_table-Leaves wf parent child lt lt' ne empty open_max (omega arith) in
    same_files same e wf'
Call-WellFormed (exits thread lt e) wf =
    let (st₁, same, wf', t) = close_table-Leaves wf thread lt open_max (omega arith) in
    same_files same e wf'

-- In every history, from empty tables on, of calls by any number of threads, forks and exits among them, of
-- which each runs to its end before the next begins, every handle has as many references as descriptors
-- point to it, and no descriptor points to a handle that has been freed.
pub Reach-WellFormed :
    {threads : ℕ} {st : Files} → Reach threads st → WellFormed (threads * open_max) st
Reach-WellFormed {threads} start = record {
  counted = pointers_start (threads * open_max);
  held = λ h hd e. cc;
}
Reach-WellFormed (later r call) = Call-WellFormed call (Reach-WellFormed r)
