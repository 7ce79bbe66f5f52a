-- ===== src/FileTable/Sharing.antt =====
-- Descriptors that share a handle, and the offset in it.
use ms_projects.Common.{
  ℕ, ◌+◌, ◌-◌, ◌*◌, ◌%◌, ◌^◌, ◌≤◌, ◌<◌, ◌≡◌, refl, sym, ap, subst, ◌∙◌, ◌⊎◌, inl, inr, ◌≢◌, true,
  false, not, ◌||◌, ◌&&◌, Option, none, some, arith, ltb, leb, Bool-cases, ℕ_discrete,
}
use ms_projects.Common.Int.{ℤ, lt_pos, to_nat}
use ms_projects.Common.Words.{u32}
use ms_projects.Common.Errno.{Errno, ebadf, espipe, einval}
use ms_projects.FileTable.{
  FileHandle, Files, Result, returns, failed, SeekEnv, slot, open_max, bad_fd, sys_dup2, is_console,
  seek_to, seek_handle, copy_table, close_table,
}
use ms_projects.FileTable.References.{WellFormed, pointers-ext, references_of}
use ms_projects.FileTable.Calls.{replace-Leaves, valid_pair, slot_lt}
use ms_projects.FileTable.Tables.{without, with_copy, close_table-Leaves, copy_table-Leaves}

-- The outcomes of `sys_dup2`: an error that changes nothing, or the new descriptor, which has the
-- handle of the old one, while all other slots are as they were.
abbrev pub DupSpec : ℕ → ℤ → ℤ → Files → Option (Result × Files) → Type 0
DupSpec thread oldfd newfd st none = ⊥
DupSpec thread oldfd newfd st (some (failed code, st')) = st' ≡ st
DupSpec thread oldfd newfd st (some (returns fd, st')) =
    (fd ≡ to_nat newfd)
    × (st.fd_table (slot thread (to_nat oldfd)) ≢ none)
    × (st'.fd_table (slot thread fd) ≡ st.fd_table (slot thread (to_nat oldfd)))
    × ((i : ℕ) → i ≢ slot thread fd → st'.fd_table i ≡ st.fd_table i)

-- In a well-formed state, `sys_dup2` comes back with an error that changes nothing, or makes the new
-- descriptor point to the handle of the old one and leaves every other descriptor as it was.
pub sys_dup2-DupSpec :
    {threads : ℕ} {st : Files}
    → WellFormed (threads * open_max) st
    → (thread : ℕ) → thread < threads
    → (oldfd newfd : ℤ) → DupSpec thread oldfd newfd st (sys_dup2 thread oldfd newfd st)
unfolding sys_dup2
sys_dup2-DupSpec {threads} {st} wf thread lt oldfd newfd =
    elim (Bool-cases (lt_pos newfd 0 || not (lt_pos newfd open_max) || bad_fd thread oldfd st)) [
      | inl bad ↦
          subst (DupSpec thread oldfd newfd st) {x = some (failed ebadf, st)} (ground (arith, bad))
            refl
      | inr good ↦
          let (below, below', used) = valid_pair thread oldfd newfd st good in
          elim (ℕ_discrete (to_nat oldfd) (to_nat newfd)) [
            | yes same ↦
                subst (DupSpec thread oldfd newfd st) {x = some (returns (to_nat newfd), st)}
                  (ground (arith, good, same))
                  (refl, used, ap (λ fd. st.fd_table (slot thread fd)) (sym same), λ i ne. refl)
            | no other ↦
                let (st', e, wf', t) =
                  replace-Leaves wf thread lt (slot thread (to_nat oldfd))
                    (slot thread (to_nat newfd)) (slot_lt threads thread (to_nat oldfd) lt below)
                    (slot_lt threads thread (to_nat newfd) lt below')
                    (λ same. other (omega (arith, same))) in
                subst (DupSpec thread oldfd newfd st) {x = some (returns (to_nat newfd), st')}
                  (ground (arith, good, other, e))
                  (
                    refl,
                    used,
                    t (slot thread (to_nat newfd)) ∙ ground arith,
                    λ i ne. t i ∙ ground arith,
                  )
          ]
    ]

-- The offset that is asked for, in 64 bits: from the start, from the present offset, or from the end.
abbrev pub Target : SeekEnv → ℕ → ℕ → FileHandle → ℕ → Type 0
Target env pos whence hd target =
    (whence ≡ 0 → target ≡ pos)
    × (whence ≡ 1 → target ≡ (hd.offset + pos) % 2 ^ 64)
    × (whence ≡ 2 → target ≡ (env.file_size + pos) % 2 ^ 64)

-- The handle that a call leaves: with the offset that was asked for, or as it was.
abbrev pub Moved : SeekEnv → ℕ → ℕ → FileHandle → FileHandle → Type 0
Moved env pos whence hd hd' =
    (target : ℕ) × Target env pos whence hd target × (hd' ≡ record hd { offset = target })

-- The outcomes of `sys_lseek` on a handle, each with the condition under which it comes.
abbrev pub SeekSpec : SeekEnv → ℕ → ℕ → FileHandle → Result × FileHandle → Type 0
SeekSpec env pos whence hd (result, hd') =
    (is_console hd.filename ≡ true → (result ≡ failed espipe) × (hd' ≡ hd))
    × (is_console hd.filename ≡ false
        → (2 < whence) ⊎ (2 ^ 63 ≤ pos)
        → (result ≡ failed einval) × (hd' ≡ hd))
    × (is_console hd.filename ≡ false
        → whence ≤ 2
        → pos < 2 ^ 63
        → (code : Errno) → env.size_stat ≡ some code
        → (result ≡ failed code) × (hd' ≡ hd))
    × (is_console hd.filename ≡ false
        → whence ≤ 2
        → pos < 2 ^ 63
        → env.size_stat ≡ none
        → (code : Errno) → env.tryseek ≡ some code
        → (result ≡ failed code) × Moved env pos whence hd hd')
    × (is_console hd.filename ≡ false
        → whence ≤ 2
        → pos < 2 ^ 63
        → env.size_stat ≡ none
        → env.tryseek ≡ none
        → (result ≡ returns (u32 hd'.offset)) × Moved env pos whence hd hd')

seek_to-Target :
    (env : SeekEnv) (pos whence : ℕ) (hd : FileHandle)
    → Target env pos whence hd (seek_to env pos whence hd)
unfolding seek_to
seek_to-Target env pos whence hd =
    (λ e. ground (arith, e), λ e. ground (arith, e), λ e. ground (arith, e))

-- Every outcome of `sys_lseek` on the handle of its descriptor: on the console `ESPIPE`; for a bad
-- `whence` or a position of 2^63 or more, one that is negative as `off_t`, `EINVAL`; the error of
-- `VOP_STAT`; each of them with the handle as it was. Otherwise the offset moves to the position, to
-- the old offset plus the position or to the size of the file plus the position, modulo 2^64, and its
-- low 32 bits are returned; where `VOP_TRYSEEK` refuses the new offset, its error is returned and the
-- handle has the new offset all the same.
pub seek_handle-SeekSpec :
    (env : SeekEnv) (pos whence : ℕ) (hd : FileHandle)
    → SeekSpec env pos whence hd (seek_handle env pos whence hd)
unfolding seek_handle
seek_handle-SeekSpec env pos whence hd = (
  λ c. (ground (arith, c), ground (arith, c)),
  refused,
  λ c w p code e. (ground (arith, c, w, p, e), ground (arith, c, w, p, e)),
  λ c w p e code e'. (
    ground (arith, c, w, p, e, e'),
    (seek_to env pos whence hd, seek_to-Target env pos whence hd, ground (arith, c, w, p, e, e')),
  ),
  λ c w p e e'. (
    ground (arith, c, w, p, e, e'),
    (seek_to env pos whence hd, seek_to-Target env pos whence hd, ground (arith, c, w, p, e, e')),
  ),
)
  where
    refused :
        is_console hd.filename ≡ false
        → (2 < whence) ⊎ (2 ^ 63 ≤ pos)
        → ((seek_handle env pos whence hd).0 ≡ failed einval)
          × ((seek_handle env pos whence hd).1 ≡ hd)
    refused c (inl w) = (ground (arith, c, w), ground (arith, c, w))
    refused c (inr p) = (ground (arith, c, p), ground (arith, c, p))

-- Forking and exit of the child: the descriptors and the references are as they were.
abbrev pub Restored : ℕ → Files → Option Files → Type 0
Restored n st none = ⊥
Restored n st (some st') =
    ((i : ℕ) → st'.fd_table i ≡ st.fd_table i)
    × ((h : ℕ) → references_of (st'.handles h) ≡ references_of (st.handles h))

-- In a well-formed state, where a thread forks a child whose file table was empty and the child then
-- exits, every descriptor and every count of references is as before the fork.
pub close_table-copy_table :
    {threads : ℕ} {st : Files}
    → WellFormed (threads * open_max) st
    → (parent child : ℕ) → parent < threads
    → child < threads
    → parent ≢ child
    → ((fd : ℕ) → fd < open_max → st.fd_table (slot child fd) ≡ none)
    → (st₁ : Files) × (copy_table parent child open_max st ≡ some st₁)
      × Restored (threads * open_max) st (close_table child open_max st₁)
close_table-copy_table {threads} {st} wf parent child lt lt' ne empty =
    let (st₁, e₁, wf₁, t₁) =
      copy_table-Leaves wf parent child lt lt' ne empty open_max (omega arith) in
    let (st₂, e₂, wf₂, t₂) = close_table-Leaves wf₁ child lt' open_max (omega arith) in
    let same : (i : ℕ) → st₂.fd_table i ≡ st.fd_table i = λ i. t₂ i ∙ back st₁.fd_table i (t₁ i) in
    (
      st₁,
      e₁,
      subst (Restored (threads * open_max) st) {x = some st₂} (sym e₂) (
        same,
        λ h. omega (
          arith,
          wf.counted h,
          wf₂.counted h,
          pointers-ext (threads * open_max) st₂.fd_table st.fd_table h (λ i below. same i),
        ),
      ),
    )
  where
    back :
        (t : ℕ → Option ℕ) (i : ℕ)
        → t i ≡ with_copy parent child open_max st.fd_table i
        → without child open_max t i ≡ st.fd_table i
    back t i e = elim (Bool-cases (leb (slot child 0) i && ltb i (slot child open_max))) [
      | inl inside ↦ ground (arith, inside, ap st.fd_table (place inside), empty (i - slot child 0))
      | inr outside ↦ ground (arith, outside, e)
    ]
      where
        place :
            (leb (slot child 0) i && ltb i (slot child open_max)) ≡ true
            → i ≡ slot child (i - slot child 0)
        place inside = ground arith
