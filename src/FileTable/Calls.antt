-- ===== src/FileTable/Calls.antt =====
-- Every call on the file tables is defined in a well-formed state and keeps it so.
use ms_projects.Common.{
  ℕ, ◌*◌, ◌<◌, ◌≡◌, ◌∙◌, inl, inr, ◌≢◌, false, not, ◌||◌, Option, none, some, arith, Option-cases,
  Bool-cases, ℕ_discrete,
}
use ms_projects.Common.Int.{ℤ, pos, negsuc, lt_pos, to_nat}
use ms_projects.Common.Errno.{ebadf}
use ms_projects.FileTable.{
  FileHandle, Files, Result, returns, failed, set, slot, set_handle, open_max, released, close_slot,
  share, bad_fd, sys_close, replace, sys_dup2, on_handle,
}
use ms_projects.FileTable.References.{
  WellFormed, slot_handle, released-WellFormed, shared-WellFormed, cleared-WellFormed,
  kept-WellFormed,
}

-- The call is defined, keeps the state well-formed, and leaves the table `table`.
abbrev pub Leaves : ℕ → (ℕ → Option ℕ) → Option Files → Type 0
Leaves n table o =
    (st' : Files) × (o ≡ some st') × WellFormed n st' × ((i : ℕ) → st'.fd_table i ≡ table i)

pub close_slot-Leaves :
    {n : ℕ} {st : Files}
    → WellFormed n st
    → (s : ℕ) → s < n
    → Leaves n (set st.fd_table s none) (close_slot s st)
unfolding close_slot released
close_slot-Leaves {n} {st} wf s lt = elim (Option-cases (st.fd_table s)) [
  | inl e ↦ (st, ground (arith, e), wf, λ i. ground (arith, e))
  | inr (p, e) ↦
      let (hd, there) = slot_handle wf s p lt e in
      (
        released s p hd st,
        ground (arith, e, there),
        released-WellFormed wf s p hd lt e there,
        released_table s p hd st,
      )
]
  where
    released_table :
        (s p : ℕ) (hd : FileHandle) (st : Files) (i : ℕ)
        → (released s p hd st).fd_table i ≡ set st.fd_table s none i
    released_table s p hd st i = ground arith

pub share-Leaves :
    {n : ℕ} {st : Files}
    → WellFormed n st
    → (from to : ℕ) → from < n
    → to < n
    → st.fd_table to ≡ none
    → Leaves n (set st.fd_table to (st.fd_table from)) (share from to st)
unfolding share
share-Leaves {n} {st} wf from to lt lt' empty = elim (Option-cases (st.fd_table from)) [
  | inl e ↦ (_, ground (arith, e), cleared-WellFormed wf to lt' empty, λ i. ground (arith, e))
  | inr (p, e) ↦
      let (hd, there) = slot_handle wf from p lt e in
      (
        _,
        ground (arith, e, there),
        shared-WellFormed wf to p hd lt' empty there,
        λ i. ground (arith, e),
      )
]

pub slot_lt :
    (threads thread fd : ℕ) → thread < threads → fd < open_max → slot thread fd < threads * open_max
slot_lt threads thread fd lt lt' = omega arith

pub bad_fd-lt :
    (thread : ℕ) (fd : ℤ) (st : Files)
    → bad_fd thread fd st ≡ false
    → (to_nat fd < open_max) × (st.fd_table (slot thread (to_nat fd)) ≢ none)
unfolding bad_fd
bad_fd-lt thread (pos m) st e = ground arith
bad_fd-lt thread (negsuc m) st e = cc

-- The test of `sys_dup2`.
pub valid_pair :
    (thread : ℕ) (oldfd newfd : ℤ) (st : Files)
    → (lt_pos newfd 0 || not (lt_pos newfd open_max) || bad_fd thread oldfd st) ≡ false
    → (to_nat oldfd < open_max)
      × (to_nat newfd < open_max)
      × (st.fd_table (slot thread (to_nat oldfd)) ≢ none)
unfolding bad_fd
valid_pair thread (pos m) (pos k) st e = ground arith
valid_pair thread (negsuc m) (pos k) st e = ground arith
valid_pair thread oldfd (negsuc k) st e = cc

-- The call is defined and keeps the state well-formed.
abbrev pub Kept : ℕ → Option (Result × Files) → Type 0
Kept n o = (r : Result) × (st' : Files) × (o ≡ some (r, st')) × WellFormed n st'

module _ {threads : ℕ} {st : Files} (wf : WellFormed (threads * open_max) st) (thread : ℕ)
    (lt : thread < threads) where
  pub sys_close-Kept : (fd : ℤ) → Kept (threads * open_max) (sys_close thread fd st)
  unfolding sys_close
  sys_close-Kept fd = elim (Bool-cases (bad_fd thread fd st)) [
    | inl bad ↦ (failed ebadf, st, ground (arith, bad), wf)
    | inr good ↦
        let (below, used) = bad_fd-lt thread fd st good in
        let (st', e, wf', t) =
          close_slot-Leaves wf (slot thread (to_nat fd))
            (slot_lt threads thread (to_nat fd) lt below) in
        (returns 0, st', ground (arith, good, e), wf')
  ]

  pub on_handle-Kept :
      (fd : ℤ) (f : FileHandle → Result × FileHandle)
      → ((hd : FileHandle) → (f hd).1.references ≡ hd.references)
      → Kept (threads * open_max) (on_handle thread fd f st)
  unfolding on_handle
  on_handle-Kept fd f same = elim (Bool-cases (bad_fd thread fd st)) [
    | inl bad ↦ (failed ebadf, st, ground (arith, bad), wf)
    | inr good ↦
        let (below, used) = bad_fd-lt thread fd st good in
        elim (Option-cases (st.fd_table (slot thread (to_nat fd)))) [
          | inl e ↦ absurd (used e)
          | inr (p, e) ↦
              let (hd, there) =
                slot_handle wf (slot thread (to_nat fd)) p
                  (slot_lt threads thread (to_nat fd) lt below) e in
              (
                (f hd).0,
                set_handle st p (f hd).1,
                ground (arith, good, e, there),
                kept-WellFormed wf p hd (f hd).1 there (same hd),
              )
        ]
  ]

  -- Another slot takes over the handle of `from`, and gives up its own.
  pub replace-Leaves :
      (from to : ℕ)
      → from < threads * open_max
      → to < threads * open_max
      → from ≢ to
      → Leaves (threads * open_max) (set st.fd_table to (st.fd_table from)) (replace from to st)
  unfolding replace
  replace-Leaves from to lt lt' ne =
      let (st₁, e₁, wf₁, t₁) = close_slot-Leaves wf to lt' in
      let (st₂, e₂, wf₂, t₂) = share-Leaves wf₁ from to lt lt' (t₁ to ∙ ground arith) in
      (st₂, ground (arith, e₁, e₂), wf₂, λ i. ground (arith, t₁ i, t₂ i, t₁ from))

  pub sys_dup2-Kept : (oldfd newfd : ℤ) → Kept (threads * open_max) (sys_dup2 thread oldfd newfd st)
  unfolding sys_dup2
  sys_dup2-Kept oldfd newfd =
      elim (Bool-cases (lt_pos newfd 0 || not (lt_pos newfd open_max) || bad_fd thread oldfd st)) [
        | inl bad ↦ (failed ebadf, st, ground (arith, bad), wf)
        | inr good ↦
            let (below, below', used) = valid_pair thread oldfd newfd st good in
            elim (ℕ_discrete (to_nat oldfd) (to_nat newfd)) [
              | yes same ↦ (returns (to_nat newfd), st, ground (arith, good, same), wf)
              | no other ↦
                  let (st', e, wf', t) =
                    replace-Leaves (slot thread (to_nat oldfd)) (slot thread (to_nat newfd))
                      (slot_lt threads thread (to_nat oldfd) lt below)
                      (slot_lt threads thread (to_nat newfd) lt below')
                      (λ same. other (omega (arith, same))) in
                  (returns (to_nat newfd), st', ground (arith, good, other, e), wf')
            ]
      ]
