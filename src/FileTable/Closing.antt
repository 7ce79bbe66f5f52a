-- ===== src/FileTable/Closing.antt =====
-- When a file is closed: with the last slot that points to its handle.
use ms_projects.Common.{
  ℕ, ◌+◌, ◌-◌, ◌<◌, ◌≡◌, ap, subst, ◌≢◌, Option, none, some, arith, ℕ_discrete,
}
use ms_projects.FileTable.{FileHandle, Files, set, released, close_slot}
use ms_projects.FileTable.References.{
  WellFormed, points, pointers, pointers-set, points_le, references_of, slot_handle, points_self,
  pointers_none,
}

-- Closing the slot `s`, which points to `p`, in a table of `n` slots.
abbrev pub ClosesLast : ℕ → ℕ → ℕ → Files → Option Files → Type 0
ClosesLast n s p st none = ⊥
ClosesLast n s p st (some st') =
    (((i : ℕ) × (i < n) × (i ≢ s) × (st.fd_table i ≡ some p))
      → (st'.opens ≡ st.opens) × (st'.handles p ≢ none))
    × (((i : ℕ) → i < n → i ≢ s → st.fd_table i ≢ some p)
        → (st'.opens ≡ st.opens - 1) × (st'.handles p ≡ none))
    × ((h : ℕ) → h ≢ p → st'.handles h ≡ st.handles h)

-- In a well-formed state, closing a slot closes the file exactly when no other slot points to its
-- handle: with another one the file stays open and the handle stays; otherwise the file is closed and
-- the handle is gone. No other handle changes.
pub close_slot-ClosesLast :
    {n : ℕ} {st : Files}
    → WellFormed n st
    → (s p : ℕ) → s < n
    → st.fd_table s ≡ some p
    → ClosesLast n s p st (close_slot s st)
unfolding close_slot released
close_slot-ClosesLast {n} {st} wf s p lt e =
    let (hd, there) = slot_handle wf s p lt e in
    subst (ClosesLast n s p st) {x = some (released s p hd st)} (ground (arith, e, there))
      (closes hd there)
  where
    left : ℕ
    left = pointers n (set st.fd_table s none) p

    removed : left + 1 ≡ pointers n st.fd_table p
    removed =
        omega (arith, pointers-set n st.fd_table s none p lt, ap (λ o. points o p) e, points_self p)

    references : (hd : FileHandle) → st.handles p ≡ some hd → hd.references ≡ left + 1
    references hd there = omega (arith, removed, wf.counted p, ap references_of there)

    another : ((i : ℕ) × (i < n) × (i ≢ s) × (st.fd_table i ≡ some p)) → 0 < left
    another (i, lt', ne, e') = omega (
      arith,
      points_le n (set st.fd_table s none) i p lt',
      ap (λ o. points o p) here,
      points_self p,
    )
      where
        here : set st.fd_table s none i ≡ some p
        here = ground arith

    no_other : ((i : ℕ) → i < n → i ≢ s → st.fd_table i ≢ some p) → left ≡ 0
    no_other h = pointers_none n (set st.fd_table s none) p (λ i lt' e'. elim (ℕ_discrete i s) [
      | yes same ↦ ground arith
      | no other ↦ ground (arith, h i lt' other)
    ])

    closes :
        (hd : FileHandle) → st.handles p ≡ some hd → ClosesLast n s p st (some (released s p hd st))
    closes hd there = (
      λ o. ground (arith, another o, references hd there),
      λ h. ground (arith, no_other h, references hd there),
      λ h ne. ground arith,
    )
