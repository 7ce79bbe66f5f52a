-- ===== src/FileTable/Tables.antt =====
-- The loops of `thread_fork` and `thread_exit` over a whole file table.
use ms_projects.Common.{
  ℕ, zero, suc, ◌-◌, ◌*◌, ◌≤◌, ◌<◌, ◌≡◌, refl, ap, ◌∙◌, ◌≢◌, ◌&&◌, Option, none, arith,
  if◌then◌else◌, ltb, leb, ℕ_discrete,
}
use ms_projects.FileTable.{Files, set, slot, open_max, copy_table, close_table}
use ms_projects.FileTable.References.{WellFormed}
use ms_projects.FileTable.Calls.{Leaves, close_slot-Leaves, share-Leaves, slot_lt}

-- The tables with the first `k` slots of a thread empty, and with those of `child` taken from `parent`.
abbrev pub without : ℕ → ℕ → (ℕ → Option ℕ) → ℕ → Option ℕ
without thread k table i = if leb (slot thread 0) i && ltb i (slot thread k) then none else table i

abbrev pub with_copy : ℕ → ℕ → ℕ → (ℕ → Option ℕ) → ℕ → Option ℕ
with_copy parent child k table i =
    if leb (slot child 0) i && ltb i (slot child k)
    then table (slot parent (i - slot child 0))
    else table i

module _ {threads : ℕ} {st : Files} (wf : WellFormed (threads * open_max) st) where
  pub close_table-Leaves :
      (thread : ℕ)
      → thread < threads
      → (k : ℕ) → k ≤ open_max
      → Leaves (threads * open_max) (without thread k st.fd_table) (close_table thread k st)
  unfolding close_table
  close_table-Leaves thread lt zero le = (st, refl, wf, λ i. ground arith)
  close_table-Leaves thread lt (suc k) le =
      let (st₁, e₁, wf₁, t₁) = close_table-Leaves thread lt k (omega arith) in
      let (st₂, e₂, wf₂, t₂) =
        close_slot-Leaves wf₁ (slot thread k) (slot_lt threads thread k lt (omega arith)) in
      (st₂, ground (arith, e₁, e₂), wf₂, λ i. ground (arith, t₁ i, t₂ i))

  pub copy_table-Leaves :
      (parent child : ℕ)
      → parent < threads
      → child < threads
      → parent ≢ child
      → ((fd : ℕ) → fd < open_max → st.fd_table (slot child fd) ≡ none)
      → (k : ℕ) → k ≤ open_max
      → Leaves
          (threads * open_max)
          (with_copy parent child k st.fd_table)
          (copy_table parent child k st)
  unfolding copy_table
  copy_table-Leaves parent child lt lt' ne empty zero le = (st, refl, wf, λ i. ground arith)
  copy_table-Leaves parent child lt lt' ne empty (suc k) le =
      let (st₁, e₁, wf₁, t₁) = copy_table-Leaves parent child lt lt' ne empty k (omega arith) in
      let (st₂, e₂, wf₂, t₂) =
        share-Leaves wf₁ (slot parent k) (slot child k) (slot_lt threads parent k lt (omega arith))
          (slot_lt threads child k lt' (omega arith))
          (t₁ (slot child k) ∙ ground (arith, empty k)) in
      (
        st₂,
        ground (arith, e₁, e₂),
        wf₂,
        λ i. t₂ i ∙ extended st₁.fd_table i (t₁ i) (t₁ (slot parent k)),
      )
    where
      extended :
          (t : ℕ → Option ℕ) (i : ℕ)
          → t i ≡ with_copy parent child k st.fd_table i
          → t (slot parent k) ≡ with_copy parent child k st.fd_table (slot parent k)
          → set t (slot child k) (t (slot parent k)) i
            ≡ with_copy parent child (suc k) st.fd_table i
      extended t i a b = elim (ℕ_discrete i (slot child k)) [
        | yes last ↦ ground (arith, b, ap (λ x. st.fd_table (slot parent x)) (index last))
        | no other ↦ ground (arith, a)
      ]
        where
          index : i ≡ slot child k → i - slot child 0 ≡ k
          index e = omega arith
