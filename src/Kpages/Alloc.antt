-- ===== src/Kpages/Alloc.antt =====
-- What `alloc_kpages` does to the map, and that `free_kpages` undoes it.
use ms_projects.Common.{
  ℕ, zero, suc, ◌+◌, ◌-◌, ◌^◌, ◌≤◌, ◌<◌, ◌≡◌, refl, sym, ap, subst, ◌∙◌, ◌⊎◌, inl, inr, Bool, true,
  ◌&&◌, Option, none, some, List, [], ◌∷◌, ◌++◌, arith, ltb, leb, if◌then◌else◌, length, get_elem?,
  replicate, take, drop, update_from, get_elem?-drop, length-drop, get_elem?-update_from,
  update_from-split, update_from-append, take-append-drop, length-take, Option-cases,
}
use ms_projects.Coremap.{
  CmEntry, Coremap, free_entry, chunk_entry, mark_run, clear_run, getindex, indextopaddr, getpaddr,
  addtocoremap, removefromcoremap,
}
use ms_projects.Coremap.Search.{
  is_free, FreeRun, FirstFit, IsPlaced, getpaddr-Found, getindex-indextopaddr,
}
use ms_projects.Coremap.Chunks.{next_cnt, clear_run-replicate, clear_run_stops}
use ms_projects.Kpages.{alloc_kpages, free_kpages, paddr_to_kvaddr, kvaddr_to_paddr}

get_elem?-mark_run :
    (n : ℕ) (v : CmEntry) (es : List CmEntry) (k : ℕ)
    → n ≤ length es
    → get_elem? (mark_run n v es) k ≡ (if ltb k n then some v else get_elem? es k)
unfolding mark_run
get_elem?-mark_run zero v es k h = ground arith
get_elem?-mark_run (suc n) v [] k h = absurd (omega arith)
get_elem?-mark_run (suc n) v (e ∷ es) zero h = ground arith
get_elem?-mark_run (suc n) v (e ∷ es) (suc k) h =
    ground (arith, get_elem?-mark_run n v es k (omega arith))

-- The entry of frame `k` after an allocation of `npages` frames from `index` on.
abbrev pub entry_after : Coremap → ℕ → ℕ → Bool → ℕ → Option CmEntry
entry_after cm index npages kern k =
    if leb index k && ltb k (index + npages)
    then some (chunk_entry npages kern)
    else get_elem? cm.cells k

-- `addtocoremap` writes the frames of the chunk, and no other.
pub addtocoremap_entries :
    (cm : Coremap) (index npages : ℕ) (kern : Bool)
    → IsPlaced cm
    → index + npages ≤ cm.cm_entries
    → 0 < npages
    → (k : ℕ)
    → get_elem? (addtocoremap cm (indextopaddr cm index) npages kern).cells k
      ≡ entry_after cm index npages kern k
unfolding addtocoremap
addtocoremap_entries cm index npages kern p h pos k =
    ap (λ (t : ℕ). get_elem? (update_from t (mark_run npages (chunk_entry npages kern)) cm.cells) k)
      (getindex-indextopaddr {i = index} p (omega arith)).1
    ∙ get_elem?-update_from index (mark_run npages (chunk_entry npages kern)) cm.cells k
        (omega (arith, p.stored))
    ∙ ground (
      arith,
      get_elem?-mark_run npages (chunk_entry npages kern) (drop index cm.cells) (k - index),
      length-drop index cm.cells,
      get_elem?-drop index cm.cells (k - index),
      p.stored,
      ap (get_elem? cm.cells) (back k),
    )
  where
    back : (k : ℕ) → index + (k - index) ≡ (if ltb k index then index else k)
    back k = ground arith

-- What `alloc_kpages` may do.
abbrev pub Allocates : Coremap → ℕ → Coremap × ℕ → Type 0
Allocates cm npages (cm', vaddr) =
    ((vaddr ≡ 0) × (cm' ≡ cm) × FirstFit cm.cells npages cm.cm_entries none)
    ⊎ ((index : ℕ) × (vaddr ≡ paddr_to_kvaddr (indextopaddr cm index))
        × (cm' ≡ addtocoremap cm (indextopaddr cm index) npages true)
        × FirstFit cm.cells npages cm.cm_entries (some index)
        × ((k : ℕ) → get_elem? cm'.cells k ≡ entry_after cm index npages true k))

-- `alloc_kpages` returns 0 and changes nothing when no `npages` consecutive frames are free;
-- otherwise it returns the kernel address of the first such frames, marks these as one kernel chunk,
-- and leaves every other entry as it was.
pub alloc_kpages-Allocates :
    (cm : Coremap) (npages : ℕ)
    → IsPlaced cm
    → 0 < npages
    → Allocates cm npages (alloc_kpages cm npages)
unfolding alloc_kpages
alloc_kpages-Allocates cm npages p h = elim (getpaddr-Found cm npages p h) [
  | inl (zero_addr, none_fits) ↦
      subst (Allocates cm npages) (sym (refused zero_addr)) (inl (refl, refl, none_fits))
  | inr (index, at, pos, fits) ↦
      subst (Allocates cm npages) (sym (granted index at pos))
        (inr (index, refl, refl, fits, addtocoremap_entries cm index npages true p fits.0 h))
]
  where
    refused : getpaddr cm npages ≡ 0 → alloc_kpages cm npages ≡ (cm, 0)
    refused e = rw e

    granted :
        (index : ℕ)
        → getpaddr cm npages ≡ indextopaddr cm index
        → 0 < getpaddr cm npages
        → alloc_kpages cm npages ≡ (
          addtocoremap cm (indextopaddr cm index) npages true,
          paddr_to_kvaddr (indextopaddr cm index),
        )
    granted index e pos = ground arith

-- A frame that is free has a clear entry.
abbrev pub IsTidy : Coremap → Type 0
IsTidy cm =
    (k : ℕ) (e : CmEntry)
    → get_elem? cm.cells k ≡ some e
    → is_free cm.cells k ≡ true
    → e ≡ free_entry

run-split :
    (n : ℕ) (es : List CmEntry)
    → ((k : ℕ) → k < n → get_elem? es k ≡ some free_entry)
    → es ≡ replicate n free_entry ++ drop n es
run-split zero es h = refl
run-split (suc n) [] h = cc (h 0 (omega arith))
run-split (suc n) (e ∷ es) h =
    let first : e ≡ free_entry = ground (arith, h 0 (omega arith)) in
    rw first (ap (λ t. free_entry ∷ t) (run-split n es (λ k lt. h (suc k) (omega arith))))

mark_run-replicate :
    (n : ℕ) (v w : CmEntry) (rest : List CmEntry)
    → mark_run n v (replicate n w ++ rest) ≡ replicate n v ++ rest
unfolding mark_run
mark_run-replicate zero v w rest = refl
mark_run-replicate (suc n) v w rest = ap (λ t. v ∷ t) (mark_run-replicate n v w rest)

module _ {cm : Coremap} {index npages : ℕ} (kern : Bool) (p : IsPlaced cm) (tidy : IsTidy cm)
    (fits : index + npages ≤ cm.cm_entries) (run : FreeRun cm.cells index npages) (pos : 0 < npages)
    (small : npages < 2 ^ 17) where
  free_at : (k : ℕ) → is_free cm.cells k ≡ true → get_elem? cm.cells k ≡ some free_entry
  free_at k f = elim (Option-cases (get_elem? cm.cells k)) [
    | inl e ↦ ground arith
    | inr (v, e) ↦ e ∙ ap some (tidy k v e f)
  ]

  at_index : getindex cm (indextopaddr cm index) ≡ index
  at_index = (getindex-indextopaddr {i = index} p (omega arith)).1

  abbrev beyond : List CmEntry
  beyond = drop npages (drop index cm.cells)

  drop-split : drop index cm.cells ≡ replicate npages free_entry ++ beyond
  drop-split = run-split npages (drop index cm.cells) clear
    where
      clear : (k : ℕ) → k < npages → get_elem? (drop index cm.cells) k ≡ some free_entry
      clear k lt =
          get_elem?-drop index cm.cells k
          ∙ free_at (index + k) (run (index + k) (omega arith) (omega arith))

  cells-marked :
      (addtocoremap cm (indextopaddr cm index) npages kern).cells
      ≡ take index cm.cells ++ (replicate npages (chunk_entry npages kern) ++ beyond)
  unfolding addtocoremap
  cells-marked =
      ap (λ (t : ℕ). update_from t (mark_run npages (chunk_entry npages kern)) cm.cells) at_index
      ∙ update_from-split index (mark_run npages (chunk_entry npages kern)) cm.cells
          (omega (arith, p.stored))
      ∙ ap (λ t. take index cm.cells ++ mark_run npages (chunk_entry npages kern) t) drop-split
      ∙ ap (λ t. take index cm.cells ++ t)
          (mark_run-replicate npages (chunk_entry npages kern) free_entry beyond)

  cells-cleared :
      next_cnt beyond ≤ npages
      → update_from index
          (clear_run 0)
          (take index cm.cells ++ (replicate npages (chunk_entry npages kern) ++ beyond))
        ≡ cm.cells
  cells-cleared h =
      update_from-append (take index cm.cells) _ index (clear_run 0)
        (sym (length-take index cm.cells (omega (arith, p.stored))))
      ∙ ap (λ t. take index cm.cells ++ t)
          (clear_run-replicate npages 0 npages (chunk_entry npages kern) beyond (omega arith)
              (omega arith)
            ∙ ap (λ t. replicate npages free_entry ++ t)
                (clear_run_stops (0 + npages) beyond (omega arith))
            ∙ sym drop-split)
      ∙ take-append-drop index cm.cells

  -- Frames that are taken and given back at once leave the map as it was, unless a longer chunk
  -- follows them.
  pub removefromcoremap-addtocoremap :
      next_cnt beyond ≤ npages
      → removefromcoremap
          (addtocoremap cm (indextopaddr cm index) npages kern)
          (indextopaddr cm index)
        ≡ cm
  unfolding removefromcoremap addtocoremap
  removefromcoremap-addtocoremap h =
      ap (λ t. let c : Coremap = record cm { cells = t } in c)
        (ap
            (λ (t : ℕ).
              update_from t (clear_run 0)
                (addtocoremap cm (indextopaddr cm index) npages kern).cells)
            at_index
          ∙ ap (update_from index (clear_run 0)) cells-marked
          ∙ cells-cleared h)

-- `free_kpages` of what `alloc_kpages` has just returned restores the map, if the frames behind the
-- block are free or belong to a block of at most as many pages.
pub free_kpages-alloc_kpages :
    (cm : Coremap) (npages : ℕ)
    → IsPlaced cm
    → IsTidy cm
    → 0 < npages
    → npages < 2 ^ 17
    → 0 < (alloc_kpages cm npages).1
    → ((index : ℕ)
        → index + npages ≤ cm.cm_entries
        → (alloc_kpages cm npages).1 ≡ paddr_to_kvaddr (indextopaddr cm index)
        → next_cnt (drop npages (drop index cm.cells)) ≤ npages)
    → free_kpages (alloc_kpages cm npages).0 (alloc_kpages cm npages).1 ≡ cm
unfolding free_kpages
free_kpages-alloc_kpages cm npages p tidy h small got after =
    elim (alloc_kpages-Allocates cm npages p h) [
      | inl (none_left, _, _) ↦ absurd (omega (arith, none_left, got))
      | inr (index, ve, ce, fits, _) ↦
          ap (λ t. removefromcoremap t (kvaddr_to_paddr (alloc_kpages cm npages).1)) ce
          ∙ ap (removefromcoremap (addtocoremap cm (indextopaddr cm index) npages true))
              (ap kvaddr_to_paddr ve ∙ back index (omega (arith, fits.0)))
          ∙ removefromcoremap-addtocoremap true p tidy fits.0 fits.1 h small (after index fits.0 ve)
    ]
  where
    back :
        (index : ℕ)
        → index < cm.cm_entries
        → kvaddr_to_paddr (paddr_to_kvaddr (indextopaddr cm index)) ≡ indextopaddr cm index
    back index lt = omega (arith, (getindex-indextopaddr {i = index} p lt).0, p.fits)
