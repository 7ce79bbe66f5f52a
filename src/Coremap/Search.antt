-- ===== src/Coremap/Search.antt =====
-- `getpaddr` searches first-fit: what its loop finds, and when it finds nothing.
use ms_projects.Common.{
  ℕ, zero, suc, ◌+◌, ◌-◌, ◌*◌, ◌%◌, ◌^◌, ◌≤◌, ◌<◌, ◌≡◌, refl, sym, ap, subst, ◌∙◌, ◌≢◌, ◌⊎◌, inl,
  inr, Bool, true, false, not, Option, none, some, List, [], ◌∷◌, arith, ◌==◌, if◌then◌else◌,
  length, get_elem?, Bool-cases, ==_iff, dec_lt, ℕ_discrete,
}
use ms_projects.Common.Words.{add32, sub32}
use ms_projects.Coremap.{CmEntry, Coremap, page_size, find_run, getpaddr, indextopaddr, getindex}

-- Entry `k` is there and is not allocated.
abbrev pub is_free : List CmEntry → ℕ → Bool
is_free es k = elim (get_elem? es k) [
  | none ↦ false
  | some e ↦ if e.is_allocated then false else true
]

is_free-eq :
    (es : List CmEntry) (k : ℕ) (e : CmEntry) (b : Bool)
    → get_elem? es k ≡ some e
    → e.is_allocated ≡ b
    → is_free es k ≡ not b
is_free-eq es k e true h a = ground arith
is_free-eq es k e false h a = ground arith

-- The `n` entries from `j` on are free.
abbrev pub FreeRun : List CmEntry → ℕ → ℕ → Type 0
FreeRun es j n = (k : ℕ) → j ≤ k → k < j + n → is_free es k ≡ true

-- What a search for `npages` entries among the first `hi` may answer.
abbrev pub FirstFit : List CmEntry → ℕ → ℕ → Option ℕ → Type 0
FirstFit es npages hi none = (j : ℕ) → j + npages ≤ hi → ¬ FreeRun es j npages
FirstFit es npages hi (some index) =
    (index + npages ≤ hi) × FreeRun es index npages × ((j : ℕ) → j < index → ¬ FreeRun es j npages)

module _ (all : List CmEntry) (npages : ℕ) where
  -- What the loop knows at entry `i`: the last `count` entries are free, no run starts before them.
  record Seen (i count : ℕ) : Type 0 where
    short : count < npages
    inside : count ≤ i
    run : (k : ℕ) → i ≤ k + count → k < i → is_free all k ≡ true
    none_before : (j : ℕ) → j + count < i → ¬ FreeRun all j npages

  Seen-free :
      {i count : ℕ}
      → Seen i count
      → is_free all i ≡ true
      → count + 1 < npages
      → Seen (i + 1) (count + 1)
  Seen-free {i} {count} s f h = record {
    short = h;
    inside = omega (arith, s.inside);
    run = λ k lo hi. elim (ℕ_discrete k i) [
      | yes e ↦ rw e f
      | no ne ↦ s.run k (omega arith) (omega arith)
    ];
    none_before = λ j h'. s.none_before j (omega arith);
  }

  Seen-allocated : {i count : ℕ} → Seen i count → is_free all i ≡ false → Seen (i + 1) 0
  Seen-allocated {i} {count} s f = record {
    short = omega (arith, s.short);
    inside = omega arith;
    run = λ k lo hi. absurd (omega arith);
    none_before = λ j h r. elim (dec_lt (j + count) i) [
      | yes p ↦ s.none_before j p r
      | no p ↦ cc (r i (omega arith) (omega (arith, s.short)))
    ];
  }

  -- The end of the run at `i` makes it long enough.
  Seen-found :
      {i count n : ℕ}
      → Seen i count
      → is_free all i ≡ true
      → count + 1 ≡ npages
      → 0 < n
      → FirstFit all npages (i + n) (some (i - count))
  Seen-found {i} {count} s f h pos = (
    omega (arith, s.inside),
    λ k lo hi. elim (ℕ_discrete k i) [
      | yes e ↦ rw e f
      | no ne ↦ s.run k (omega (arith, s.inside)) (omega (arith, s.inside))
    ],
    λ j h'. s.none_before j (omega (arith, s.inside)),
  )

  find_run-FirstFit :
      (n i count : ℕ) (es : List CmEntry)
      → ((k : ℕ) → get_elem? es k ≡ get_elem? all (i + k))
      → n ≤ length es
      → i + n < 2 ^ 32
      → Seen i count
      → FirstFit all npages (i + n) (find_run npages n i count es)
  unfolding find_run
  find_run-FirstFit zero i count es at le small s = λ j h. s.none_before j (omega (arith, s.short))
  find_run-FirstFit (suc n) i count [] at le small s = absurd (omega arith)
  find_run-FirstFit (suc n) i count (e ∷ es) at le small s =
      let here : get_elem? all i ≡ some e = sym (at 0 ∙ ap (get_elem? all) i+0) in
      let at' : (k : ℕ) → get_elem? es k ≡ get_elem? all (i + 1 + k) =
        λ k. rw (next k) (at (suc k)) in
      let hi : i + 1 + n ≡ i + suc n = omega arith in
      elim (Bool-cases e.is_allocated) [
        | inl a ↦ rw a (
            subst (λ h. FirstFit all npages h (find_run npages n (i + 1) 0 es)) hi
              (find_run-FirstFit n (i + 1) 0 es at' (omega arith) (omega arith)
                (Seen-allocated s (is_free-eq all i e true here a))))
        | inr a ↦ elim (ℕ_discrete (count + 1) npages) [
          | yes e' ↦
              rw (a, (==_iff (count + 1) npages).1 e', index s.inside)
                (Seen-found s (is_free-eq all i e false here a) e' (omega arith))
          | no ne ↦
              rw (a, other ne)
                (subst (λ h. FirstFit all npages h (find_run npages n (i + 1) (count + 1) es)) hi
                  (find_run-FirstFit n (i + 1) (count + 1) es at' (omega arith) (omega arith)
                    (Seen-free s (is_free-eq all i e false here a) (omega (arith, s.short)))))
        ]
      ]
    where
      index : count ≤ i → add32 (sub32 i (count + 1)) 1 ≡ i - count
      index h = omega arith

      other : count + 1 ≢ npages → (count + 1 == npages) ≡ false
      other h = ground arith

      i+0 : i + 0 ≡ i
      i+0 = omega arith

      next : (k : ℕ) → i + 1 + k ≡ i + suc k
      next k = omega arith

-- The map fits in 32-bit physical memory, page by page, behind its own storage.
pub record IsPlaced (cm : Coremap) : Type 0 where
  pub stored : cm.cm_entries ≤ length cm.cells
  pub aligned : cm.freespace % page_size ≡ 0
  pub positive : 0 < cm.freespace
  pub fits : cm.freespace + cm.cm_entries * page_size ≤ 2 ^ 32

-- Address and index are inverse to one another on the frames of the map.
pub getindex-indextopaddr :
    {cm : Coremap} {i : ℕ}
    → IsPlaced cm
    → i < cm.cm_entries
    → (indextopaddr cm i ≡ i * page_size + cm.freespace) × (getindex cm (indextopaddr cm i) ≡ i)
unfolding indextopaddr getindex
getindex-indextopaddr p h = (omega (arith, p.fits), omega (arith, p.fits))

-- What `getpaddr` answers.
abbrev pub Found : Coremap → ℕ → ℕ → Type 0
Found cm npages paddr =
    ((paddr ≡ 0) × FirstFit cm.cells npages cm.cm_entries none)
    ⊎ ((index : ℕ) × (paddr ≡ indextopaddr cm index)
        × (0 < paddr)
        × FirstFit cm.cells npages cm.cm_entries (some index))

-- `getpaddr` returns 0 exactly when no `npages` consecutive frames are free, and otherwise the
-- address of the first such frames; its loop reads inside the map.
pub getpaddr-Found :
    (cm : Coremap) (npages : ℕ) → IsPlaced cm → 0 < npages → Found cm npages (getpaddr cm npages)
unfolding getpaddr
getpaddr-Found cm npages p h = answer (find_run npages cm.cm_entries 0 0 cm.cells) refl
  where
    shift : (k : ℕ) → k ≡ 0 + k
    shift k = omega arith

    fit : FirstFit cm.cells npages cm.cm_entries (find_run npages cm.cm_entries 0 0 cm.cells)
    fit =
        subst (λ h. FirstFit cm.cells npages h (find_run npages cm.cm_entries 0 0 cm.cells))
          (sym (shift cm.cm_entries))
          (find_run-FirstFit cm.cells npages cm.cm_entries 0 0 cm.cells
            (λ k. ap (get_elem? cm.cells) (shift k)) p.stored (omega (arith, p.fits, p.positive))
            (record {
              short = h;
              inside = omega arith;
              run = λ k lo hi. absurd (omega arith);
              none_before = λ j h' r. absurd (omega arith);
            }))

    answer :
        (r : Option ℕ)
        → find_run npages cm.cm_entries 0 0 cm.cells ≡ r
        → Found cm npages (elim r [ none ↦ 0 | some index ↦ indextopaddr cm index ])
    answer none e = inl (refl, subst (FirstFit cm.cells npages cm.cm_entries) e fit)
    answer (some index) e =
        let f = subst (FirstFit cm.cells npages cm.cm_entries) e fit in
        inr (
          index,
          refl,
          omega (arith, (getindex-indextopaddr {i = index} p (omega (arith, f.0))).0, p.positive),
          f,
        )
