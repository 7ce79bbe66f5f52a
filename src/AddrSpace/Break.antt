-- ===== src/AddrSpace/Break.antt =====
-- The heap of an address space: `page_alloc` and `sys_sbrk` of kern/vm/vm.c.
use ms_projects.Common.{
  ℕ, zero, suc, ◌+◌, ◌-◌, ◌*◌, ◌/◌, ◌%◌, ◌^◌, ◌≤◌, ◌<◌, ◌≡◌, refl, ◌∙◌, ◌⊎◌, inl, inr, Bool, true,
  false, Option, none, some, List, arith, if◌then◌else◌, ◌==◌, leb, ltb,
}
use ms_projects.Common.Words.{add32, sub32, mul32}
use ms_projects.Common.Errno.{Errno, enomem, einval}
use ms_projects.Kpages.{alloc_kpages}
use ms_projects.Coremap.{Coremap, page_size, page_frame, getpaddr, addtocoremap}
use ms_projects.AddrSpace.{
  AddrSpace, PageEntry, PageTable, Machine, stack_base, stack_entry, take_in_tables, append_table,
  new_table, add_page_entry,
}

-- The machine with one more page of the heap, at `vaddr`; `none` where `addPageEntry` fails.
unfoldable pub heap_page : List PageEntry → ℕ → Machine → Option Machine
heap_page memory vaddr m =
    let paddr = getpaddr m.coremap 1 in
    elim (add_page_entry memory (stack_entry vaddr paddr) m.space
      (addtocoremap m.coremap paddr 1 false)) [
        | none ↦ none
        | some (space, cm) ↦ some (record m {
          space = record space { heap_npages = add32 space.heap_npages 1 };
          coremap = cm;
        })
      ]

-- The result is true where no frame was left for a page; there is none where `addPageEntry` writes
-- through NULL.
unfoldable pub page_alloc : List PageEntry → ℕ → ℕ → Machine → Option (Bool × Machine)
unfolding heap_page
page_alloc memory zero vaddr m = some (false, m)
page_alloc memory (suc npages) vaddr m =
    if getpaddr m.coremap 1 == 0 then some (true, m) else elim (heap_page memory vaddr m) [
      | none ↦ none
      | some m' ↦ page_alloc memory npages (add32 vaddr page_size) m'
    ]

abbrev pub set_break : ℕ → Machine → Machine
set_break brk m = record m { space = record m.space { vbreaktop = brk } }

-- The bytes between the heap's pages and the break, in pages.
unfoldable pub missing_pages : AddrSpace → ℕ → ℕ
missing_pages space brk =
    let npages = sub32 brk (add32 space.vbreakbase (mul32 space.heap_npages page_size)) in
    if npages % page_size == 0 then npages / page_size else npages / page_size + 1

-- `sys_sbrk`: an error, or the old break. The new pages begin at the old break, rounded up.
unfoldable pub sys_sbrk : List PageEntry → ℕ → Machine → Option ((Errno ⊎ ℕ) × Machine)
unfolding page_alloc missing_pages
sys_sbrk memory amount m =
    let vaddr = m.space.vbreaktop in
    let brk = add32 vaddr amount in
    let moved = set_break brk m in
    let temp = if vaddr % page_size == 0 then vaddr else add32 (page_frame vaddr) page_size in
    if leb (stack_base - 4096) brk
    then some (inl enomem, moved)
    else if ltb brk m.space.vbreakbase
    then some (inl einval, m)
    else if leb (mul32 m.space.heap_npages page_size) (sub32 brk m.space.vbreakbase)
    then elim (page_alloc memory (missing_pages m.space brk) temp moved) [
      | none ↦ none
      | some (full, m') ↦ some (if full then (inl enomem, m') else (inr vaddr, m'))
    ]
    else some (inr vaddr, moved)

-- `page_alloc` of `n` pages moves no break, and counts the pages if it succeeds.
abbrev pub Grown : ℕ → Machine → Option (Bool × Machine) → Type 0
Grown n m none = 0 < n
Grown n m (some (full, m')) =
    (m'.space.vbreaktop ≡ m.space.vbreaktop)
    × (m'.space.vbreakbase ≡ m.space.vbreakbase)
    × ((full ≡ true) ⊎ (m'.space.heap_npages ≡ m.space.heap_npages + n))

-- The break and the count of the heap are as they were.
abbrev KeepsFields : AddrSpace → Option (AddrSpace × Coremap) → Type 0
KeepsFields space none = Unit {0}
KeepsFields space (some (space', cm)) =
    (space'.vbreaktop ≡ space.vbreaktop)
    × (space'.vbreakbase ≡ space.vbreakbase)
    × (space'.heap_npages ≡ space.heap_npages)

add_page_entry-fields :
    (memory : List PageEntry) (v : PageEntry) (space : AddrSpace) (cm : Coremap)
    → KeepsFields space (add_page_entry memory v space cm)
unfolding add_page_entry append_table
add_page_entry-fields memory v space cm =
    by_tables (take_in_tables v space.tables) ((alloc_kpages cm 1).1 == 0)
  where
    by_tables :
        (o : Option (List PageTable)) (b : Bool)
        → KeepsFields space (elim o [
          | some ts ↦ some (record space { tables = ts }, cm)
          | none ↦
              if b
              then none
              else some (append_table (new_table v memory) space, (alloc_kpages cm 1).0)
        ])
    by_tables (some ts) b = (refl, refl, refl)
    by_tables none true = tt
    by_tables none false = (refl, refl, refl)

page_alloc-Grown :
    (memory : List PageEntry) (n vaddr : ℕ) (m : Machine)
    → m.space.heap_npages + n < 2 ^ 32
    → Grown n m (page_alloc memory n vaddr m)
unfolding page_alloc heap_page
page_alloc-Grown memory zero vaddr m h = (refl, refl, inr (omega arith))
page_alloc-Grown memory (suc n) vaddr m h =
    by_frame (getpaddr m.coremap 1 == 0)
      (add_page_entry memory (stack_entry vaddr (getpaddr m.coremap 1)) m.space
        (addtocoremap m.coremap (getpaddr m.coremap 1) 1 false))
      (add_page_entry-fields memory (stack_entry vaddr (getpaddr m.coremap 1)) m.space
        (addtocoremap m.coremap (getpaddr m.coremap 1) 1 false))
      (λ m' lt. page_alloc-Grown memory n (add32 vaddr page_size) m' lt)
  where
    with_page : AddrSpace → Coremap → Machine
    with_page space cm = record m {
      space = record space { heap_npages = add32 space.heap_npages 1 };
      coremap = cm;
    }

    behind :
        (space : AddrSpace) (cm : Coremap)
        → KeepsFields m.space (some (space, cm))
        → (r : Option (Bool × Machine)) → Grown n (with_page space cm) r
        → Grown (suc n) m r
    behind space cm (x, y, z) none g = omega arith
    behind space cm (x, y, z) (some (full, m')) (p, q, inl f) = (p ∙ x, q ∙ y, inl f)
    behind space cm (x, y, z) (some (full, m')) (p, q, inr f) =
        (p ∙ x, q ∙ y, inr (omega (arith, f, z, h)))

    by_frame :
        (b : Bool) (o : Option (AddrSpace × Coremap))
        → KeepsFields m.space o
        → ((m' : Machine)
            → m'.space.heap_npages + n < 2 ^ 32
            → Grown n m' (page_alloc memory n (add32 vaddr page_size) m'))
        → Grown (suc n) m (
            if b
            then some (true, m)
            else elim (elim o as (λ _. Option Machine) [
              | none ↦ none
              | some (space, cm) ↦ some (with_page space cm)
            ]) [ none ↦ none | some m' ↦ page_alloc memory n (add32 vaddr page_size) m' ])
    by_frame true o f more = (refl, refl, inl refl)
    by_frame false none f more = omega arith
    by_frame false (some (space, cm)) f more =
        behind space cm f (page_alloc memory n (add32 vaddr page_size) (with_page space cm))
          (more (with_page space cm) (omega (arith, f.2, h)))

-- The outcomes of `sys_sbrk`: the old break is returned, the break is moved, and the count of the heap's
-- pages is that of a heap that reaches up to it; EINVAL changes nothing; behind ENOMEM the break has
-- moved. There is none only where pages are to be added.
abbrev pub BreakSpec : ℕ → Machine → Option ((Errno ⊎ ℕ) × Machine) → Type 0
BreakSpec amount m none = 0 < missing_pages m.space (add32 m.space.vbreaktop amount)
BreakSpec amount m (some (inl code, m')) =
    ((code ≡ einval) × (m' ≡ m) × (add32 m.space.vbreaktop amount < m.space.vbreakbase))
    ⊎ ((code ≡ enomem) × (m'.space.vbreaktop ≡ add32 m.space.vbreaktop amount))
BreakSpec amount m (some (inr value, m')) =
    (value ≡ m.space.vbreaktop)
    × (m'.space.vbreaktop ≡ add32 m.space.vbreaktop amount)
    × (m'.space.vbreakbase ≡ m.space.vbreakbase)
    × (m'.space.vbreaktop < stack_base - 4096)
    × (m'.space.vbreaktop ≤ m'.space.vbreakbase + m'.space.heap_npages * 4096)

below_stack : (brk : ℕ) → leb (stack_base - 4096) brk ≡ false → brk < stack_base - 4096
below_stack brk e = ground (arith, e)

above_base : (brk base : ℕ) → ltb brk base ≡ false → base ≤ brk
above_base brk base e = ground (arith, e)

heap_reaches :
    (base heap brk : ℕ)
    → base + heap * 4096 < 2 ^ 31
    → brk < stack_base - 4096
    → base ≤ brk
    → leb (mul32 heap page_size) (sub32 brk base) ≡ false
    → brk ≤ base + heap * 4096
heap_reaches base heap brk h lt le e = ground (arith, e)

pages_below :
    (space : AddrSpace) (brk : ℕ)
    → space.vbreakbase + space.heap_npages * 4096 < 2 ^ 31
    → brk < stack_base - 4096
    → space.vbreakbase ≤ brk
    → leb (mul32 space.heap_npages page_size) (sub32 brk space.vbreakbase) ≡ true
    → space.vbreakbase + space.heap_npages * 4096 ≤ brk
pages_below space brk h lt le e = ground (arith, e)

missing_pages-covers :
    (space : AddrSpace) (brk : ℕ)
    → space.vbreakbase + space.heap_npages * 4096 < 2 ^ 31
    → brk < stack_base - 4096
    → space.vbreakbase ≤ brk
    → space.vbreakbase + space.heap_npages * 4096 ≤ brk
    → (brk ≤ space.vbreakbase + (space.heap_npages + missing_pages space brk) * 4096)
      × (missing_pages space brk < 2 ^ 20)
unfolding missing_pages
missing_pages-covers space brk h lt le le' = rounded (npages % page_size == 0) refl
  where
    npages : ℕ
    npages = sub32 brk (add32 space.vbreakbase (mul32 space.heap_npages page_size))

    exact : npages + space.vbreakbase + space.heap_npages * 4096 ≡ brk
    exact = omega arith

    rounded :
        (b : Bool)
        → (npages % page_size == 0) ≡ b
        → (brk
            ≤ space.vbreakbase
              + (space.heap_npages + (if b then npages / page_size else npages / page_size + 1))
                * 4096)
          × ((if b then npages / page_size else npages / page_size + 1) < 2 ^ 20)
    rounded true e = (ground (arith, exact, e), omega (arith, exact))
    rounded false e = (omega (arith, exact), omega (arith, exact))

-- Every outcome of `sys_sbrk`, where the heap of the space ends below 2^31 by its count of pages: if it
-- succeeds it returns the old break, the break has moved by the amount and lies below the stack, and the
-- count of the heap's pages is enough for a heap from the base up to it. EINVAL, for a break below the
-- base, changes nothing. Behind ENOMEM the break has moved all the same. It has no outcome, because a
-- table of pages cannot be allocated, only where pages are to be added.
pub sys_sbrk-BreakSpec :
    (memory : List PageEntry) (amount : ℕ) (m : Machine)
    → m.space.vbreakbase + m.space.heap_npages * 4096 < 2 ^ 31
    → BreakSpec amount m (sys_sbrk memory amount m)
unfolding sys_sbrk missing_pages
sys_sbrk-BreakSpec memory amount m h =
    by_tests (leb (stack_base - 4096) brk) (ltb brk m.space.vbreakbase)
      (leb (mul32 m.space.heap_npages page_size) (sub32 brk m.space.vbreakbase)) refl refl refl
      (page_alloc memory (missing_pages m.space brk) temp moved)
      (λ lt. page_alloc-Grown memory (missing_pages m.space brk) temp moved lt)
  where
    brk : ℕ
    brk = add32 m.space.vbreaktop amount

    moved : Machine
    moved = set_break brk m

    temp : ℕ
    temp =
        if m.space.vbreaktop % page_size == 0
        then m.space.vbreaktop
        else add32 (page_frame m.space.vbreaktop) page_size

    few :
        leb (stack_base - 4096) brk ≡ false
        → ltb brk m.space.vbreakbase ≡ false
        → leb (mul32 m.space.heap_npages page_size) (sub32 brk m.space.vbreakbase) ≡ true
        → m.space.heap_npages + missing_pages m.space brk < 2 ^ 32
    few a b c = omega (
      arith,
      missing_pages-covers m.space brk h (below_stack brk a) (above_base brk m.space.vbreakbase b)
          (pages_below m.space brk h (below_stack brk a) (above_base brk m.space.vbreakbase b) c),
    )

    by_tests :
        (x y z : Bool)
        → leb (stack_base - 4096) brk ≡ x
        → ltb brk m.space.vbreakbase ≡ y
        → leb (mul32 m.space.heap_npages page_size) (sub32 brk m.space.vbreakbase) ≡ z
        → (r : Option (Bool × Machine))
        → (m.space.heap_npages + missing_pages m.space brk < 2 ^ 32
            → Grown (missing_pages m.space brk) moved r)
        → BreakSpec amount m (
            if x
            then (let o : Option ((Errno ⊎ ℕ) × Machine) = some (inl enomem, moved) in o)
            else if y
            then some (inl einval, m)
            else if z
            then (elim r [
              | none ↦ none
              | some (full, m') ↦
                  some (if full then (inl enomem, m') else (inr m.space.vbreaktop, m'))
            ])
            else some (inr m.space.vbreaktop, moved))
    by_tests true y z a b c r g = inr (refl, refl)
    by_tests false true z a b c r g = inl (refl, refl, ground (arith, b))
    by_tests false false false a b c r g = (
      refl,
      refl,
      refl,
      below_stack brk a,
      heap_reaches m.space.vbreakbase m.space.heap_npages brk h (below_stack brk a)
          (above_base brk m.space.vbreakbase b) c,
    )
    by_tests false false true a b c none g = g (few a b c)
    by_tests false false true a b c (some (true, m')) g = inr (refl, (g (few a b c)).0)
    by_tests false false true a b c (some (false, m')) g =
        let (top, base, counted) = g (few a b c) in
        (refl, top, base, omega (arith, top, below_stack brk a), reached counted top base)
      where
        reached :
            (false ≡ true)
              ⊎ (m'.space.heap_npages ≡ m.space.heap_npages + missing_pages m.space brk)
            → m'.space.vbreaktop ≡ brk
            → m'.space.vbreakbase ≡ m.space.vbreakbase
            → m'.space.vbreaktop ≤ m'.space.vbreakbase + m'.space.heap_npages * 4096
        reached (inl e) top base = cc
        reached (inr e) top base = omega (
          arith,
          e,
          top,
          base,
          missing_pages-covers m.space brk h (below_stack brk a)
              (above_base brk m.space.vbreakbase b)
              (pages_below m.space brk h (below_stack brk a) (above_base brk m.space.vbreakbase b)
                c),
        )
