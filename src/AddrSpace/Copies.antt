-- ===== src/AddrSpace/Copies.antt =====
-- The pages of a copy that `as_copy` makes.
use ms_projects.Common.{
  ℕ, suc, ◌≡◌, refl, sym, ap, subst, ◌∙◌, Bool, true, false, Option, none, some, List, [], ◌∷◌, map,
  length, arith, if◌then◌else◌, ◌==◌, Bool-cases, inl, inr,
}
use ms_projects.Coremap.{Coremap, getpaddr, addtocoremap}
use ms_projects.AddrSpace.{PageEntry, PageTable, AddrSpace, freed, as_create, find_entry, find_page}
use ms_projects.AddrSpace.Copying.{as_destroy, copy_entries, copy_tables, as_copy}

-- Two pages at the same address with the same access, or none.
abbrev pub SamePage : Option PageEntry → Option PageEntry → Type 0
SamePage none none = Unit
SamePage (some a) (some b) =
    (a.page_vaddr ≡ b.page_vaddr)
    × (a.is_read ≡ b.is_read)
    × (a.is_write ≡ b.is_write)
    × (a.is_exe ≡ b.is_exe)
SamePage _ _ = ⊥

same_by : {a b a' b' : Option PageEntry} → a ≡ a' → b ≡ b' → SamePage a' b' → SamePage a b
same_by {b} {a'} p q s = subst (λ x. SamePage x b) (sym p) (subst (λ y. SamePage a' y) (sym q) s)

-- What a copy of the entries `es` holds.
abbrev CopiedEntries : List PageEntry → Bool × List PageEntry × Coremap → Type 0
CopiedEntries es (false, es', cm) = Unit
CopiedEntries es (true, es', cm) = (f : ℕ) → SamePage (find_entry f es') (find_entry f es)

next_entry :
    (e : PageEntry) (es es' : List PageEntry) (paddr f : ℕ)
    → (e.page_paddr == 0) ≡ false
    → (paddr == 0) ≡ false
    → SamePage (find_entry f es') (find_entry f es)
    → SamePage (find_entry f (record e { page_paddr = paddr } ∷ es')) (find_entry f (e ∷ es))
unfolding find_entry
next_entry e es es' paddr f a b s = elim (Bool-cases (e.page_vaddr == f)) [
  | inl here ↦
      same_by {a' = some (record e { page_paddr = paddr })} {b' = some e}
        (ground (arith, a, b, here)) (ground (arith, a, b, here)) (refl, refl, refl, refl)
  | inr other ↦
      same_by {a' = find_entry f es'} {b' = find_entry f es} (ground (arith, a, b, other))
        (ground (arith, a, b, other)) s
]

copy_entries-CopiedEntries :
    (es new : List PageEntry) (cm : Coremap)
    → length es ≡ length new
    → CopiedEntries es (copy_entries es new cm)
unfolding copy_entries find_entry
copy_entries-CopiedEntries [] [] cm h = λ f. tt
copy_entries-CopiedEntries [] (x ∷ new) cm h = absurd (omega (arith, h))
copy_entries-CopiedEntries (e ∷ es) [] cm h = absurd (omega (arith, h))
copy_entries-CopiedEntries (e ∷ es) (x ∷ new) cm h =
    by_tests (e.page_paddr == 0) (getpaddr cm 1 == 0) refl refl (copy_entries es new cm)
      (copy_entries es new (addtocoremap cm (getpaddr cm 1) 1 false))
      (copy_entries-CopiedEntries es new cm (omega (arith, h)))
      (copy_entries-CopiedEntries es new (addtocoremap cm (getpaddr cm 1) 1 false)
        (omega (arith, h)))
  where
    by_tests :
        (a b : Bool)
        → (e.page_paddr == 0) ≡ a
        → (getpaddr cm 1 == 0) ≡ b
        → (r r' : Bool × List PageEntry × Coremap) → CopiedEntries es r
        → CopiedEntries es r'
        → CopiedEntries (e ∷ es) (
            if a
            then (let o : Bool × List PageEntry × Coremap = (r.0, freed e ∷ r.1, r.2) in o)
            else if b
            then (false, record e { page_paddr = x.page_paddr } ∷ new, cm)
            else (r'.0, record e { page_paddr = getpaddr cm 1 } ∷ r'.1, r'.2))
    by_tests true b p q (false, es', cm') r' s s' = tt
    by_tests true b p q (true, es', cm') r' s s' =
        λ f. same_by {a' = none} {b' = none} refl (ground (arith, p)) tt
    by_tests false true p q r r' s s' = tt
    by_tests false false p q r (false, es', cm') s s' = tt
    by_tests false false p q r (true, es', cm') s s' =
        λ f. next_entry e es es' (getpaddr cm 1) f p q (s' f)

abbrev CopiedTables : List PageTable → Bool × List PageTable × Coremap → Type 0
CopiedTables ts (false, ts', cm) = Unit
CopiedTables ts (true, ts', cm) = (f : ℕ) → SamePage (find_page f ts') (find_page f ts)

-- Every table has `n` entries.
abbrev pub Sized : ℕ → List PageTable → Type 0
Sized n [] = Unit
Sized n (t ∷ ts) = (length t.table ≡ n) × Sized n ts

next_table :
    (t t' : PageTable) (ts ts' : List PageTable) (f : ℕ)
    → SamePage (find_entry f t'.table) (find_entry f t.table)
    → SamePage (find_page f ts') (find_page f ts)
    → SamePage (find_page f (t' ∷ ts')) (find_page f (t ∷ ts))
unfolding find_page
next_table t t' ts ts' f s s' = by_found (find_entry f t'.table) (find_entry f t.table) refl refl s
  where
    by_found :
        (a b : Option PageEntry)
        → find_entry f t'.table ≡ a
        → find_entry f t.table ≡ b
        → SamePage a b
        → SamePage (find_page f (t' ∷ ts')) (find_page f (t ∷ ts))
    by_found none none p q r =
        same_by {a' = find_page f ts'} {b' = find_page f ts} (ground (arith, p)) (ground (arith, q))
          s'
    by_found (some x) (some y) p q r =
        same_by {a' = some x} {b' = some y} (ground (arith, p)) (ground (arith, q)) r
    by_found none (some y) p q r = absurd r
    by_found (some x) none p q r = absurd r

copy_tables-CopiedTables :
    (ts : List PageTable) (first memory : List PageEntry) (cm : Coremap)
    → length first ≡ length memory
    → Sized (length memory) ts
    → CopiedTables ts (copy_tables ts first memory cm)
unfolding copy_tables find_page
copy_tables-CopiedTables [] first memory cm h s = λ f. tt
copy_tables-CopiedTables (t ∷ ts) first memory cm h (size, s) =
    by_result (copy_entries t.table first cm)
      (copy_tables ts memory memory (copy_entries t.table first cm).2)
      (copy_entries-CopiedEntries t.table first cm (size ∙ sym h))
      (copy_tables-CopiedTables ts memory memory (copy_entries t.table first cm).2 refl s)
  where
    by_result :
        (r : Bool × List PageEntry × Coremap) (r' : Bool × List PageTable × Coremap)
        → CopiedEntries t.table r
        → CopiedTables ts r'
        → CopiedTables (t ∷ ts) (
            if r.0
            then (let o : Bool × List PageTable × Coremap =
                  (r'.0, record { table = r.1; entry_count = t.entry_count } ∷ r'.1, r'.2) in
                o)
            else (false, record { table = r.1; entry_count = t.entry_count } ∷ [], r.2))
    by_result (false, es, cm') r' c c' = tt
    by_result (true, es, cm') (false, ts', cm'') c c' = tt
    by_result (true, es, cm') (true, ts', cm'') c c' =
        λ f. next_table t (record { table = es; entry_count = t.entry_count }) ts ts' f (c f) (c' f)

length-freed : (es : List PageEntry) → length (map freed es) ≡ length es
length-freed [] = refl
length-freed (e ∷ es) = ap suc (length-freed es)

-- What `as_copy` makes: the pages of the old space at the same addresses and with the same access,
-- but a space whose start and break are at 0, and whose `end` is its first table.
abbrev pub CopySpec : AddrSpace → Option AddrSpace × Coremap → Type 0
CopySpec old (none, cm) = Unit
CopySpec old (some new, cm) =
    ((f : ℕ) → SamePage (find_page f new.tables) (find_page f old.tables))
    × (new.vstart ≡ 0)
    × (new.vbreaktop ≡ 0)
    × (new.heap_npages ≡ 0)
    × (new.end ≡ 0)

-- Where `as_copy` does not run out of frames, for tables of one size, the copy has a page where the
-- old space has one, with the same access, and nowhere else; but its start, its break and its count of
-- heap pages are 0, and its `end` is its first table, whatever those of the old space are.
pub as_copy-CopySpec :
    (memory : List PageEntry) (old : AddrSpace) (cm : Coremap)
    → Sized (length memory) old.tables
    → CopySpec old (as_copy memory old cm)
unfolding as_copy as_create
as_copy-CopySpec memory old cm s =
    by_result (copy_tables old.tables (map freed memory) memory cm)
      (copy_tables-CopiedTables old.tables (map freed memory) memory cm (length-freed memory) s)
  where
    by_result :
        (r : Bool × List PageTable × Coremap)
        → CopiedTables old.tables r
        → CopySpec old (
            if r.0
            then (let o : Option AddrSpace × Coremap =
                  (some (record (as_create memory) { tables = r.1 }), r.2) in
                o)
            else (none, as_destroy r.1 r.2))
    by_result (false, ts, cm') c = tt
    by_result (true, ts, cm') c = (c, refl, refl, refl, refl)
