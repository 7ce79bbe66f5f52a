-- ===== src/AddrSpace/Copying.antt =====
-- Copies of address spaces and their end: `as_copy` and `as_destroy`; and `as_complete_load`.
use ms_projects.Common.{
  ℕ, ◌≡◌, refl, Bool, true, false, Option, none, some, List, [], ◌∷◌, map, arith, if◌then◌else◌,
  ◌==◌, ltb, ◌≤◌, ◌<◌, subst, sym, dec_lt,
}
use ms_projects.Common.Words.{add32, mul32}
use ms_projects.Coremap.{Coremap, page_size, getpaddr, addtocoremap}
use ms_projects.Kpages.{page_free}
use ms_projects.AddrSpace.{PageEntry, PageTable, AddrSpace, freed, as_create, find_entry, find_page}

-- The pages of a table are freed, up to the first free entry.
unfoldable pub free_entries : List PageEntry → Coremap → Coremap
free_entries [] cm = cm
free_entries (e ∷ es) cm =
    let rest = free_entries es (page_free cm e.page_paddr) in if e.page_paddr == 0 then cm else rest

unfoldable pub as_destroy : List PageTable → Coremap → Coremap
unfolding free_entries
as_destroy [] cm = cm
as_destroy (t ∷ ts) cm = as_destroy ts (free_entries t.table cm)

-- The loop of `as_copy` over one table, into what the new one holds; false where no frame was left.
unfoldable pub copy_entries :
    List PageEntry → List PageEntry → Coremap → Bool × List PageEntry × Coremap
copy_entries [] new cm = (true, new, cm)
copy_entries (e ∷ es) [] cm = (true, [], cm)
copy_entries (e ∷ es) (x ∷ new) cm =
    let paddr = getpaddr cm 1 in
    let (ok, rest, cm₁) = copy_entries es new cm in
    let (ok', rest', cm₂) = copy_entries es new (addtocoremap cm paddr 1 false) in
    if e.page_paddr == 0
    then (ok, freed e ∷ rest, cm₁)
    else if paddr == 0
    then (false, record e { page_paddr = x.page_paddr } ∷ new, cm)
    else (ok', record e { page_paddr = paddr } ∷ rest', cm₂)

-- The loop over the tables: `first` is what the next table holds, `memory` what each one behind it.
unfoldable pub copy_tables :
    List PageTable → List PageEntry → List PageEntry → Coremap → Bool × List PageTable × Coremap
unfolding copy_entries
copy_tables [] first memory cm = (true, [], cm)
copy_tables (t ∷ ts) first memory cm =
    let (ok, es, cm₁) = copy_entries t.table first cm in
    let (ok', rest, cm₂) = copy_tables ts memory memory cm₁ in
    let copied : PageTable = record { table = es; entry_count = t.entry_count } in
    if ok then (ok', copied ∷ rest, cm₂) else (false, copied ∷ [], cm₁)

-- Every other field of the copy is as `as_create` left it. That `as_create` fails, and that the `kmalloc`
-- of a further table does, which the source does not test, is left out.
unfoldable pub as_copy : List PageEntry → AddrSpace → Coremap → Option AddrSpace × Coremap
unfolding copy_tables as_destroy as_create
as_copy memory old cm =
    let (ok, ts, cm') = copy_tables old.tables (map freed memory) memory cm in
    if ok
    then (some (record (as_create memory) { tables = ts }), cm')
    else (none, as_destroy ts cm')

-- The entry with the access that `as_complete_load` sets.
unfoldable pub protect : ℕ → ℕ → PageEntry → PageEntry
protect code_top data_top e =
    if ltb e.page_vaddr code_top
    then record e { is_exe = true; is_read = true; is_write = false }
    else if ltb e.page_vaddr data_top
    then record e { is_exe = false; is_read = true; is_write = true }
    else e

unfoldable pub protect_entries : ℕ → ℕ → List PageEntry → List PageEntry
unfolding protect
protect_entries code_top data_top [] = []
protect_entries code_top data_top (e ∷ es) =
    let rest = protect_entries code_top data_top es in
    if e.page_paddr == 0 then e ∷ es else protect code_top data_top e ∷ rest

unfoldable pub protect_tables : ℕ → ℕ → List PageTable → List PageTable
unfolding protect_entries
protect_tables code_top data_top [] = []
protect_tables code_top data_top (t ∷ ts) =
    record t { table = protect_entries code_top data_top t.table }
    ∷ protect_tables code_top data_top ts

unfoldable pub as_complete_load : AddrSpace → AddrSpace
unfolding protect_tables
as_complete_load space = record space {
  tables =
      protect_tables (add32 space.vstart (mul32 page_size space.code_npages)) space.vbreakbase
        space.tables;
}

abbrev protected : ℕ → ℕ → Option PageEntry → Option PageEntry
protected code_top data_top none = none
protected code_top data_top (some e) = some (protect code_top data_top e)

protect_entries-find :
    (code_top data_top f : ℕ) (es : List PageEntry)
    → find_entry f (protect_entries code_top data_top es)
      ≡ protected code_top data_top (find_entry f es)
unfolding protect_entries find_entry
protect_entries-find code_top data_top f [] = refl
protect_entries-find code_top data_top f (e ∷ es) =
    ground (arith, protect_entries-find code_top data_top f es)

protect_tables-find :
    (code_top data_top f : ℕ) (ts : List PageTable)
    → find_page f (protect_tables code_top data_top ts)
      ≡ protected code_top data_top (find_page f ts)
unfolding protect_tables find_page
protect_tables-find code_top data_top f [] = refl
protect_tables-find code_top data_top f (t ∷ ts) = ground (
  arith,
  protect_entries-find code_top data_top f t.table,
  protect_tables-find code_top data_top f ts,
)

-- What becomes of the entry of one page: it stays where it is; below `code_top` it is executable and
-- not writable, from there to `data_top` writable and not executable, and elsewhere as it was.
abbrev pub LoadedEntry : ℕ → ℕ → PageEntry → PageEntry → Type 0
LoadedEntry code_top data_top e e' =
    (e'.page_vaddr ≡ e.page_vaddr)
    × (e'.page_paddr ≡ e.page_paddr)
    × (e.page_vaddr < code_top → (e'.is_exe ≡ true) × (e'.is_read ≡ true) × (e'.is_write ≡ false))
    × (code_top ≤ e.page_vaddr
        → e.page_vaddr < data_top
        → (e'.is_exe ≡ false) × (e'.is_read ≡ true) × (e'.is_write ≡ true))
    × (code_top ≤ e.page_vaddr → data_top ≤ e.page_vaddr → e' ≡ e)

abbrev pub LoadedPage : ℕ → ℕ → Option PageEntry → Option PageEntry → Type 0
LoadedPage code_top data_top none r = r ≡ none
LoadedPage code_top data_top (some e) r =
    (e' : PageEntry) × (r ≡ some e') × LoadedEntry code_top data_top e e'

protect-LoadedEntry :
    (code_top data_top : ℕ) (e : PageEntry)
    → LoadedEntry code_top data_top e (protect code_top data_top e)
unfolding protect
protect-LoadedEntry code_top data_top e = elim (dec_lt e.page_vaddr code_top) [
  | yes code ↦ (
    ground (arith, code),
    ground (arith, code),
    λ lt. (ground (arith, code), ground (arith, code), ground (arith, code)),
    λ le lt. absurd (omega arith),
    λ le le'. absurd (omega arith),
  )
  | no above ↦ elim (dec_lt e.page_vaddr data_top) [
    | yes data_page ↦ (
      ground (arith, above, data_page),
      ground (arith, above, data_page),
      λ lt. absurd (omega arith),
      λ le lt. (
        ground (arith, above, data_page),
        ground (arith, above, data_page),
        ground (arith, above, data_page),
      ),
      λ le le'. absurd (omega arith),
    )
    | no higher ↦ (
      ground (arith, above, higher),
      ground (arith, above, higher),
      λ lt. absurd (omega arith),
      λ le lt. absurd (omega arith),
      λ le le'. ground (arith, above, higher),
    )
  ]
]

protected-LoadedPage :
    (code_top data_top : ℕ) (found : Option PageEntry)
    → LoadedPage code_top data_top found (protected code_top data_top found)
protected-LoadedPage code_top data_top none = refl
protected-LoadedPage code_top data_top (some e) =
    (protect code_top data_top e, refl, protect-LoadedEntry code_top data_top e)

-- `as_complete_load` keeps every page where it is, and adds none; it makes the pages below the end of
-- the code readable, executable and not writable, those between it and the base of the break readable,
-- writable and not executable, and leaves the entries of all others as they were.
pub as_complete_load-find_page :
    (space : AddrSpace) (f : ℕ)
    → LoadedPage
        (add32 space.vstart (mul32 page_size space.code_npages))
        space.vbreakbase
        (find_page f space.tables)
        (find_page f (as_complete_load space).tables)
unfolding as_complete_load
as_complete_load-find_page space f =
    subst (LoadedPage code_top space.vbreakbase (find_page f space.tables))
      (sym (protect_tables-find code_top space.vbreakbase f space.tables))
      (protected-LoadedPage code_top space.vbreakbase (find_page f space.tables))
  where
    code_top : ℕ
    code_top = add32 space.vstart (mul32 page_size space.code_npages)
