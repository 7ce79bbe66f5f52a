-- ===== src/AddrSpace/Pages.antt =====
-- The page table of an address space: what is entered is found again.
use ms_projects.Common.{
  ℕ, ◌+◌, ◌≡◌, refl, ◌⊎◌, inl, ◌≢◌, Option, none, some, List, [], ◌∷◌, map, length, arith,
  if◌then◌else◌, ◌==◌,
}
use ms_projects.Coremap.{Coremap}
use ms_projects.Kpages.{alloc_kpages}
use ms_projects.AddrSpace.{
  PageEntry, PageTable, AddrSpace, freed, take_in_tables, find_entry, find_page,
}

-- Every entry is free.
abbrev pub AllFree : List PageEntry → Type 0
AllFree [] = Unit
AllFree (e ∷ es) = (e.page_paddr ≡ 0) × AllFree es

-- The entries in use come first.
abbrev pub Packed : List PageEntry → Type 0
Packed [] = Unit
Packed (e ∷ es) = ((e.page_paddr ≡ 0) × AllFree es) ⊎ ((e.page_paddr ≢ 0) × Packed es)

abbrev pub AllPacked : List PageTable → Type 0
AllPacked [] = Unit
AllPacked (t ∷ ts) = Packed t.table × AllPacked ts

-- The tables are packed, and `end` is the last one.
pub record IsSound (space : AddrSpace) : Type 0 where
  pub packed : AllPacked space.tables
  pub last : length space.tables ≡ space.end + 1

pub find_entry-free : (f : ℕ) (es : List PageEntry) → AllFree es → find_entry f es ≡ none
unfolding find_entry
find_entry-free f [] h = refl
find_entry-free f (e ∷ es) (a, h) = ground (arith, a)

-- The search behind an entry that is added.
abbrev pub found_with : PageEntry → ℕ → Option PageEntry → Option PageEntry
found_with v f none = if v.page_vaddr == f then some v else none
found_with v f (some e) = some e

pub AllFree-Packed : (es : List PageEntry) → AllFree es → Packed es
AllFree-Packed [] h = h
AllFree-Packed (e ∷ es) h = inl h

-- The entries with `v` among them.
abbrev Taken : PageEntry → List PageEntry → Option (List PageEntry) → Type 0
Taken v es none = Unit
Taken v es (some es') = ((f : ℕ) → find_entry f es' ≡ found_with v f (find_entry f es)) × Packed es'

-- The tables with `v` among them, where no table has it yet.
abbrev TakenIn : PageEntry → List PageTable → Option (List PageTable) → Type 0
TakenIn v ts none = Unit
TakenIn v ts (some ts') =
    ((f : ℕ) → find_page f ts' ≡ found_with v f (find_page f ts))
    × AllPacked ts'
    × (length ts' ≡ length ts)

pub AllFree-map : (es : List PageEntry) → AllFree (map freed es)
AllFree-map [] = tt
AllFree-map (e ∷ es) = (refl, AllFree-map es)

-- The frame of a new table: none is taken where a table has a free entry, and the first free one where
-- none has.
abbrev pub TableFrame : PageEntry → AddrSpace → Coremap → Coremap → Type 0
TableFrame v space cm cm' =
    ((take_in_tables v space.tables ≢ none) × (cm' ≡ cm))
    ⊎ ((take_in_tables v space.tables ≡ none)
        × ((alloc_kpages cm 1).1 ≢ 0)
        × (cm' ≡ (alloc_kpages cm 1).0))

-- The outcomes of `addPageEntry`.
abbrev pub EntrySpec : PageEntry → AddrSpace → Coremap → Option (AddrSpace × Coremap) → Type 0
EntrySpec v space cm none = (take_in_tables v space.tables ≡ none) × ((alloc_kpages cm 1).1 ≡ 0)
EntrySpec v space cm (some (space', cm')) =
    ((f : ℕ) → find_page f space'.tables ≡ found_with v f (find_page f space.tables))
    × IsSound space'
    × TableFrame v space cm cm'
