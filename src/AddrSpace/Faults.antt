-- ===== src/AddrSpace/Faults.antt =====
-- `vm_fault`: what it maps, and what it refuses.
use ms_projects.Common.{
  ℕ, ◌≤◌, ◌<◌, ◌≡◌, ◌⊎◌, ◌≢◌, Bool, true, false, ◌&&◌, ◌||◌, Option, none, some, List, [], ◌∷◌,
  ◌==◌,
}
use ms_projects.Common.Errno.{Errno}
use ms_projects.Kpages.{alloc_kpages}
use ms_projects.Coremap.{Coremap, getpaddr, addtocoremap}
use ms_projects.AddrSpace.{
  PageEntry, AddrSpace, take_in_tables, TlbEntry, Machine, FaultType, vm_fault_read, vm_fault_write,
  stack_base, userstack, stack_entry, find_page,
}
use ms_projects.AddrSpace.Pages.{IsSound, TableFrame}

-- A valid entry of the TLB takes `page` to `paddr`.
abbrev pub translates : ℕ → ℕ → List TlbEntry → Bool
translates page paddr [] = false
translates page paddr (e ∷ es) =
    (e.valid && (e.ehi == page && e.frame == paddr)) || translates page paddr es

-- The page at `page` in the machine `m'` has a frame, and the TLB takes it there.
abbrev pub IsMapped : ℕ → PageEntry → Machine → Type 0
IsMapped page e m' =
    (find_page page m'.space.tables ≡ some e) × (translates page e.page_paddr m'.tlb ≡ true)

-- The outcomes of a fault at the page `page`: a page that is there is loaded, for writing only if it
-- may be written; a page of the stack is made for a write; an error changes nothing. There is no outcome
-- only where a page of the stack needs a new table and no frame is left for it.
abbrev pub FaultSpec : FaultType → ℕ → Machine → Option (Option Errno × Machine) → Type 0
FaultSpec faulttype page m none =
    (find_page page m.space.tables ≡ none)
    × (faulttype ≡ vm_fault_write)
    × (stack_base ≤ page)
    × (take_in_tables (stack_entry page (getpaddr m.coremap 1)) m.space.tables ≡ none)
    × ((alloc_kpages (addtocoremap m.coremap (getpaddr m.coremap 1) 1 false) 1).1 ≡ 0)
FaultSpec faulttype page m (some (some code, m')) = m' ≡ m
FaultSpec faulttype page m (some (none, m')) =
    (m.space.vstart ≤ page)
    × (page < userstack)
    × (((e : PageEntry) × (find_page page m.space.tables ≡ some e)
          × ((faulttype ≡ vm_fault_read) ⊎ ((faulttype ≡ vm_fault_write) × (e.is_write ≡ true)))
          × IsMapped page e m'
          × (m'.space ≡ m.space)
          × (m'.coremap ≡ m.coremap))
        ⊎ ((find_page page m.space.tables ≡ none)
            × (faulttype ≡ vm_fault_write)
            × (stack_base ≤ page)
            × (getpaddr m.coremap 1 ≢ 0)
            × IsMapped page (stack_entry page (getpaddr m.coremap 1)) m'
            × IsSound m'.space
            × TableFrame (stack_entry page (getpaddr m.coremap 1)) m.space
                (addtocoremap m.coremap (getpaddr m.coremap 1) 1 false) m'.coremap))
