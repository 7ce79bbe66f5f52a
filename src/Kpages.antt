-- ===== src/Kpages.antt =====
-- Allocation of physical pages for the kernel: `vm_bootstrap`, `alloc_kpages`, `page_free` and
-- `free_kpages` of kern/vm/vm.c. Each runs whole under `coremap_slock`, so it is one step.
pub mod Alloc
mod Tests
use ms_projects.Common.{ℕ, Bool, true, ◌||◌, ◌==◌, if◌then◌else◌, List}
use ms_projects.Common.Words.{add32, sub32}
use ms_projects.Coremap.{
  Coremap, CmEntry, coremap_bootstrap, getpaddr, addtocoremap, removefromcoremap,
}

-- MIPS_KSEG0, and the two conversions of kern/arch/mips/include/vm.h.
abbrev pub kseg0 : ℕ
kseg0 = 0x80000000

abbrev pub paddr_to_kvaddr : ℕ → ℕ
paddr_to_kvaddr paddr = add32 paddr kseg0

abbrev pub kvaddr_to_paddr : ℕ → ℕ
kvaddr_to_paddr vaddr = sub32 vaddr kseg0

-- The map, and the first address that it leaves free.
unfoldable pub vm_bootstrap : ℕ → List CmEntry → ℕ → ℕ → Coremap × ℕ
unfolding coremap_bootstrap
vm_bootstrap entry_size memory first last =
    let cm = coremap_bootstrap entry_size memory first last in (cm, cm.freespace)

-- `npages` is not negative.
unfoldable pub alloc_kpages : Coremap → ℕ → Coremap × ℕ
alloc_kpages cm npages =
    let paddr = getpaddr cm npages in
    if paddr == 0 || npages == 0
    then (cm, 0)
    else (addtocoremap cm paddr npages true, paddr_to_kvaddr paddr)

unfoldable pub page_free : Coremap → ℕ → Coremap
page_free cm paddr = removefromcoremap cm paddr

unfoldable pub free_kpages : Coremap → ℕ → Coremap
free_kpages cm vaddr = removefromcoremap cm (kvaddr_to_paddr vaddr)
