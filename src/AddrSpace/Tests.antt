-- ===== src/AddrSpace/Tests.antt =====
-- The theorems on address spaces at concrete inputs.
use ms_projects.Common.{
  ℕ, ◌-◌, ◌^◌, ◌≡◌, refl, true, false, Option, none, some, List, [], ◌∷◌, arith, replicate,
}
use ms_projects.Coremap.{Coremap, free_entry, getpaddr, addtocoremap}
use ms_projects.AddrSpace.{
  PageEntry, AddrSpace, Machine, stack_entry, as_create, add_page_entry, find_page, take_entry,
  take_in_tables, find_entry,
}
use ms_projects.AddrSpace.Regions.{as_define_region, RegionSpec, as_define_region-RegionSpec}
use ms_projects.AddrSpace.Copying.{
  as_copy, as_complete_load, LoadedPage, as_complete_load-find_page,
}
use ms_projects.AddrSpace.Copies.{CopySpec, as_copy-CopySpec}
use ms_projects.Common.Words.{add32, mul32}
use ms_projects.AddrSpace.Break.{
  heap_page, page_alloc, missing_pages, sys_sbrk, BreakSpec, sys_sbrk-BreakSpec,
}

abbrev stale : PageEntry
stale = record { page_vaddr = 77; page_paddr = 99; is_read = false; is_write = true; is_exe = true }

abbrev memory : List PageEntry
memory = replicate 338 stale

abbrev top_page : PageEntry
top_page = stack_entry 0x7ffff000 0x9000

abbrev four_frames : Coremap
four_frames = record {
  cells = replicate 4 free_entry;
  cm_entries = 4;
  cm_lastentry = 0;
  freespace = 0x9000;
}

abbrev machine : Machine
machine = record {
  space = as_create memory;
  coremap = four_frames;
  tlb = replicate 64 (record { ehi = 0; frame = 0; valid = false; dirty = false });
}

as_define_region-RegionSpec_example :
    RegionSpec (as_create memory) 0x400010 5000 (as_define_region (as_create memory) 0x400010 5000)
as_define_region-RegionSpec_example =
    as_define_region-RegionSpec (as_create memory) 0x400010 5000 (omega arith)

-- A heap of one page that is not full.
abbrev with_heap : Machine
with_heap = record {
  space = record {
    vbreakbase = 0x500000;
    vbreaktop = 0x500800;
    heap_npages = 1;
    vstart = 0x400000;
    tables = [];
    end = 0;
    code_npages = 2;
    data_npages = 1;
  };
  coremap = machine.coremap;
  tlb = [];
}

sys_sbrk-BreakSpec_example : BreakSpec 6000 with_heap (sys_sbrk memory 6000 with_heap)
sys_sbrk-BreakSpec_example = sys_sbrk-BreakSpec memory 6000 with_heap (omega arith)

-- A heap whose pages have come by one call.
abbrev no_heap : Machine
no_heap = record with_heap {
  space = record (as_create (replicate 8 stale)) {
    vbreakbase = 0x500000;
    vbreaktop = 0x500000;
    vstart = 0x400000;
  };
}

abbrev sbrk_then : ℕ → Option Machine → Option Machine
sbrk_then amount none = none
sbrk_then amount (some m) = elim (sys_sbrk memory amount m) [ none ↦ none | some (r, m') ↦ some m' ]

-- Up by two pages, down by two and up by three: the count of pages is 3, but the third page has been
-- mapped where the first is, and there is none below the break.
abbrev up_down_up : Option Machine
up_down_up = sbrk_then 0x3000 (sbrk_then (2 ^ 32 - 0x2000) (sbrk_then 0x2000 (some no_heap)))

abbrev heap_view : Option Machine → Option (ℕ × ℕ × Option PageEntry)
heap_view none = none
heap_view (some m) =
    some (m.space.vbreaktop, m.space.heap_npages, find_page 0x502000 m.space.tables)

heap_with_hole : heap_view up_down_up ≡ some (0x503000, 3, none)
unfolding sys_sbrk page_alloc heap_page missing_pages add_page_entry take_in_tables take_entry
    find_page find_entry as_create getpaddr addtocoremap
heap_with_hole = refl

-- A space of one table with a page of code.
abbrev loaded_space : AddrSpace
loaded_space = record with_heap.space {
  tables = record { table = stack_entry 0x400000 0x9000 ∷ replicate 3 stale; entry_count = 1 } ∷ [];
}

as_complete_load-find_page_example :
    LoadedPage
      (add32 0x400000 (mul32 4096 2))
      0x500000
      (find_page 0x400000 loaded_space.tables)
      (find_page 0x400000 (as_complete_load loaded_space).tables)
as_complete_load-find_page_example = as_complete_load-find_page loaded_space 0x400000

as_copy-CopySpec_example :
    CopySpec loaded_space (as_copy (replicate 4 stale) loaded_space machine.coremap)
as_copy-CopySpec_example =
    as_copy-CopySpec (replicate 4 stale) loaded_space machine.coremap (refl, tt)
