-- ===== src/AddrSpace.antt =====
-- User address spaces: kern/vm/addrspace.c with addrspace.h, and `page_alloc` and `sys_sbrk` of
-- kern/vm/vm.c. The contents of the pages are left out, and so is what the processor does between an
-- entry of its TLB and the access.
pub mod Pages
pub mod Faults
pub mod Regions
pub mod Break
pub mod Copying
pub mod Copies
mod Tests
use ms_projects.Common.{
  ℕ, zero, suc, ◌+◌, ◌-◌, ◌*◌, ◌/◌, ◌%◌, ◌^◌, Bool, true, false, not, ◌&&◌, ◌||◌, Option, none,
  some, List, [], ◌∷◌, ◌++◌, map, take, replicate, length, ltb, leb, ◌==◌, if◌then◌else◌,
  update_from,
}
use ms_projects.Common.Words.{add32, sub32, mul32}
use ms_projects.Common.Errno.{Errno, eunimp, enomem, efault, einval}
use ms_projects.Coremap.{Coremap, page_size, page_frame, getpaddr, addtocoremap}
use ms_projects.Kpages.{alloc_kpages}

-- `struct page_entry`, which is free where its `page_paddr` is 0.
pub record PageEntry : Type 0 where
  pub page_vaddr : ℕ
  pub page_paddr : ℕ
  pub is_read : Bool
  pub is_write : Bool
  pub is_exe : Bool

-- PTABLE_ARRAY_SIZE
abbrev pub ptable_array_size : ℕ
ptable_array_size = 338

-- `struct page_table`; `entry_count` has 9 bits.
pub record PageTable : Type 0 where
  pub table : List PageEntry
  pub entry_count : ℕ

-- `struct addrspace`: the tables are those that hang together from `start` on, and `end` is the place
-- in this list that the pointer of that name has.
pub record AddrSpace : Type 0 where
  pub vbreakbase : ℕ
  pub vbreaktop : ℕ
  pub heap_npages : ℕ
  pub vstart : ℕ
  pub tables : List PageTable
  pub end : ℕ
  pub code_npages : ℕ
  pub data_npages : ℕ

abbrev pub freed : PageEntry → PageEntry
freed e = record e { page_paddr = 0 }

-- `memory` is what the block for the first table holds.
unfoldable pub as_create : List PageEntry → AddrSpace
as_create memory = record {
  vbreakbase = 0;
  vbreaktop = 0;
  heap_npages = 0;
  vstart = 0;
  tables = record { table = map freed memory; entry_count = 0 } ∷ [];
  end = 0;
  code_npages = 0;
  data_npages = 0;
}

abbrev pub in_front {ℓ} : {A : Type ℓ} → A → Option (List A) → Option (List A)
in_front x none = none
in_front x (some xs) = some (x ∷ xs)

-- The first free entry is taken.
unfoldable pub take_entry : PageEntry → List PageEntry → Option (List PageEntry)
take_entry v [] = none
take_entry v (e ∷ es) =
    let rest = take_entry v es in if e.page_paddr == 0 then some (v ∷ es) else in_front e rest

-- The loop of `addPageEntry` over the tables.
unfoldable pub take_in_tables : PageEntry → List PageTable → Option (List PageTable)
unfolding take_entry
take_in_tables v [] = none
take_in_tables v (t ∷ ts) =
    let later = in_front t (take_in_tables v ts) in
    if t.entry_count == ptable_array_size then later else elim (take_entry v t.table) [
      | none ↦ later
      | some es ↦ some (record { table = es; entry_count = (t.entry_count + 1) % 2 ^ 9 } ∷ ts)
    ]

-- The table that is made where there is no free entry, of what its block holds.
unfoldable pub new_table : PageEntry → List PageEntry → PageTable
new_table v [] = record { table = v ∷ []; entry_count = 1 }
new_table v (e ∷ es) = record { table = v ∷ map freed es; entry_count = 1 }

-- `end->nextPageTable = temp` cuts off the tables behind `end`.
unfoldable pub append_table : PageTable → AddrSpace → AddrSpace
append_table t space = record space {
  tables = take (space.end + 1) space.tables ++ (t ∷ []);
  end = space.end + 1;
}

-- `addPageEntry`; `memory` is what the block of a new table holds. For a table of 4064 bytes `kmalloc`
-- calls `alloc_kpages(1)`. Where there is no frame for it, `none`: the source writes through NULL.
unfoldable pub add_page_entry :
    List PageEntry → PageEntry → AddrSpace → Coremap → Option (AddrSpace × Coremap)
unfolding take_in_tables append_table new_table
add_page_entry memory v space cm = elim (take_in_tables v space.tables) [
  | some ts ↦ some (record space { tables = ts }, cm)
  | none ↦
      if (alloc_kpages cm 1).1 == 0
      then none
      else some (append_table (new_table v memory) space, (alloc_kpages cm 1).0)
]

-- The search of `vm_fault` in one table, and over the tables.
unfoldable pub find_entry : ℕ → List PageEntry → Option PageEntry
find_entry faultaddress [] = none
find_entry faultaddress (e ∷ es) =
    let rest = find_entry faultaddress es in
    if e.page_paddr == 0 then none else if e.page_vaddr == faultaddress then some e else rest

unfoldable pub find_page : ℕ → List PageTable → Option PageEntry
unfolding find_entry
find_page faultaddress [] = none
find_page faultaddress (t ∷ ts) =
    let later = find_page faultaddress ts in
    elim (find_entry faultaddress t.table) [ none ↦ later | some e ↦ some e ]

-- An entry of the TLB; `elo` is written with both bits set.
pub record TlbEntry : Type 0 where
  pub ehi : ℕ
  pub frame : ℕ
  pub valid : Bool
  pub dirty : Bool

abbrev pub loaded : ℕ → ℕ → TlbEntry
loaded faultaddress paddr = record { ehi = faultaddress; frame = paddr; valid = true; dirty = true }

-- The first invalid entry is written.
unfoldable pub tlb_fill : TlbEntry → List TlbEntry → Option (List TlbEntry)
tlb_fill v [] = none
tlb_fill v (e ∷ es) = let rest = tlb_fill v es in if e.valid then in_front e rest else some (v ∷ es)

unfoldable pub overwrite : TlbEntry → List TlbEntry → List TlbEntry
overwrite v [] = []
overwrite v (e ∷ es) = v ∷ es

-- `random` is the entry that `tlb_random` takes where all are valid.
unfoldable pub tlb_load : ℕ → TlbEntry → List TlbEntry → List TlbEntry
unfolding tlb_fill overwrite
tlb_load random v tlb = elim (tlb_fill v tlb) [
  | some tlb' ↦ tlb'
  | none ↦ update_from random (overwrite v) tlb
]

-- The machine that a fault finds.
pub record Machine : Type 0 where
  pub space : AddrSpace
  pub coremap : Coremap
  pub tlb : List TlbEntry

abbrev pub stack_base : ℕ
stack_base = 0x7ff00000

abbrev pub userstack : ℕ
userstack = 0x80000000

pub data FaultType : Type 0 where
  vm_fault_read vm_fault_write vm_fault_readonly other_fault : FaultType

abbrev pub fault_loaded : ℕ → ℕ → ℕ → Machine → Option Errno × Machine
fault_loaded random faultaddress paddr m =
    (none, record m { tlb = tlb_load random (loaded faultaddress paddr) m.tlb })

abbrev pub stack_entry : ℕ → ℕ → PageEntry
stack_entry faultaddress paddr = record {
  page_vaddr = faultaddress;
  page_paddr = paddr;
  is_read = true;
  is_write = true;
  is_exe = false;
}

-- A page of the stack is made by the first write to it; `none` where `addPageEntry` writes through NULL.
unfoldable pub grow_stack : ℕ → List PageEntry → ℕ → Machine → Option (Option Errno × Machine)
unfolding add_page_entry
grow_stack random memory faultaddress m =
    let paddr = getpaddr m.coremap 1 in
    if paddr == 0
    then some (some enomem, m)
    else elim (add_page_entry memory (stack_entry faultaddress paddr) m.space
        (addtocoremap m.coremap paddr 1 false)) [
          | none ↦ none
          | some (space, cm) ↦
              some
                (fault_loaded random faultaddress paddr (record m { space = space; coremap = cm }))
        ]

-- `vm_fault` behind the search, for the page that it has found.
unfoldable pub fault_on :
    ℕ
    → List PageEntry
    → FaultType
    → ℕ
    → Option PageEntry
    → Machine
    → Option (Option Errno × Machine)
unfolding grow_stack
fault_on random memory vm_fault_readonly faultaddress found m = some (some efault, m)
fault_on random memory vm_fault_read faultaddress none m = some (some efault, m)
fault_on random memory vm_fault_read faultaddress (some e) m =
    some (fault_loaded random faultaddress e.page_paddr m)
fault_on random memory vm_fault_write faultaddress (some e) m =
    some (if e.is_write then fault_loaded random faultaddress e.page_paddr m else (some efault, m))
fault_on random memory vm_fault_write faultaddress none m =
    if leb stack_base faultaddress && ltb faultaddress userstack
    then grow_stack random memory faultaddress m
    else some (some efault, m)
fault_on random memory other_fault faultaddress found m = some (some einval, m)

unfoldable pub vm_fault :
    ℕ → List PageEntry → FaultType → ℕ → Machine → Option (Option Errno × Machine)
unfolding fault_on find_page
vm_fault random memory faulttype faultaddress m =
    let page = page_frame faultaddress in
    if leb userstack page || ltb page m.space.vstart
    then some (some efault, m)
    else fault_on random memory faulttype page (find_page page m.space.tables) m
