-- ===== src/Coremap.antt =====
-- The map of physical memory: kern/vm/coremap.c, with coremap.h.
pub mod Search
pub mod Chunks
pub mod Boot
use Prim.Native.Nat.{bit_and}
use ms_projects.Common.{
  ℕ, zero, suc, ◌+◌, ◌-◌, ◌/◌, ◌%◌, ◌^◌, Bool, true, false, Option, none, some, List, [], ◌∷◌, ltb,
  ◌==◌, if◌then◌else◌, not, update_from,
}
use ms_projects.Common.Words.{add32, sub32, mul32}

-- `struct cm_entry`: a 17-bit count and two bits.
pub record CmEntry : Type 0 where
  pub chunk_cnt : ℕ
  pub is_kern_page : Bool
  pub is_allocated : Bool

abbrev pub page_size : ℕ
page_size = 4096

-- `cells` is the storage that `coremap` points to, of which the first `cm_entries` are in use.
pub record Coremap : Type 0 where
  pub cells : List CmEntry
  pub cm_entries : ℕ
  pub cm_lastentry : ℕ
  pub freespace : ℕ

abbrev pub free_entry : CmEntry
free_entry = record { chunk_cnt = 0; is_kern_page = false; is_allocated = false }

-- The first `n` entries are cleared.
unfoldable pub init_coremap : ℕ → List CmEntry → List CmEntry
init_coremap zero es = es
init_coremap (suc n) [] = []
init_coremap (suc n) (e ∷ es) = free_entry ∷ init_coremap n es

-- `(n + m - 1) & ~(m - 1)` on 32-bit words.
unfoldable pub round_up : ℕ → ℕ → ℕ
round_up n m = bit_and (sub32 (add32 n m) 1) (2 ^ 32 - 1 - sub32 m 1)

-- `first & PAGE_FRAME`
abbrev pub page_frame : ℕ → ℕ
page_frame x = bit_and x 0xfffff000

abbrev pub align_up : ℕ → ℕ
align_up first = if not (first % page_size == 0) then add32 (page_frame first) page_size else first

-- The size of the map of the memory from `first` to `last`, at `entry_size` bytes to an entry.
unfoldable pub map_size : ℕ → ℕ → ℕ → ℕ
unfolding round_up
map_size entry_size first last =
    round_up (mul32 (sub32 last first / page_size) entry_size) page_size

-- The first address behind the map.
unfoldable pub map_base : ℕ → ℕ → ℕ → ℕ
unfolding map_size
map_base entry_size first last = align_up (add32 first (map_size entry_size first last))

-- `memory` is what the storage of the map holds before it is cleared.
unfoldable pub coremap_bootstrap : ℕ → List CmEntry → ℕ → ℕ → Coremap
coremap_bootstrap entry_size memory first last =
    let base = map_base entry_size first last in
    let entries = sub32 (last / page_size) (base / page_size) in
    record {
      cells = init_coremap entries memory;
      cm_entries = entries;
      cm_lastentry = 0;
      freespace = base;
    }

unfoldable pub getindex : Coremap → ℕ → ℕ
getindex cm paddr = sub32 paddr cm.freespace / page_size

unfoldable pub indextopaddr : Coremap → ℕ → ℕ
indextopaddr cm index = add32 (mul32 index page_size) cm.freespace

-- The loop of `addtocoremap`, on the entries from `index` on.
unfoldable pub mark_run : ℕ → CmEntry → List CmEntry → List CmEntry
mark_run zero v es = es
mark_run (suc n) v [] = []
mark_run (suc n) v (e ∷ es) = v ∷ mark_run n v es

-- What the loop writes: the count goes into 17 bits.
abbrev pub chunk_entry : ℕ → Bool → CmEntry
chunk_entry npages iskern = record {
  chunk_cnt = npages % 2 ^ 17;
  is_kern_page = iskern;
  is_allocated = true;
}

unfoldable pub addtocoremap : Coremap → ℕ → ℕ → Bool → Coremap
unfolding mark_run getindex
addtocoremap cm paddr npages iskern = record cm {
  cells = update_from (getindex cm paddr) (mark_run npages (chunk_entry npages iskern)) cm.cells;
}

-- The loop of `removefromcoremap`, on the entries from `index` on: its test reads the count of the
-- entry that it has reached, so after the last one of a chunk that of the next entry.
unfoldable pub clear_run : ℕ → List CmEntry → List CmEntry
clear_run i [] = []
clear_run i (e ∷ es) = if ltb i e.chunk_cnt then free_entry ∷ clear_run (i + 1) es else e ∷ es

unfoldable pub removefromcoremap : Coremap → ℕ → Coremap
unfolding clear_run getindex
removefromcoremap cm paddr = record cm {
  cells = update_from (getindex cm paddr) (clear_run 0) cm.cells;
}

-- The loop of `getpaddr`, `n` entries before its end: the result is that of the `return`.
unfoldable pub find_run : ℕ → ℕ → ℕ → ℕ → List CmEntry → Option ℕ
find_run npages zero i count es = none
find_run npages (suc n) i count [] = none
find_run npages (suc n) i count (e ∷ es) =
    let more = find_run npages n (i + 1) (count + 1) es in
    let past = find_run npages n (i + 1) 0 es in
    if e.is_allocated
    then past
    else if count + 1 == npages
    then some (add32 (sub32 i (count + 1)) 1)
    else more

unfoldable pub getpaddr : Coremap → ℕ → ℕ
unfolding find_run indextopaddr
getpaddr cm npages = elim (find_run npages cm.cm_entries 0 0 cm.cells) [
  | none ↦ 0
  | some index ↦ indextopaddr cm index
]
