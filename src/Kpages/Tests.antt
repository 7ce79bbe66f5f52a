-- ===== src/Kpages/Tests.antt =====
-- Runs of the map of physical memory, and the theorems at concrete inputs.
use ms_projects.Common.{
  ℕ, zero, suc, ◌≤◌, ◌≡◌, refl, sym, subst, true, [], ◌∷◌, ◌++◌, arith, replicate, drop,
}
use ms_projects.Coremap.{
  Coremap, free_entry, chunk_entry, coremap_bootstrap, map_base, getindex, addtocoremap,
  removefromcoremap, getpaddr,
}
use ms_projects.Coremap.Search.{IsPlaced, Found, getpaddr-Found}
use ms_projects.Coremap.Chunks.{next_cnt, HoldsAt, gap, chunk, layout, removefromcoremap_overrun}
use ms_projects.Coremap.Boot.{Boots, Booted, coremap_bootstrap-Booted}
use ms_projects.Kpages.{alloc_kpages, free_kpages}
use ms_projects.Kpages.Alloc.{Allocates, IsTidy, alloc_kpages-Allocates, free_kpages-alloc_kpages}

-- Six frames from 0x3000 on: one page, a chunk of three, two free ones.
abbrev six : Coremap
six = record {
  cells = layout (chunk 1 true ∷ chunk 3 true ∷ gap ∷ gap ∷ []);
  cm_entries = 6;
  cm_lastentry = 0;
  freespace = 0x3000;
}

six-IsPlaced : IsPlaced six
six-IsPlaced = omega arith

finds_two : getpaddr six 2 ≡ 0x7000
unfolding getpaddr
finds_two = refl

finds_no_three : getpaddr six 3 ≡ 0
unfolding getpaddr
finds_no_three = refl

getpaddr-Found_example : Found six 2 (getpaddr six 2)
getpaddr-Found_example = getpaddr-Found six 2 six-IsPlaced (omega arith)

alloc_kpages-Allocates_example : Allocates six 2 (alloc_kpages six 2)
alloc_kpages-Allocates_example = alloc_kpages-Allocates six 2 six-IsPlaced (omega arith)

six-IsTidy : IsTidy six
six-IsTidy zero e at f = cc
six-IsTidy (suc zero) e at f = cc
six-IsTidy (suc (suc zero)) e at f = cc
six-IsTidy (suc (suc (suc zero))) e at f = cc
six-IsTidy (suc (suc (suc (suc zero)))) e at f = ground arith
six-IsTidy (suc (suc (suc (suc (suc zero))))) e at f = ground arith
six-IsTidy (suc (suc (suc (suc (suc (suc k)))))) e at f = cc

free_kpages-alloc_kpages_example : free_kpages (alloc_kpages six 2).0 (alloc_kpages six 2).1 ≡ six
unfolding alloc_kpages getpaddr addtocoremap
free_kpages-alloc_kpages_example =
    free_kpages-alloc_kpages six 2 six-IsPlaced six-IsTidy (omega arith) (omega arith) (omega arith)
      (λ index h e. behind index (omega arith))
  where
    behind : (index : ℕ) → index ≡ 4 → next_cnt (drop 2 (drop index six.cells)) ≤ 2
    behind index e =
        subst (λ (t : ℕ). next_cnt (drop 2 (drop t six.cells)) ≤ 2) (sym e) (omega arith)

six-HoldsAt_three : HoldsAt six (chunk 1 true ∷ []) 3 true (free_entry ∷ free_entry ∷ []) 0x4000
unfolding getindex
six-HoldsAt_three = record { cells_eq = refl; index_eq = refl; sized = omega arith }

six-HoldsAt_one :
    HoldsAt six [] 1 true
      (replicate 3 (chunk_entry 3 true) ++ (free_entry ∷ free_entry ∷ []))
      0x3000
unfolding getindex
six-HoldsAt_one = record { cells_eq = refl; index_eq = refl; sized = omega arith }

-- Giving back the single page also marks two pages of the chunk behind it as free.
removefromcoremap_overrun_example :
    (removefromcoremap six 0x3000).cells
    ≡ free_entry ∷ free_entry ∷ free_entry ∷ chunk_entry 3 true ∷ free_entry ∷ free_entry ∷ []
removefromcoremap_overrun_example =
    removefromcoremap_overrun six-HoldsAt_one 3 true (free_entry ∷ free_entry ∷ []) refl
      (omega arith) (omega arith)

small_boot : Boots 4 0x10000 0x20000 (replicate 32 free_entry)
small_boot = omega arith

boots_fifteen : (coremap_bootstrap 4 (replicate 32 free_entry) 0x10000 0x20000).cm_entries ≡ 15
unfolding coremap_bootstrap map_base
boots_fifteen = refl

coremap_bootstrap-Booted_example :
    Booted 4 0x10000 0x20000 (coremap_bootstrap 4 (replicate 32 free_entry) 0x10000 0x20000)
coremap_bootstrap-Booted_example =
    coremap_bootstrap-Booted 4 0x10000 0x20000 (replicate 32 free_entry) small_boot
