-- ===== src/AddrSpace/Regions.antt =====
-- The regions of an address space: `as_define_region` and `as_define_stack`.
use Prim.Native.Nat.{bit_and}
use ms_projects.Common.{
  ℕ, ◌+◌, ◌*◌, ◌/◌, ◌%◌, ◌^◌, ◌≤◌, ◌<◌, ◌≡◌, refl, ap, ◌⊎◌, inl, inr, ◌≢◌, Bool, true, false,
  Option, none, some, List, arith, if◌then◌else◌, ◌==◌, map,
}
use ms_projects.Common.Words.{add32, sub32, mul32, bit_and_page_frame, bit_and_offset}
use ms_projects.Common.Errno.{Errno, eunimp}
use ms_projects.Coremap.{page_size, page_frame}
use ms_projects.AddrSpace.{AddrSpace, PageEntry, userstack, as_create, find_page, freed}
use ms_projects.AddrSpace.Pages.{IsSound, AllFree-map, AllFree-Packed, find_entry-free}

-- The pages that a region of `sz` bytes at `vaddr` takes.
unfoldable pub region_pages : ℕ → ℕ → ℕ
region_pages vaddr sz =
    page_frame (sub32 (add32 (add32 sz (bit_and vaddr 0xfff)) page_size) 1) / page_size

-- The first region is the code, the second one the data; there is no third.
unfoldable pub as_define_region : AddrSpace → ℕ → ℕ → Option Errno × AddrSpace
unfolding region_pages
as_define_region space vaddr sz =
    let start = page_frame vaddr in
    let npages = region_pages vaddr sz in
    let top = add32 (mul32 npages page_size) start in
    if space.code_npages == 0
    then (
      none,
      record space { vstart = start; code_npages = npages; vbreakbase = top; vbreaktop = top },
    )
    else if space.data_npages == 0
    then (none, record space { data_npages = npages; vbreakbase = top; vbreaktop = top })
    else (some eunimp, space)

-- The initial stack pointer.
unfoldable pub as_define_stack : AddrSpace → ℕ
as_define_stack space = userstack

region_pages-covers :
    (vaddr sz : ℕ)
    → vaddr + sz + 2 * 4096 < 2 ^ 32
    → (vaddr + sz ≤ vaddr / 4096 * 4096 + region_pages vaddr sz * 4096)
      × (vaddr / 4096 * 4096 + region_pages vaddr sz * 4096 < vaddr + sz + 4096)
unfolding region_pages
region_pages-covers vaddr sz h = (omega (arith, pages), omega (arith, pages))
  where
    bytes : ℕ
    bytes = sz + vaddr % 4096 + 4095

    wrapped : sub32 (add32 (add32 sz (bit_and vaddr 0xfff)) page_size) 1 ≡ bytes
    wrapped = omega (arith, bit_and_offset vaddr)

    pages : region_pages vaddr sz ≡ bytes / 4096
    pages =
        omega (arith, ap (λ (x : ℕ). page_frame x) wrapped, bit_and_page_frame bytes (omega arith))

-- What a region leaves: the break at the first page boundary behind it, and the start of the space
-- at the page of the code.
abbrev pub RegionSpec : AddrSpace → ℕ → ℕ → Option Errno × AddrSpace → Type 0
RegionSpec space vaddr sz (some code, space') =
    (space' ≡ space) × (space.code_npages ≢ 0) × (space.data_npages ≢ 0) × (code ≡ eunimp)
RegionSpec space vaddr sz (none, space') =
    (space'.vbreakbase ≡ space'.vbreaktop)
    × (vaddr + sz ≤ space'.vbreakbase)
    × (space'.vbreakbase < vaddr + sz + 4096)
    × (space'.vbreakbase % 4096 ≡ 0)
    × (space'.tables ≡ space.tables)
    × (((space.code_npages ≡ 0)
          × (space'.vstart ≡ vaddr / 4096 * 4096)
          × (space'.vbreakbase ≡ space'.vstart + space'.code_npages * 4096))
        ⊎ ((space.code_npages ≢ 0)
            × (space.data_npages ≡ 0)
            × (space'.vstart ≡ space.vstart)
            × (space'.vbreakbase ≡ vaddr / 4096 * 4096 + space'.data_npages * 4096)))

-- `as_define_region`, for a region that ends two pages or more below the end of the 32-bit space: the
-- first and the second region put the break at the first page boundary behind the region, whose pages
-- cover it; the first one puts the start of the space at its page; a third one is refused and changes
-- nothing.
pub as_define_region-RegionSpec :
    (space : AddrSpace) (vaddr sz : ℕ)
    → vaddr + sz + 2 * 4096 < 2 ^ 32
    → RegionSpec space vaddr sz (as_define_region space vaddr sz)
unfolding as_define_region
as_define_region-RegionSpec space vaddr sz h =
    by_count (space.code_npages == 0) (space.data_npages == 0) refl refl
  where
    start : page_frame vaddr ≡ vaddr / 4096 * 4096
    start = bit_and_page_frame vaddr (omega arith)

    covers :
        (vaddr + sz ≤ vaddr / 4096 * 4096 + region_pages vaddr sz * 4096)
        × (vaddr / 4096 * 4096 + region_pages vaddr sz * 4096 < vaddr + sz + 4096)
    covers = region_pages-covers vaddr sz h

    top : ℕ
    top = add32 (mul32 (region_pages vaddr sz) page_size) (page_frame vaddr)

    top_lem : top ≡ vaddr / 4096 * 4096 + region_pages vaddr sz * 4096
    top_lem = omega (arith, start, covers)

    by_count :
        (a b : Bool)
        → (space.code_npages == 0) ≡ a
        → (space.data_npages == 0) ≡ b
        → RegionSpec space vaddr sz (
            if a
            then ((let r : Option Errno × AddrSpace = (
              none,
              record space {
                vstart = page_frame vaddr;
                code_npages = region_pages vaddr sz;
                vbreakbase = top;
                vbreaktop = top;
              },
            ) in
                r))
            else if b
            then (
              none,
              record space {
                data_npages = region_pages vaddr sz;
                vbreakbase = top;
                vbreaktop = top;
              },
            )
            else (some eunimp, space))
    by_count true b x y = (
      refl,
      omega (arith, top_lem, covers),
      omega (arith, top_lem, covers),
      omega (arith, top_lem),
      refl,
      inl (ground (arith, x), start, omega (arith, top_lem, start)),
    )
    by_count false true x y = (
      refl,
      omega (arith, top_lem, covers),
      omega (arith, top_lem, covers),
      omega (arith, top_lem),
      refl,
      inr (ground (arith, x), ground (arith, y), refl, top_lem),
    )
    by_count false false x y = (refl, ground (arith, x), ground (arith, y), refl)

-- `as_create` gives a sound space that has no page, whatever its block held.
pub as_create-IsSound :
    (memory : List PageEntry)
    → IsSound (as_create memory) × ((f : ℕ) → find_page f (as_create memory).tables ≡ none)
unfolding as_create find_page
as_create-IsSound memory = (
  record { packed = (AllFree-Packed (map freed memory) (AllFree-map memory), tt); last = refl },
  λ f. ground (arith, find_entry-free f (map freed memory) (AllFree-map memory)),
)
