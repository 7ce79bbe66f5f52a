-- ===== src/Coremap/Boot.antt =====
-- `coremap_bootstrap`: the map fits in the memory that is set aside for it, and starts all free.
use native.Mathlib.Nat.{mul-le-mul_right, mod-eq_of_lt}
use ms_projects.Common.{
  ℕ, zero, suc, ◌+◌, ◌-◌, ◌*◌, ◌/◌, ◌%◌, ◌^◌, ◌≤◌, ◌<◌, ◌≡◌, refl, ap, ◌∙◌, some, List, [], ◌∷◌,
  arith, length, get_elem?,
}
use ms_projects.Common.Words.{add32, sub32, mul32, bit_and_page_frame}
use ms_projects.Coremap.{
  CmEntry, Coremap, page_size, align_up, free_entry, init_coremap, round_up, map_size, map_base,
  coremap_bootstrap,
}
use ms_projects.Coremap.Search.{IsPlaced}

get_elem?-init_coremap :
    (n : ℕ) (es : List CmEntry) (k : ℕ)
    → n ≤ length es
    → k < n
    → get_elem? (init_coremap n es) k ≡ some free_entry
unfolding init_coremap
get_elem?-init_coremap zero es k h lt = absurd (omega arith)
get_elem?-init_coremap (suc n) [] k h lt = absurd (omega arith)
get_elem?-init_coremap (suc n) (e ∷ es) zero h lt = refl
get_elem?-init_coremap (suc n) (e ∷ es) (suc k) h lt =
    get_elem?-init_coremap n es k (omega arith) (omega arith)

length-init_coremap : (n : ℕ) (es : List CmEntry) → length (init_coremap n es) ≡ length es
unfolding init_coremap
length-init_coremap zero es = refl
length-init_coremap (suc n) [] = refl
length-init_coremap (suc n) (e ∷ es) = ap suc (length-init_coremap n es)

-- `roundUp` of a size gives the next multiple of the page size.
pub round_up-page : (n : ℕ) → n < 2 ^ 31 → round_up n page_size ≡ (n + 4095) / 4096 * 4096
unfolding round_up
round_up-page n h = bit_and_page_frame (sub32 (add32 n 4096) 1) (omega arith) ∙ omega arith

align_up_lem :
    (a : ℕ)
    → a < 2 ^ 31
    → (align_up a % page_size ≡ 0) × (a ≤ align_up a) × (align_up a < a + page_size)
align_up_lem a h = ground (arith, bit_and_page_frame a (omega arith))

-- The conditions on a boot: memory from `first` to `last`, an entry of at most 16 bytes, room for the
-- map, and storage for its entries.
pub record Boots (entry_size first last : ℕ) (memory : List CmEntry) : Type 0 where
  pub entry_small : entry_size ≤ 16
  pub low : 0 < first
  pub high : last ≤ 508 * 1024 * 1024
  pub room : first + (last - first) / page_size * entry_size + 2 * page_size ≤ last
  pub storage : last / page_size ≤ length memory

-- What a boot sets up.
pub record Booted (entry_size first last : ℕ) (cm : Coremap) : Type 0 where
  pub placed : IsPlaced cm
  pub map_fits : first + cm.cm_entries * entry_size ≤ cm.freespace
  pub in_memory : cm.freespace + cm.cm_entries * page_size ≤ last
  pub all_free : (k : ℕ) → k < cm.cm_entries → get_elem? cm.cells k ≡ some free_entry

-- The bytes of the map, rounded up.
map_size_lem :
    (entry_size first last : ℕ) (memory : List CmEntry)
    → Boots entry_size first last memory
    → map_size entry_size first last
      ≡ ((last - first) / page_size * entry_size + 4095) / 4096 * 4096
unfolding map_size
map_size_lem entry_size first last memory b =
    ap (λ (t : ℕ). round_up t page_size) bytes
    ∙ round_up-page ((last - first) / page_size * entry_size) (omega (arith, b.room, b.high))
  where
    pages : sub32 last first / page_size ≡ (last - first) / page_size
    pages = omega (arith, b.room, b.high)

    bytes :
        mul32 (sub32 last first / page_size) entry_size ≡ (last - first) / page_size * entry_size
    bytes = ap (λ (t : ℕ). mul32 t entry_size) pages ∙ mod-eq_of_lt (omega (arith, b.room, b.high))

map_base_lem :
    (entry_size first last : ℕ) (memory : List CmEntry)
    → Boots entry_size first last memory
    → let base = map_base entry_size first last in
      (base % page_size ≡ 0)
      × (first + (last - first) / page_size * entry_size ≤ base)
      × (base ≤ last)
unfolding map_base
map_base_lem entry_size first last memory b =
    let size = map_size_lem entry_size first last memory b in
    let sum : add32 first (map_size entry_size first last)
        ≡ first + map_size entry_size first last =
      omega (arith, size, b.room, b.high) in
    omega (
      arith,
      size,
      sum,
      b.room,
      align_up_lem (add32 first (map_size entry_size first last))
          (omega (arith, size, b.room, b.high)),
    )

entries-le :
    (entry_size first last : ℕ) (memory : List CmEntry)
    → Boots entry_size first last memory
    → sub32 (last / page_size) (map_base entry_size first last / page_size)
      ≤ (last - first) / page_size
entries-le entry_size first last memory b =
    let place = map_base_lem entry_size first last memory b in omega (arith, place, b.high)

-- After `coremap_bootstrap` the map lies below the first frame that it manages, every frame lies in
-- memory and is page-aligned, and every entry is free.
pub coremap_bootstrap-Booted :
    (entry_size first last : ℕ) (memory : List CmEntry)
    → Boots entry_size first last memory
    → Booted entry_size first last (coremap_bootstrap entry_size memory first last)
unfolding coremap_bootstrap
coremap_bootstrap-Booted entry_size first last memory b =
    let base = map_base entry_size first last in
    let place = map_base_lem entry_size first last memory b in
    let count : sub32 (last / 4096) (base / 4096) ≡ last / 4096 - base / 4096 =
      omega (arith, place, b.high) in
    record {
      placed = record {
        stored =
            omega
              (arith, length-init_coremap (sub32 (last / 4096) (base / 4096)) memory, b.storage);
        aligned = place.0;
        positive = omega (arith, place.1, b.low);
        fits = omega (arith, place, b.high);
      };
      map_fits =
          omega (
            arith,
            place.1,
            mul-le-mul_right entry_size (entries-le entry_size first last memory b),
          );
      in_memory = omega (arith, place, b.high);
      all_free = λ k lt.
          get_elem?-init_coremap (sub32 (last / 4096) (base / 4096)) memory k
            (omega (arith, b.storage)) lt;
    }
