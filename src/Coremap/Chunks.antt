-- ===== src/Coremap/Chunks.antt =====
-- The map as a sequence of chunks, and what `removefromcoremap` does to it.
use ms_projects.Common.{
  ℕ, zero, suc, ◌+◌, ◌-◌, ◌^◌, ◌≤◌, ◌<◌, ◌≡◌, refl, ap, ◌∙◌, Bool, List, [], ◌∷◌, ◌++◌, arith,
  length, replicate, update_from, update_from-append, lt→ltb, le→ltb, replicate-append,
}
use mathlib.Core.List.{append_assoc}
use ms_projects.Coremap.{
  CmEntry, Coremap, free_entry, chunk_entry, clear_run, removefromcoremap, getindex,
}

-- A free frame, or `n` frames that were allocated together.
pub data Chunk : Type 0 where
  gap : Chunk
  chunk : (n : ℕ) → (kern : Bool) → Chunk

abbrev pub entries : Chunk → List CmEntry
entries gap = free_entry ∷ []
entries (chunk n kern) = replicate n (chunk_entry n kern)

abbrev pub layout : List Chunk → List CmEntry
layout [] = []
layout (c ∷ cs) = entries c ++ layout cs

-- The count that the loop reads when it steps past a chunk.
abbrev pub next_cnt : List CmEntry → ℕ
next_cnt [] = 0
next_cnt (e ∷ es) = e.chunk_cnt

-- `n` entries, the last of them at count `i + n`, are cleared.
pub clear_run-replicate :
    (n i c : ℕ) (v : CmEntry) (rest : List CmEntry)
    → v.chunk_cnt ≡ c
    → i + n ≤ c
    → clear_run i (replicate n v ++ rest) ≡ replicate n free_entry ++ clear_run (i + n) rest
unfolding clear_run
clear_run-replicate zero i c v rest e h = ap (λ (t : ℕ). clear_run t rest) (omega arith)
clear_run-replicate (suc n) i c v rest e h = rw (lt→ltb i v.chunk_cnt (omega arith)) (
    ap (λ t. free_entry ∷ t)
      (clear_run-replicate n (i + 1) c v rest e (omega arith)
        ∙ ap (λ (t : ℕ). replicate n free_entry ++ clear_run t rest) (omega arith)))

pub clear_run_stops : (i : ℕ) (rest : List CmEntry) → next_cnt rest ≤ i → clear_run i rest ≡ rest
unfolding clear_run
clear_run_stops i [] h = refl
clear_run_stops i (e ∷ es) h = rw (le→ltb i e.chunk_cnt h)

next_cnt-replicate :
    (n : ℕ) (v : CmEntry) (rest : List CmEntry)
    → 0 < n
    → next_cnt (replicate n v ++ rest) ≡ v.chunk_cnt
next_cnt-replicate zero v rest h = absurd (omega arith)
next_cnt-replicate (suc n) v rest h = refl

-- A chunk that the loop enters with `i` already counted loses its first `m - i` entries.
clear_run_enters :
    (i m : ℕ) (v : CmEntry) (rest : List CmEntry)
    → v.chunk_cnt ≡ m
    → 0 < i
    → i < m
    → clear_run i (replicate m v ++ rest) ≡ replicate (m - i) free_entry ++ (replicate i v ++ rest)
clear_run_enters i m v rest e pos h =
    ap (λ t. clear_run i (t ++ rest)) (replicate-append (m - i) i m v (omega arith))
    ∙ ap (clear_run i) (append_assoc (replicate (m - i) v) (replicate i v) rest)
    ∙ clear_run-replicate (m - i) i m v (replicate i v ++ rest) e (omega arith)
    ∙ ap (λ t. replicate (m - i) free_entry ++ t)
        (clear_run_stops (i + (m - i)) (replicate i v ++ rest)
          (omega (arith, next_cnt-replicate i v rest pos)))

-- A chunk has at least one page, and fewer than its count field can hold.
abbrev pub IsChunk : Chunk → Type 0
IsChunk gap = Unit {0}
IsChunk (chunk n kern) = (0 < n) × (n < 2 ^ 17)

-- The storage holds the chunks `before`, then a chunk of `n` pages at `paddr`, then `rest`.
pub record HoldsAt (cm : Coremap) (before : List Chunk) (n : ℕ) (kern : Bool) (rest : List CmEntry)
    (paddr : ℕ) : Type 0 where
  pub cells_eq : cm.cells ≡ layout before ++ (replicate n (chunk_entry n kern) ++ rest)
  pub index_eq : getindex cm paddr ≡ length (layout before)
  pub sized : IsChunk (chunk n kern)

module _ {cm : Coremap} {before : List Chunk} {n : ℕ} {kern : Bool} {rest : List CmEntry}
    {paddr : ℕ} (held : HoldsAt cm before n kern rest paddr) where
  -- The loop frees the chunk, and goes on into `rest`.
  removefromcoremap-cells :
      (removefromcoremap cm paddr).cells
      ≡ layout before ++ (replicate n free_entry ++ clear_run n rest)
  unfolding removefromcoremap
  removefromcoremap-cells =
      ap (update_from (getindex cm paddr) (clear_run 0)) held.cells_eq
      ∙ update_from-append (layout before) _ (getindex cm paddr) (clear_run 0) held.index_eq
      ∙ ap (λ t. layout before ++ t)
          (clear_run-replicate n 0 n (chunk_entry n kern) rest (omega (arith, held.sized))
              (omega arith)
            ∙ ap (λ (t : ℕ). replicate n free_entry ++ clear_run t rest) (omega arith))

  -- Where what follows the chunk is free, or is a chunk of at most as many pages, exactly the pages
  -- of the chunk become free.
  pub removefromcoremap_exact :
      next_cnt rest ≤ n
      → (removefromcoremap cm paddr).cells ≡ layout before ++ (replicate n free_entry ++ rest)
  removefromcoremap_exact h =
      removefromcoremap-cells
      ∙ ap (λ t. layout before ++ (replicate n free_entry ++ t)) (clear_run_stops n rest h)

  -- Where a chunk of more pages follows, as many of its pages as it has more are marked free too.
  pub removefromcoremap_overrun :
      (m : ℕ) (kern' : Bool) (rest' : List CmEntry)
      → rest ≡ replicate m (chunk_entry m kern') ++ rest'
      → n < m
      → m < 2 ^ 17
      → (removefromcoremap cm paddr).cells
        ≡ layout before
          ++ (replicate n free_entry
              ++ (replicate (m - n) free_entry ++ (replicate n (chunk_entry m kern') ++ rest')))
  removefromcoremap_overrun m kern' rest' e h small =
      removefromcoremap-cells
      ∙ ap (λ t. layout before ++ (replicate n free_entry ++ t))
          (ap (clear_run n) e
            ∙ clear_run_enters n m (chunk_entry m kern') rest' (omega arith)
                (omega (arith, held.sized)) h)
