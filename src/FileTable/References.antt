-- ===== src/FileTable/References.antt =====
-- The count of references of a handle is the number of slots that point to it.
use ms_projects.Common.{
  ℕ, zero, suc, ◌+◌, ◌≤◌, ◌<◌, ◌≡◌, refl, ap, inl, inr, ◌≢◌, Option, none, some, arith,
  if◌then◌else◌, ◌==◌, Option-cases, ℕ_discrete,
}
use ms_projects.FileTable.{FileHandle, Files, set, released}

abbrev pub points : Option ℕ → ℕ → ℕ
points none h = 0
points (some p) h = if p == h then 1 else 0

-- The slots below `n` that point to `h`.
pub pointers : ℕ → (ℕ → Option ℕ) → ℕ → ℕ
pointers zero table h = 0
pointers (suc n) table h = pointers n table h + points (table n) h

pointers-set_above :
    (n : ℕ) (table : ℕ → Option ℕ) (i : ℕ) (v : Option ℕ) (h : ℕ)
    → n ≤ i
    → pointers n (set table i v) h ≡ pointers n table h
unfolding pointers
pointers-set_above zero table i v h le = refl
pointers-set_above (suc n) table i v h le = ground (arith, pointers-set_above n table i v h)

pub pointers-set :
    (n : ℕ) (table : ℕ → Option ℕ) (i : ℕ) (v : Option ℕ) (h : ℕ)
    → i < n
    → pointers n (set table i v) h + points (table i) h ≡ pointers n table h + points v h
unfolding pointers
pointers-set zero table i v h lt = absurd (omega arith)
pointers-set (suc n) table i v h lt = elim (ℕ_discrete i n) [
  | yes last ↦ ground (arith, pointers-set_above n table i v h)
  | no other ↦ ground (arith, pointers-set n table i v h)
]

pub points_le :
    (n : ℕ) (table : ℕ → Option ℕ) (i h : ℕ) → i < n → points (table i) h ≤ pointers n table h
unfolding pointers
points_le zero table i h lt = absurd (omega arith)
points_le (suc n) table i h lt = elim (ℕ_discrete i n) [
  | yes last ↦ ground arith
  | no other ↦ ground (arith, points_le n table i h)
]

pub pointers_none :
    (n : ℕ) (table : ℕ → Option ℕ) (p : ℕ)
    → ((i : ℕ) → i < n → table i ≢ some p)
    → pointers n table p ≡ 0
unfolding pointers
pointers_none zero table p h = refl
pointers_none (suc n) table p h =
    omega (arith, pointers_none n table p (λ i lt. h i (omega arith)), elsewhere (table n) refl)
  where
    elsewhere : (o : Option ℕ) → table n ≡ o → points o p ≡ 0
    elsewhere none e = refl
    elsewhere (some q) e = ground (arith, h n (omega arith))

pub pointers-ext :
    (n : ℕ) (f g : ℕ → Option ℕ) (p : ℕ)
    → ((i : ℕ) → i < n → f i ≡ g i)
    → pointers n f p ≡ pointers n g p
unfolding pointers
pointers-ext zero f g p h = refl
pointers-ext (suc n) f g p h = omega (
  arith,
  pointers-ext n f g p (λ i lt. h i (omega arith)),
  ap (λ o. points o p) (h n (omega arith)),
)

pub pointers_start : (n h : ℕ) → 0 ≡ pointers n (λ _. none) h
unfolding pointers
pointers_start zero h = refl
pointers_start (suc n) h = omega (arith, pointers_start n h)

pub points_self : (p : ℕ) → points (some p) p ≡ 1
points_self p = ground arith

abbrev pub references_of : Option FileHandle → ℕ
references_of none = 0
references_of (some hd) = hd.references

-- Every handle has as many references as slots point to it, and at least one; no slot points to a
-- handle that is not there.
pub record WellFormed (n : ℕ) (st : Files) : Type 0 where
  pub counted : (h : ℕ) → references_of (st.handles h) ≡ pointers n st.fd_table h
  pub held : (h : ℕ) (hd : FileHandle) → st.handles h ≡ some hd → 0 < hd.references

module _ {n : ℕ} {st : Files} (wf : WellFormed n st) where
  -- A slot below `n` does not dangle.
  pub slot_handle :
      (s p : ℕ) → s < n → st.fd_table s ≡ some p → (hd : FileHandle) × (st.handles p ≡ some hd)
  slot_handle s p lt e = elim (Option-cases (st.handles p)) [
    | inl gone ↦ absurd (dangles gone)
    | inr there ↦ there
  ]
    where
      one : points (some p) p ≡ 1
      one = ground arith

      dangles : st.handles p ≡ none → ⊥
      dangles gone = omega (
        arith,
        wf.counted p,
        ap references_of gone,
        ap (λ o. points o p) e,
        one,
        points_le n st.fd_table s p lt,
      )

  pub released-WellFormed :
      (s p : ℕ) (hd : FileHandle)
      → s < n
      → st.fd_table s ≡ some p
      → st.handles p ≡ some hd
      → WellFormed n (released s p hd st)
  unfolding released
  released-WellFormed s p hd lt e there = record {
    counted = λ h. ground (
      arith,
      wf.counted h,
      wf.held p hd there,
      pointers-set n st.fd_table s none h lt,
      ap (λ o. points o h) e,
      ap references_of there,
    );
    held = λ h hd' there'. ground (arith, wf.held h hd');
  }

  pub shared-WellFormed :
      (to p : ℕ) (hd : FileHandle)
      → to < n
      → st.fd_table to ≡ none
      → st.handles p ≡ some hd
      → WellFormed n (record st {
        handles = set st.handles p (some (record hd { references = hd.references + 1 }));
        fd_table = set st.fd_table to (some p);
      })
  shared-WellFormed to p hd lt e there = record {
    counted = λ h. ground (
      arith,
      wf.counted h,
      pointers-set n st.fd_table to (some p) h lt,
      ap (λ o. points o h) e,
      ap references_of there,
    );
    held = λ h hd' there'. ground (arith, wf.held h hd');
  }

  pub cleared-WellFormed :
      (to : ℕ)
      → to < n
      → st.fd_table to ≡ none
      → WellFormed n (record st { fd_table = set st.fd_table to none })
  cleared-WellFormed to lt e = record {
    counted = λ h.
        ground
          (arith, wf.counted h, pointers-set n st.fd_table to none h lt, ap (λ o. points o h) e);
    held = wf.held;
  }

  -- A new handle at a free address, in an empty slot.
  pub installed-WellFormed :
      (s p : ℕ) (hd : FileHandle) (o : ℕ)
      → s < n
      → st.fd_table s ≡ none
      → st.handles p ≡ none
      → hd.references ≡ 1
      → WellFormed n (record {
        handles = set st.handles p (some hd);
        fd_table = set st.fd_table s (some p);
        opens = o;
      })
  installed-WellFormed s p hd o lt e free one = record {
    counted = λ h. ground (
      arith,
      wf.counted h,
      pointers-set n st.fd_table s (some p) h lt,
      ap (λ o. points o h) e,
      ap references_of free,
    );
    held = λ h hd' there'. ground (arith, wf.held h hd');
  }

  -- A handle that is changed and keeps its references.
  pub kept-WellFormed :
      (p : ℕ) (hd hd' : FileHandle)
      → st.handles p ≡ some hd
      → hd'.references ≡ hd.references
      → WellFormed n (record st { handles = set st.handles p (some hd') })
  kept-WellFormed p hd hd' there same = record {
    counted = λ h. ground (arith, wf.counted h, ap references_of there);
    held = λ h hd₁ there'. ground (arith, wf.held h hd₁, wf.held p hd);
  }

  -- Any opens count.
  pub recounted-WellFormed : (o : ℕ) → WellFormed n (record st { opens = o })
  recounted-WellFormed o = record { counted = wf.counted; held = wf.held }
