-- ===== src/FileTable/Races.antt =====
-- A close and a fork at once: `references--` of `sys_close` (kern/syscall/file_syscalls.c) and `references++`
-- of `thread_fork` (kern/thread/thread.c) run under no lock, so that the one can come between the load and
-- the store of the other.
use ms_projects.Common.{ℕ, ◌+◌, ◌-◌, ◌≡◌, subst, true, ◌≢◌, Option, none, some, arith, ltb}
use ms_projects.FileTable.{FileHandle, Files, set, share, released, close_slot}

-- The rest of `sys_close` of the slot `s`, which points to `p`, behind the load of `references`: it
-- stores what it has read less one, and clears the slot.
unfoldable pub close_behind : ℕ → ℕ → ℕ → Files → Option Files
close_behind s p loaded st = elim (st.handles p) [
  | none ↦ none
  | some hd ↦ some (record st {
    handles = set st.handles p (some (record hd { references = loaded - 1 }));
    fd_table = set st.fd_table s none;
  })
]

-- Alone, the load and the rest are the whole close.
pub close_behind-close_slot :
    (s p : ℕ) (hd : FileHandle) (st : Files)
    → st.fd_table s ≡ some p
    → st.handles p ≡ some hd
    → ltb 1 hd.references ≡ true
    → close_behind s p hd.references st ≡ close_slot s st
unfolding close_behind close_slot released
close_behind-close_slot s p hd st at here many = ground (arith, at, here, many)

-- What is left behind `o`: no handle at `p`, and the slot `to` that points to it.
abbrev pub Dangles : ℕ → ℕ → Option Files → Type 0
Dangles p to none = ⊥
Dangles p to (some st) = (st.handles p ≡ none) × (st.fd_table to ≡ some p)

-- Two slots, of which the first belongs to a thread that closes it and the second to one that forks, share
-- a handle with two references. Where the fork counts its reference between the load and the store of the
-- close, that count is lost: when the forking thread then closes its slot too, the handle is freed, while
-- the slot of the child still points to it.
pub close_behind-Dangles :
    (s from to p : ℕ) (hd : FileHandle) (st : Files)
    → s ≢ from
    → to ≢ s
    → to ≢ from
    → st.fd_table s ≡ some p
    → st.fd_table from ≡ some p
    → st.handles p ≡ some hd
    → hd.references ≡ 2
    → (st₁ : Files) × (st₂ : Files) × (share from to st ≡ some st₁)
      × (close_behind s p hd.references st₁ ≡ some st₂)
      × Dangles p to (close_slot from st₂)
unfolding share close_behind close_slot released
close_behind-Dangles s from to p hd st ne ne' ne'' at at' here two = (
  st₁,
  st₂,
  ground (arith, at', here),
  ground arith,
  subst (Dangles p to) {x = some st₃} (ground (arith, ne, ne', ne'', at', two))
      (ground arith, ground (arith, ne', ne'')),
)
  where
    st₁ : Files
    st₁ = record st {
      handles = set st.handles p (some (record hd { references = hd.references + 1 }));
      fd_table = set st.fd_table to (some p);
    }

    st₂ : Files
    st₂ = record st₁ {
      handles = set st₁.handles p (some (record hd { references = hd.references - 1 }));
      fd_table = set st₁.fd_table s none;
    }

    st₃ : Files
    st₃ = record {
      handles = set st₂.handles p none;
      fd_table = set st₂.fd_table from none;
      opens = st₂.opens - 1;
    }
