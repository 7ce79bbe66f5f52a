-- ===== src/FileTable/Tests.antt =====
-- Runs of the file tables, and the theorems at concrete inputs.
use ms_projects.Common.{ℕ, ◌+◌, ◌*◌, ◌<◌, ◌≡◌, refl, true, false, none, some, [], ◌∷◌, arith}
use ms_projects.Common.Int.{pos}
use ms_projects.Common.Errno.{einval}
use ms_projects.FileTable.{
  FileHandle, Files, OpenEnv, SeekEnv, set, slot, open_max, close_slot, sys_dup2, share, sys_open,
  seek_handle, copy_table, close_table,
}
use ms_projects.FileTable.References.{WellFormed}
use ms_projects.FileTable.Console.{Attempt, Resources}
use ms_projects.FileTable.Opening.{OpenSpec, sys_open-OpenSpec}
use ms_projects.FileTable.Closing.{ClosesLast, close_slot-ClosesLast}
use ms_projects.FileTable.Sharing.{
  DupSpec, sys_dup2-DupSpec, SeekSpec, seek_handle-SeekSpec, Restored, close_table-copy_table,
}
use ms_projects.FileTable.History.{Reach, start, later, consoles, Reach-WellFormed}
use ms_projects.FileTable.Races.{close_behind, Dangles, close_behind-Dangles}

-- The console, open for reading.
abbrev console : FileHandle
console = record {
  filename = 99 ∷ 111 ∷ 110 ∷ 58 ∷ [];
  flags = 0;
  offset = 0;
  references = 1;
  vnode = 40;
}

abbrev one_file : Files
one_file = record {
  handles = set (λ _. none) 1 (some console);
  fd_table = set (λ _. none) (slot 0 0) (some 1);
  opens = 0 + 1;
}

one_file-Reach : Reach 2 one_file
one_file-Reach = later start (consoles 0 0 1 console (omega arith) (omega arith) refl refl refl)

Reach-WellFormed_example : WellFormed (2 * open_max) one_file
Reach-WellFormed_example = Reach-WellFormed one_file-Reach

close_slot-ClosesLast_example : ClosesLast (2 * open_max) 0 1 one_file (close_slot 0 one_file)
close_slot-ClosesLast_example =
    close_slot-ClosesLast (Reach-WellFormed one_file-Reach) 0 1 (omega arith) refl

sys_dup2-DupSpec_example : DupSpec 0 (pos 0) (pos 5) one_file (sys_dup2 0 (pos 0) (pos 5) one_file)
sys_dup2-DupSpec_example =
    sys_dup2-DupSpec {threads = 2} (Reach-WellFormed one_file-Reach) 0 (omega arith) (pos 0) (pos 5)

child_empty : (fd : ℕ) → fd < open_max → one_file.fd_table (slot 1 fd) ≡ none
child_empty fd lt = ground arith

close_table-copy_table_example :
    (st₁ : Files) × (copy_table 0 1 open_max one_file ≡ some st₁)
    × Restored (2 * open_max) one_file (close_table 1 open_max st₁)
close_table-copy_table_example =
    close_table-copy_table {threads = 2} (Reach-WellFormed one_file-Reach) 0 1 (omega arith)
      (omega arith) (λ e. omega (arith, e)) child_empty

abbrev to_end : SeekEnv
to_end = record { size_stat = none; file_size = 4096; tryseek = some einval }

abbrev notes : FileHandle
notes = record { filename = 110 ∷ []; flags = 2; offset = 7; references = 1; vnode = 41 }

seek_handle-SeekSpec_example : SeekSpec to_end 16 2 notes (seek_handle to_end 16 2 notes)
seek_handle-SeekSpec_example = seek_handle-SeekSpec to_end 16 2 notes

abbrev appends : OpenEnv
appends = record {
  null_name = false;
  copied = none;
  dest = 110 ∷ [];
  new_handle = some 2;
  lock_created = true;
  opened = none;
  new_vnode = 41;
  stat = none;
  st_size = 300;
}

sys_open-OpenSpec_example : OpenSpec appends 0 32 one_file (sys_open appends 0 32 one_file)
sys_open-OpenSpec_example = sys_open-OpenSpec appends 0 32 one_file

abbrev attempt : Attempt
attempt = record { vfs = none; handle = true; lock = true }

abbrev unused : Resources
unused = record { vnodes = 3; file_handles = 3; locks = 3 }

-- Threads 0 and 1 share the console.
abbrev shared_console : FileHandle
shared_console = record console { references = 2 }

abbrev two_slots : Files
two_slots = record {
  handles = set (λ _. none) 1 (some shared_console);
  fd_table = set (set (λ _. none) (slot 0 0) (some 1)) (slot 1 0) (some 1);
  opens = 1;
}

close_behind-Dangles_example :
    (st₁ : Files) × (st₂ : Files) × (share (slot 1 0) (slot 2 0) two_slots ≡ some st₁)
    × (close_behind (slot 0 0) 1 2 st₁ ≡ some st₂)
    × Dangles 1 (slot 2 0) (close_slot (slot 1 0) st₂)
close_behind-Dangles_example =
    close_behind-Dangles (slot 0 0) (slot 1 0) (slot 2 0) 1 shared_console two_slots
      (λ e. omega (arith, e)) (λ e. omega (arith, e)) (λ e. omega (arith, e)) refl refl refl refl
