-- ===== src/FileTable.antt =====
-- Open files: kern/syscall/file_syscalls.c, and the file tables in `thread_fork` and `thread_exit` of
-- kern/thread/thread.c. The calls into the file system enter by their results. The source holds no lock
-- over the tables and the counts of references: a call here is one that runs to its end before another
-- touches them, and Races is about two that do not.
pub mod References
pub mod Calls
pub mod Tables
pub mod Opening
pub mod Closing
pub mod Sharing
pub mod History
pub mod Races
pub mod Console
mod Tests
use ms_projects.Common.{
  ℕ, zero, suc, ◌+◌, ◌-◌, ◌*◌, ◌%◌, ◌^◌, Bool, true, false, not, ◌&&◌, ◌||◌, Option, none, some,
  List, [], ◌∷◌, ltb, leb, ◌==◌, if◌then◌else◌, length, ◌>>=◌,
}
use ms_projects.Common.Int.{ℤ, lt_pos, to_nat}
use ms_projects.Common.Words.{sub32, u32}
use ms_projects.Common.Errno.{Errno, enomem, efault, enametoolong, einval, enfile, ebadf, espipe}

-- `OPEN_MAX`, `PATH_MAX`
abbrev pub open_max : ℕ
open_max = 128

abbrev pub path_max : ℕ
path_max = 1024

-- `struct file_handle`; the offset is a 64-bit word, negative from 2^63 on.
pub record FileHandle : Type 0 where
  pub filename : List ℕ
  pub flags : ℕ
  pub offset : ℕ
  pub references : ℕ
  pub vnode : ℕ

-- The handles by their addresses, the file tables of all threads laid end to end, and the number of
-- successful `vfs_open` that no `vfs_close` has undone.
pub record Files : Type 0 where
  pub handles : ℕ → Option FileHandle
  pub fd_table : ℕ → Option ℕ
  pub opens : ℕ

abbrev pub slot : ℕ → ℕ → ℕ
slot thread fd = thread * open_max + fd

abbrev pub set {ℓ} : {A : Type ℓ} → (ℕ → A) → ℕ → A → ℕ → A
set f i v j = if i == j then v else f j

abbrev pub set_handle : Files → ℕ → FileHandle → Files
set_handle st p hd = record st { handles = set st.handles p (some hd) }

-- What a call gives back: a value through `retval`, or a code. A call that follows a pointer to no
-- handle is undefined (`none`).
pub data Result : Type 0 where
  returns : (value : ℕ) → Result
  failed : (code : Errno) → Result

-- The handle loses the reference of a slot; the last one closes the file.
unfoldable pub released : ℕ → ℕ → FileHandle → Files → Files
released s p hd st =
    if ltb 1 hd.references
    then record st {
      handles = set st.handles p (some (record hd { references = hd.references - 1 }));
      fd_table = set st.fd_table s none;
    }
    else record {
      handles = set st.handles p none;
      fd_table = set st.fd_table s none;
      opens = st.opens - 1;
    }

-- One round of the loop of `thread_exit`: the slot goes with its thread.
unfoldable pub close_slot : ℕ → Files → Option Files
unfolding released
close_slot s st = elim (st.fd_table s) [
  | none ↦ some st
  | some p ↦ elim (st.handles p) [ none ↦ none | some hd ↦ some (released s p hd st) ]
]

-- A slot gets the handle of another one, which counts one more reference.
unfoldable pub share : ℕ → ℕ → Files → Option Files
share from to st = elim (st.fd_table from) [
  | none ↦ some (record st { fd_table = set st.fd_table to none })
  | some p ↦ elim (st.handles p) [
    | none ↦ none
    | some hd ↦ some (record st {
      handles = set st.handles p (some (record hd { references = hd.references + 1 }));
      fd_table = set st.fd_table to (some p);
    })
  ]
]

-- `fd < 0 || fd >= OPEN_MAX || curthread->fd_table[fd] == NULL`
unfoldable pub bad_fd : ℕ → ℤ → Files → Bool
bad_fd thread fd st =
    if lt_pos fd 0 || not (lt_pos fd open_max)
    then true
    else elim (st.fd_table (slot thread (to_nat fd))) [ none ↦ true | some _ ↦ false ]

unfoldable pub sys_close : ℕ → ℤ → Files → Option (Result × Files)
unfolding bad_fd close_slot
sys_close thread fd st =
    if bad_fd thread fd st
    then some (failed ebadf, st)
    else elim (close_slot (slot thread (to_nat fd)) st) [
      | none ↦ none
      | some st' ↦ some (returns 0, st')
    ]

-- `if(fd_table[newfd] != NULL) sys_close(newfd);`, then the assignment and `references++`.
unfoldable pub replace : ℕ → ℕ → Files → Option Files
unfolding close_slot share
replace from to st = close_slot to st >>= share from to

unfoldable pub sys_dup2 : ℕ → ℤ → ℤ → Files → Option (Result × Files)
unfolding bad_fd replace
sys_dup2 thread oldfd newfd st =
    if lt_pos newfd 0 || not (lt_pos newfd open_max) || bad_fd thread oldfd st
    then some (failed ebadf, st)
    else if to_nat oldfd == to_nat newfd
    then some (returns (to_nat newfd), st)
    else elim (replace (slot thread (to_nat oldfd)) (slot thread (to_nat newfd)) st) [
      | none ↦ none
      | some st' ↦ some (returns (to_nat newfd), st')
    ]

-- What `sys_open` meets: the name, the results of `copyinstr`, `kmalloc`, `lock_create`, `vfs_open`
-- and `VOP_STAT` (no code: success).
pub record OpenEnv : Type 0 where
  pub null_name : Bool
  pub copied : Option Errno
  pub dest : List ℕ
  pub new_handle : Option ℕ
  pub lock_created : Bool
  pub opened : Option Errno
  pub new_vnode : ℕ
  pub stat : Option Errno
  pub st_size : ℕ

-- The search for a free slot, `n` slots before the end of the table.
unfoldable pub free_slot : ℕ → ℕ → ℕ → (ℕ → Option ℕ) → Option ℕ
free_slot thread zero i table = none
free_slot thread (suc n) i table =
    let rest = free_slot thread n (i + 1) table in
    elim (table (slot thread i)) [ none ↦ some i | some _ ↦ rest ]

abbrev pub o_append : ℕ
o_append = 32

-- `sys_open` behind the allocations, for the slot `index` and the handle at `p`.
unfoldable pub open_file : OpenEnv → ℕ → ℕ → ℕ → ℕ → Files → Result × Files
open_file env thread flag index p st =
    let hd : FileHandle = record {
      filename = env.dest;
      flags = flag;
      offset = if flag == o_append then env.st_size else 0;
      references = 1;
      vnode = env.new_vnode;
    } in
    let installed : Files = record {
      handles = set st.handles p (some hd);
      fd_table = set st.fd_table (slot thread index) (some p);
      opens = st.opens + 1;
    } in
    elim env.opened [
      | some code ↦ (failed code, st)
      | none ↦
          if flag == o_append
          then (elim env.stat [
            | some code ↦ (failed code, record st { opens = st.opens + 1 })
            | none ↦ (returns index, installed)
          ])
          else (returns index, installed)
    ]

unfoldable pub sys_open : OpenEnv → ℕ → ℕ → Files → Result × Files
unfolding free_slot open_file
sys_open env thread flag st = if env.null_name then (failed efault, st) else elim env.copied [
  | some code ↦ (failed code, st)
  | none ↦
      if ltb path_max (length env.dest)
      then (failed enametoolong, st)
      else elim (free_slot thread open_max 0 st.fd_table) [
        | none ↦ (failed enfile, st)
        | some index ↦ elim env.new_handle [
          | none ↦ (failed enomem, st)
          | some p ↦
              if env.lock_created then open_file env thread flag index p st else (failed enomem, st)
        ]
      ]
]

-- What `sys_read` and `sys_write` meet: the results of `copyinstr` and of `VOP_READ` or `VOP_WRITE`,
-- and the offset and the residue that these leave in the `uio`.
pub record IoEnv : Type 0 where
  pub checked : Option Errno
  pub moved : Option Errno
  pub uio_offset : ℕ
  pub uio_resid : ℕ

-- A call on the handle of a valid descriptor.
unfoldable pub on_handle :
    ℕ → ℤ → (FileHandle → Result × FileHandle) → Files → Option (Result × Files)
unfolding bad_fd
on_handle thread fd f st =
    if bad_fd thread fd st
    then some (failed ebadf, st)
    else elim (st.fd_table (slot thread (to_nat fd))) [
      | none ↦ none
      | some p ↦ elim (st.handles p) [
        | none ↦ none
        | some hd ↦ some ((f hd).0, set_handle st p (f hd).1)
      ]
    ]

unfoldable pub moved_bytes : IoEnv → ℕ → FileHandle → Result × FileHandle
moved_bytes env buflen hd = elim env.moved [
  | some code ↦ (failed code, hd)
  | none ↦ (returns (sub32 buflen env.uio_resid), record hd { offset = env.uio_offset })
]

-- `sys_read` and `sys_write` differ only in the direction of the transfer.
unfoldable pub sys_transfer : IoEnv → ℕ → ℤ → ℕ → Files → Option (Result × Files)
unfolding on_handle moved_bytes
sys_transfer env thread fd buflen st = elim env.checked [
  | some code ↦ some (failed code, st)
  | none ↦ on_handle thread fd (moved_bytes env buflen) st
]

-- "con:"
unfoldable pub is_console : List ℕ → Bool
is_console (a ∷ b ∷ c ∷ d ∷ []) = a == 99 && b == 111 && c == 110 && d == 58
is_console _ = false

pub record SeekEnv : Type 0 where
  pub size_stat : Option Errno
  pub file_size : ℕ
  pub tryseek : Option Errno

-- `SEEK_SET`, `SEEK_CUR` and `SEEK_END` are 0, 1 and 2.
unfoldable pub seek_to : SeekEnv → ℕ → ℕ → FileHandle → ℕ
seek_to env pos whence hd =
    if whence == 0
    then pos
    else if whence == 1
    then (hd.offset + pos) % 2 ^ 64
    else (env.file_size + pos) % 2 ^ 64

-- `sys_lseek` on a valid descriptor. The offset is stored before it is tested; `retval` is an `int`.
unfoldable pub seek_handle : SeekEnv → ℕ → ℕ → FileHandle → Result × FileHandle
unfolding is_console seek_to
seek_handle env pos whence hd =
    if is_console hd.filename
    then (failed espipe, hd)
    else if ltb 2 whence
    then (failed einval, hd)
    else if leb (2 ^ 63) pos
    then (failed einval, hd)
    else elim env.size_stat [
      | some code ↦ (failed code, hd)
      | none ↦
          let moved = record hd { offset = seek_to env pos whence hd } in
          elim env.tryseek [
            | some code ↦ (failed code, moved)
            | none ↦ (returns (u32 moved.offset), moved)
          ]
    ]

unfoldable pub sys_lseek : SeekEnv → ℕ → ℤ → ℕ → ℕ → Files → Option (Result × Files)
unfolding on_handle seek_handle
sys_lseek env thread fd pos whence st = on_handle thread fd (seek_handle env pos whence) st

-- The file tables of `thread_fork`, over the first `n` slots: the loop of `references++`, and what
-- `memcpy` does behind it.
unfoldable pub copy_table : ℕ → ℕ → ℕ → Files → Option Files
unfolding share
copy_table parent child zero st = some st
copy_table parent child (suc n) st =
    copy_table parent child n st >>= share (slot parent n) (slot child n)

-- The loop of `thread_exit` over the first `n` slots.
unfoldable pub close_table : ℕ → ℕ → Files → Option Files
unfolding close_slot
close_table thread zero st = some st
close_table thread (suc n) st = close_table thread n st >>= close_slot (slot thread n)
