-- ===== src/Execv.antt =====
-- `sys_execv` of kern/syscall/process_syscalls.c. The program loader and the file system enter by
-- their results; a `copyout` to the stack writes to the memory of the process, as far as it is writable.
-- `argvptr` is taken to have room for the NULL that the source writes one behind its end.
pub mod Layout
pub mod Errors
mod Tests
use ms_projects.Common.{
  ℕ, zero, suc, ◌+◌, ◌-◌, ◌*◌, ◌%◌, ◌^◌, Bool, true, false, not, Option, none, some, List, [], ◌∷◌,
  ◌++◌, length, take, ltb, leb, ◌==◌, if◌then◌else◌,
}
use ms_projects.Common.Bytes.{Memory, words_bytes}
use ms_projects.Common.Sums.{assign}
use ms_projects.Common.Errno.{Errno, enomem, efault, e2big}
use ms_projects.AddrSpace.{userstack}

-- An argument in its kernel buffer: the string, and what the block holds behind its zero byte.
pub record Arg : Type 0 where
  pub text : List ℕ
  pub behind : List ℕ

abbrev pub buffer : Arg → List ℕ
buffer a = a.text ++ (0 ∷ a.behind)

-- The bytes that an argument takes: with its zero byte, up to the next multiple of 4.
unfoldable pub padded : Arg → ℕ
padded a =
    let len = length a.text + 1 in
    if ltb 4 len
    then (if len % 4 == 1
        then len + 3
        else if len % 4 == 2
        then len + 2
        else if len % 4 == 3
        then len + 1
        else len)
    else 4

-- `copyout` (kern/vm/copyinout.c) of the bytes `bs` to `a`, all within user space; `writable` are the
-- addresses for which `vm_fault` has or finds a page that may be written. It ends at the first that is
-- not. The callers do not look at its result.
unfoldable pub copyout : (ℕ → Bool) → ℕ → List ℕ → Memory → Memory
copyout writable a [] m = m
copyout writable a (b ∷ bs) m =
    let rest = copyout writable (a + 1) bs (assign m a b) in if writable a then rest else m

-- The loop over the arguments, which begins with the last: their addresses, the stack pointer and the
-- memory.
unfoldable pub place_args : (ℕ → Bool) → List Arg → ℕ → Memory → List ℕ × ℕ × Memory
unfolding padded copyout
place_args writable [] stackptr m = ([], stackptr, m)
place_args writable (a ∷ args) stackptr m =
    let (ptrs, sp, m') = place_args writable args stackptr m in
    (
      (sp - padded a) ∷ ptrs,
      sp - padded a,
      copyout writable (sp - padded a) (take (padded a) (buffer a)) m',
    )

-- The stack of the new process: the arguments, and below them the pointers to them with a NULL.
unfoldable pub build_stack : (ℕ → Bool) → List Arg → Memory → ℕ × Memory
unfolding place_args copyout
build_stack writable args m =
    let (argvptr, sp, m') = place_args writable args userstack m in
    let stackptr = sp - 4 * length args * 4 in
    (stackptr, copyout writable stackptr (words_bytes (argvptr ++ (0 ∷ []))) m')

-- One argument: whether `kmalloc` had a block for it, and what `copyinstr` returned.
pub record ArgCopy : Type 0 where
  pub allocated : Bool
  pub copied : Option Errno

-- What the call meets: the results of the copies, of `vfs_open`, of `as_create` and of `load_elf`, and
-- whether `kmalloc` had a block for `kargv`.
pub record ExecEnv : Type 0 where
  pub null_argv : Bool
  pub argv_checked : Option Errno
  pub name_copied : Option Errno
  pub opened : Option Errno
  pub kargv_allocated : Bool
  pub args_copied : List ArgCopy
  pub space_created : Bool
  pub loaded : Option Errno

-- What it takes: the units of `execvSem`, the open files and the kernel blocks.
pub record ExecState : Type 0 where
  pub execv_sem : ℕ
  pub open_files : ℕ
  pub blocks : ℕ

-- `ARG_MAX`
abbrev pub arg_max : ℕ
arg_max = 65536

-- The pointers that `kargv` has room for.
abbrev pub kargv_size : ℕ
kargv_size = 512

-- The loop that copies the arguments, of which `argc` are there: a code, their number and the blocks;
-- `none` where it writes behind the end of `kargv` or through the NULL of a `kmalloc` that failed.
unfoldable pub copy_args : List ArgCopy → ℕ → ℕ → Option (Option Errno × ℕ × ℕ)
copy_args [] argc blocks = if leb kargv_size argc then none else some (none, argc, blocks)
copy_args (a ∷ args) argc blocks =
    let rest = copy_args args (argc + 1) (blocks + 1) in
    if leb kargv_size argc then none else if not a.allocated then none else elim a.copied [
      | some code ↦ some (some code, argc, blocks + 1)
      | none ↦ if leb arg_max (argc + 1) then some (some e2big, argc + 1, blocks + 1) else rest
    ]

-- How the call goes on: it waits for `execvSem`; the kernel writes where it must not; or it ends.
pub data ExecOutcome : Type 0 where
  waits : ExecOutcome
  corrupts : ExecOutcome
  ends : Option Errno × ExecState → ExecOutcome

-- `V(execvSem)` and the return.
abbrev pub fails : Errno → ExecState → Option Errno × ExecState
fails code s = (some code, record s { execv_sem = s.execv_sem + 1 })

-- From `as_create` on, with the arguments copied: no code where it enters the new process.
unfoldable pub enter_space : ExecEnv → ExecState → Option Errno × ExecState
enter_space env s =
    if env.space_created
    then (elim env.loaded [
      | some code ↦ fails code (record s { open_files = s.open_files - 1 })
      | none ↦ (
        none,
        record s {
          open_files = s.open_files - 1;
          blocks = s.blocks - (length env.args_copied + 1);
        },
      )
    ])
    else fails enomem (record s { open_files = s.open_files - 1 })

-- With the file open.
unfoldable pub take_args : ExecEnv → ExecState → ExecOutcome
unfolding copy_args enter_space
take_args env s =
    if not env.kargv_allocated
    then corrupts
    else elim (copy_args env.args_copied 0 (s.blocks + 1)) [
      | none ↦ corrupts
      | some (code, argc, blocks) ↦
          let copied : ExecState = record s { blocks = blocks } in
          ends (elim code [ some c ↦ fails c copied | none ↦ enter_space env copied ])
    ]

-- Behind `P(execvSem)`.
unfoldable pub exec_from : ExecEnv → ExecState → ExecOutcome
unfolding take_args
exec_from env s = if env.null_argv then ends (fails efault s) else elim env.argv_checked [
  | some code ↦ ends (fails code s)
  | none ↦ elim env.name_copied [
    | some code ↦ ends (fails code s)
    | none ↦ elim env.opened [
      | some code ↦ ends (fails code s)
      | none ↦ take_args env (record s { open_files = s.open_files + 1 })
    ]
  ]
]

unfoldable pub sys_execv : ExecEnv → ExecState → ExecOutcome
unfolding exec_from
sys_execv env s =
    if s.execv_sem == 0 then waits else exec_from env (record s { execv_sem = s.execv_sem - 1 })
