-- ===== src/Execv/Errors.antt =====
-- What a failing `sys_execv` keeps, and what it gives back.
use ms_projects.Common.{ℕ, ◌+◌, ◌≤◌, ◌<◌, ◌≡◌, ◌⊎◌, true, Option, none, some, List, [], ◌∷◌, length}
use ms_projects.Common.Errno.{Errno}
use ms_projects.Execv.{ExecEnv, ExecState, ArgCopy, ExecOutcome, waits, corrupts, ends}

-- Every argument has its block.
abbrev pub AllAllocated : List ArgCopy → Type 0
AllAllocated [] = Unit {0}
AllAllocated (a ∷ args) = (a.allocated ≡ true) × AllAllocated args

-- The blocks that the loop over the arguments takes.
abbrev Args : List ArgCopy → ℕ → Option Errno × ℕ × ℕ → Type 0
Args args blocks (none, argc, blocks') = blocks' ≡ blocks + length args
Args args blocks (some code, argc, blocks') = (blocks < blocks') × (blocks' ≤ blocks + length args)

abbrev Copied : List ArgCopy → ℕ → Option (Option Errno × ℕ × ℕ) → Type 0
Copied args blocks none = ⊥
Copied args blocks (some r) = Args args blocks r

-- The outcomes. Where it enters the new process, the unit of `execvSem` is kept, and the file and the
-- blocks are given back. An error gives the unit back; it leaves nothing behind, or the file and the
-- blocks of the arguments copied so far, or the blocks of all arguments.
abbrev pub ExecSpec : ExecEnv → ExecState → Option Errno × ExecState → Type 0
ExecSpec env s (none, s') =
    (s'.execv_sem + 1 ≡ s.execv_sem) × (s'.open_files ≡ s.open_files) × (s'.blocks ≡ s.blocks)
ExecSpec env s (some code, s') =
    (s'.execv_sem ≡ s.execv_sem)
    × ((s' ≡ s)
        ⊎ (((s'.open_files ≡ s.open_files + 1) × (s.blocks + 1 < s'.blocks))
            ⊎ ((s'.open_files ≡ s.open_files)
                × (s'.blocks ≡ s.blocks + 1 + length env.args_copied))))

-- The same for a state whose unit of `execvSem` is taken.
abbrev Held : ExecEnv → ExecState → Option Errno × ExecState → Type 0
Held env s r = ExecSpec env (record s { execv_sem = s.execv_sem + 1 }) r

-- The call ends, and so.
abbrev EndsHeld : ExecEnv → ExecState → ExecOutcome → Type 0
EndsHeld env s waits = ⊥
EndsHeld env s corrupts = ⊥
EndsHeld env s (ends r) = Held env s r
