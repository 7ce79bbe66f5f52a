-- ===== src/Execv/Tests.antt =====
-- The stack of a program with two arguments, and a call whose program cannot be opened.
use ms_projects.Common.{
  ℕ, ◌≤◌, ◌&&◌, Bool, leb, ltb, ◌%◌, ◌<◌, ◌≡◌, refl, true, false, none, some, [], ◌∷◌, arith,
}
use ms_projects.Common.Errno.{Errno, enoent}
use ms_projects.AddrSpace.{stack_base, userstack}
use ms_projects.Execv.{Arg, padded, build_stack, ExecEnv, ExecState, ArgCopy}
use ms_projects.Execv.Layout.{size, ArgvAt, build_stack-ArgvAt}

-- `cat` and `notes`
abbrev cat : Arg
cat = record { text = 99 ∷ 97 ∷ 116 ∷ []; behind = 7 ∷ 7 ∷ 7 ∷ 7 ∷ 7 ∷ [] }

abbrev notes : Arg
notes = record { text = 110 ∷ 111 ∷ 116 ∷ 101 ∷ 115 ∷ []; behind = 8 ∷ 8 ∷ 8 ∷ 8 ∷ [] }

sizes : size (cat ∷ notes ∷ []) ≡ 12
unfolding size padded
sizes = refl

-- All pages of the stack are there.
abbrev whole_stack : ℕ → Bool
whole_stack x = leb stack_base x && ltb x userstack

whole_stack-writable : (x : ℕ) → stack_base ≤ x → x < userstack → whole_stack x ≡ true
whole_stack-writable x lo hi = ground (arith, lo, hi)

build_stack-ArgvAt_example :
    let (sp, m') = build_stack whole_stack (cat ∷ notes ∷ []) (λ _. 0) in
    ArgvAt m' sp (cat ∷ notes ∷ []) × (sp % 4 ≡ 0) × (sp < userstack)
build_stack-ArgvAt_example =
    build_stack-ArgvAt whole_stack cat (notes ∷ []) (λ _. 0) (omega (arith, sizes))
      whole_stack-writable

abbrev copied : ArgCopy
copied = record { allocated = true; copied = none }

abbrev missing : ExecEnv
missing = record {
  null_argv = false;
  argv_checked = none;
  name_copied = none;
  opened = some enoent;
  kargv_allocated = true;
  args_copied = copied ∷ copied ∷ [];
  space_created = true;
  loaded = none;
}

abbrev idle : ExecState
idle = record { execv_sem = 1; open_files = 3; blocks = 20 }
