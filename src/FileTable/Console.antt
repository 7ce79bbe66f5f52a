-- ===== src/FileTable/Console.antt =====
-- `init_filetable`: the console as the first three files, and what it gives back when it fails.
use ms_projects.Common.{
  ℕ, ◌+◌, ◌-◌, ◌≡◌, refl, Bool, true, false, Option, none, some, arith, if◌then◌else◌,
}
use ms_projects.Common.Errno.{Errno, enomem}

-- The files opened by `vfs_open`, the handles and the locks that are in use.
pub record Resources : Type 0 where
  pub vnodes : ℕ
  pub file_handles : ℕ
  pub locks : ℕ

-- What one of the three files meets in `vfs_open`, `kmalloc` and `lock_create`.
pub record Attempt : Type 0 where
  pub vfs : Option Errno
  pub handle : Bool
  pub lock : Bool

-- The files below `k` are given back.
unfoldable pub undo : ℕ → Resources → Resources
undo k r = record { vnodes = r.vnodes - k; file_handles = r.file_handles - k; locks = r.locks - k }

-- The part of `init_filetable` for file `k`.
unfoldable pub console_file : ℕ → Attempt → Resources → Option Errno × Resources
unfolding undo
console_file k a r =
    let opened : Resources = record r { vnodes = r.vnodes + 1 } in
    let held : Resources = record opened { file_handles = r.file_handles + 1 } in
    elim a.vfs [
      | some code ↦ (some code, undo k r)
      | none ↦
          if a.handle
          then if a.lock then (none, record held { locks = r.locks + 1 }) else (
            some enomem,
            undo k (record held { vnodes = held.vnodes - 1; file_handles = held.file_handles - 1 }),
          )
          else (some enomem, undo k (record opened { vnodes = opened.vnodes - 1 }))
    ]

-- The next file, unless an error has been returned.
unfoldable pub followed_by :
    Option Errno × Resources → (Resources → Option Errno × Resources) → Option Errno × Resources
followed_by (some code, r) next = (some code, r)
followed_by (none, r) next = next r

unfoldable pub init_filetable : Attempt → Attempt → Attempt → Resources → Option Errno × Resources
unfolding console_file followed_by
init_filetable stdin stdout stderr r =
    followed_by (followed_by (console_file 0 stdin r) (console_file 1 stdout))
      (console_file 2 stderr)

-- The first `k` files are open, or there is an error and nothing is held.
abbrev pub AllOrNothing : ℕ → Resources → Option Errno × Resources → Type 0
AllOrNothing k r (none, r') =
    (r'.vnodes ≡ r.vnodes + k) × (r'.file_handles ≡ r.file_handles + k) × (r'.locks ≡ r.locks + k)
AllOrNothing k r (some code, r') =
    (r'.vnodes ≡ r.vnodes) × (r'.file_handles ≡ r.file_handles) × (r'.locks ≡ r.locks)

-- What file `k` leaves, next to the `k` files before it.
abbrev FileSpec : ℕ → Resources → Option Errno × Resources → Type 0
FileSpec k r (none, r') =
    (r'.vnodes ≡ r.vnodes + 1) × (r'.file_handles ≡ r.file_handles + 1) × (r'.locks ≡ r.locks + 1)
FileSpec k r (some code, r') =
    (r'.vnodes ≡ r.vnodes - k) × (r'.file_handles ≡ r.file_handles - k) × (r'.locks ≡ r.locks - k)

console_file-FileSpec :
    (k : ℕ) (vfs : Option Errno) (handle lock : Bool) (v h l : ℕ)
    → let r : Resources = record { vnodes = v; file_handles = h; locks = l } in
      FileSpec k r (console_file k (record { vfs = vfs; handle = handle; lock = lock }) r)
unfolding console_file
console_file-FileSpec k (some code) handle lock v h l = (refl, refl, refl)
console_file-FileSpec k none false lock v h l = (omega arith, omega arith, omega arith)
console_file-FileSpec k none true false v h l = (omega arith, omega arith, omega arith)
console_file-FileSpec k none true true v h l = (omega arith, omega arith, omega arith)

after_file :
    (k : ℕ) (r r₁ : Resources) (o : Option Errno × Resources)
    → AllOrNothing k r (none, r₁)
    → FileSpec k r₁ o
    → AllOrNothing (k + 1) r o
after_file k r r₁ (none, r₂) (x, y, z) (a, b, c) = (omega arith, omega arith, omega arith)
after_file k r r₁ (some code, r₂) (x, y, z) (a, b, c) = (omega arith, omega arith, omega arith)

followed_by-AllOrNothing :
    (k : ℕ) (a : Attempt) (r : Resources) (o : Option Errno × Resources)
    → AllOrNothing k r o
    → AllOrNothing (k + 1) r (followed_by o (console_file k a))
unfolding followed_by
followed_by-AllOrNothing k a r (some code, r₁) h = h
followed_by-AllOrNothing k a r (none, r₁) h =
    after_file k r r₁ (console_file k a r₁) h
      (console_file-FileSpec k a.vfs a.handle a.lock r₁.vnodes r₁.file_handles r₁.locks)

-- `init_filetable` either opens all three files, or returns an error with every file, handle and lock
-- that it had taken given back.
pub init_filetable-AllOrNothing :
    (stdin stdout stderr : Attempt) (r : Resources)
    → AllOrNothing 3 r (init_filetable stdin stdout stderr r)
unfolding init_filetable
init_filetable-AllOrNothing stdin stdout stderr r = followed_by-AllOrNothing 2 stderr r _ (
    followed_by-AllOrNothing 1 stdout r _ (
      after_file 0 r r (console_file 0 stdin r) (omega arith, omega arith, omega arith)
        (console_file-FileSpec 0 stdin.vfs stdin.handle stdin.lock r.vnodes r.file_handles
          r.locks)))
