-- ===== src/Threadlist/History.antt =====
-- All histories of calls of kern/thread/threadlist.c, from nothing that is initialised on.
use ms_projects.Common.{
  ℕ, ◌^◌, ◌<◌, ◌≡◌, refl, ◌>>=◌, Option, some, List, [], ◌∷◌, length, arith, ◌==◌,
}
use ms_projects.Threadlist.{Nodes, threadlist_isempty}
use ms_projects.Threadlist.Lists.{Lists, Represents}
use ms_projects.Threadlist.Calls.{Call, Spec, run}
use ms_projects.Threadlist.Refines.{threadlist_refines}

-- Calls that the lists allow, one after the other, with what they return.
pub data History : Lists → List Call → List (Option ℕ) → Lists → Type 0 where
  here : {a : Lists} → History a [] [] a
  call :
      {a b : Lists} {c : Call} {x : Option ℕ} {cs : List Call} {xs : List (Option ℕ)} {d : Lists}
      → Spec a c x b
      → History b cs xs d
      → History a (c ∷ cs) (x ∷ xs) d

-- The code of a sequence of calls.
unfoldable pub run_all : List Call → Nodes → Option (List (Option ℕ) × Nodes)
unfolding run
run_all [] s = some ([], s)
run_all (c ∷ cs) s = do (x, s') ← run c s; (xs, s'') ← run_all cs s'; some (x ∷ xs, s'')

abbrev pub nothing : Lists
nothing = record { lists = 0; threads = 0; members = λ _. [] }

-- Where nothing is initialised, any memory will do.
nothing-Represents : (s : Nodes) → Represents s nothing
nothing-Represents s = record {
  chain = λ l lt. absurd (omega (arith, lt));
  ends = λ l lt. absurd (omega (arith, lt));
  count = λ l lt. absurd (omega (arith, lt));
  self = λ t lt. absurd (omega (arith, lt));
  off = λ t lt o. absurd (omega (arith, lt));
  known = λ l lt t h. absurd (omega (arith, lt));
  once = λ l lt t. absurd (omega (arith, lt));
  apart = λ l k lt lt' ne t. absurd (omega (arith, lt));
}

run_all-Represents :
    {a d : Lists} {cs : List Call} {xs : List (Option ℕ)}
    → History a cs xs d
    → {s : Nodes} → Represents s a
    → (s' : Nodes) × (run_all cs s ≡ some (xs, s')) × Represents s' d
unfolding run_all
run_all-Represents here {s} r = (s, refl, r)
run_all-Represents (call st rest) r =
    let (s', ok, r') = threadlist_refines r st in
    let (s'', ok', r'') = run_all-Represents rest r' in (s'', rw (ok, ok'), r'')

-- In every history of calls that lists of threads allow, from memory that may hold anything, the code
-- never follows a NULL pointer, every call returns what it does for lists of threads, the nodes
-- represent the lists in the end, and `threadlist_isempty` tells whether a list has no member, if it
-- has fewer than 2^32.
pub threadlist_history :
    (memory : Nodes) {cs : List Call} {xs : List (Option ℕ)} {a : Lists}
    → History nothing cs xs a
    → (s : Nodes) × (run_all cs memory ≡ some (xs, s))
      × Represents s a
      × ((l : ℕ)
          → l < a.lists
          → length (a.members l) < 2 ^ 32
          → threadlist_isempty l s ≡ (length (a.members l) == 0))
unfolding threadlist_isempty
threadlist_history memory h =
    let (s, ok, r) = run_all-Represents h (nothing-Represents memory) in
    (s, ok, r, λ l lt small. ground (arith, r.count l lt, small))
