-- ===== src/Threadlist/Calls.antt =====
-- The calls of kern/thread/threadlist.h, and what they promise of lists of threads.
use ms_projects.Common.{ℕ, ◌+◌, ◌<◌, ◌≡◌, Option, none, some, List, [], ◌∷◌, ◌++◌}
use ms_projects.Common.Sums.{assign}
use ms_projects.Threadlist.{
  Nodes, threadlistnode_init, threadlist_init, threadlist_addhead, threadlist_addtail,
  threadlist_remhead, threadlist_remtail, threadlist_insertafter, threadlist_insertbefore,
  threadlist_remove,
}
use ms_projects.Threadlist.Lists.{Lists, Off, Represents}
use ms_projects.Threadlist.Adding.{added}
use ms_projects.Threadlist.Taking.{taken}

pub data Call : Type 0 where
  node_init list_init : (i : ℕ) → Call
  add_head add_tail : (l t : ℕ) → Call
  rem_head rem_tail : (l : ℕ) → Call
  insert_after : (l onlist addee : ℕ) → Call
  insert_before : (l addee onlist : ℕ) → Call
  remove : (l t : ℕ) → Call

-- What a call does to the lists, and the thread that it returns.
pub data Spec (a : Lists) : Call → Option ℕ → Lists → Type 0 where
  inits_node : Spec a (node_init a.threads) none (record a { threads = a.threads + 1 })
  inits_list :
      Spec a
        (list_init a.lists)
        none
        (record a { lists = a.lists + 1; members = assign a.members a.lists [] })
  adds_head :
      (l t : ℕ)
      → l < a.lists
      → t < a.threads
      → Off a t
      → Spec a (add_head l t) none (added a l [] t (a.members l))
  adds_tail :
      (l t : ℕ)
      → l < a.lists
      → t < a.threads
      → Off a t
      → Spec a (add_tail l t) none (added a l (a.members l) t [])
  finds_no_head : (l : ℕ) → l < a.lists → a.members l ≡ [] → Spec a (rem_head l) none a
  finds_no_tail : (l : ℕ) → l < a.lists → a.members l ≡ [] → Spec a (rem_tail l) none a
  takes_head :
      (l t : ℕ) (ys : List ℕ)
      → l < a.lists
      → a.members l ≡ t ∷ ys
      → Spec a (rem_head l) (some t) (taken a l [] ys)
  takes_tail :
      (l t : ℕ) (xs : List ℕ)
      → l < a.lists
      → a.members l ≡ xs ++ t ∷ []
      → Spec a (rem_tail l) (some t) (taken a l xs [])
  inserts_after :
      (l o t : ℕ) (xs ys : List ℕ)
      → l < a.lists
      → t < a.threads
      → Off a t
      → a.members l ≡ (xs ++ o ∷ []) ++ ys
      → Spec a (insert_after l o t) none (added a l (xs ++ o ∷ []) t ys)
  inserts_before :
      (l o t : ℕ) (xs ys : List ℕ)
      → l < a.lists
      → t < a.threads
      → Off a t
      → a.members l ≡ xs ++ o ∷ ys
      → Spec a (insert_before l t o) none (added a l xs t (o ∷ ys))
  removes :
      (l t : ℕ) (xs ys : List ℕ)
      → l < a.lists
      → a.members l ≡ xs ++ t ∷ ys
      → Spec a (remove l t) none (taken a l xs ys)

abbrev pub returns_nothing : Option Nodes → Option (Option ℕ × Nodes)
returns_nothing none = none
returns_nothing (some s) = some (none, s)

-- The code of a call: `none` where it goes wrong.
unfoldable pub run : Call → Nodes → Option (Option ℕ × Nodes)
run (node_init t) s = some (none, threadlistnode_init t s)
run (list_init l) s = some (none, threadlist_init l s)
run (add_head l t) s = returns_nothing (threadlist_addhead l t s)
run (add_tail l t) s = returns_nothing (threadlist_addtail l t s)
run (rem_head l) s = threadlist_remhead l s
run (rem_tail l) s = threadlist_remtail l s
run (insert_after l onlist addee) s = returns_nothing (threadlist_insertafter l onlist addee s)
run (insert_before l addee onlist) s = returns_nothing (threadlist_insertbefore l addee onlist s)
run (remove l t) s = returns_nothing (threadlist_remove l t s)

-- The call comes back with `x`, and with nodes that represent `a`.
abbrev pub Gives : Option (Option ℕ × Nodes) → Option ℕ → Lists → Type 0
Gives result x a = (s : Nodes) × (result ≡ some (x, s)) × Represents s a
