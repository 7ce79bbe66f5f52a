-- ===== src/Threadlist.antt =====
-- Lists of threads: kern/thread/threadlist.c. A pointer to a node is its address: the two bookends of
-- every list and the node in every thread are at addresses of their own, and NULL is 0. To follow a
-- NULL pointer is `none`. The `DEBUGASSERT`s, which kern/include/lib.h compiles to nothing, are left out.
pub mod Segments
pub mod Insertion
pub mod Lists
pub mod Elsewhere
pub mod Adding
pub mod Taking
pub mod Gaps
pub mod Calls
pub mod Inits
pub mod Removal
pub mod Refines
pub mod History
mod Tests
use ms_projects.Common.{
  ℕ, ◌+◌, ◌-◌, ◌*◌, ◌%◌, ◌^◌, Bool, true, false, ◌&&◌, ◌>>=◌, Option, none, some, ◌==◌,
  if◌then◌else◌,
}
use ms_projects.Common.Sums.{assign}

-- The fields of `struct threadlistnode` by the address of the node, and `tl_count` by the list.
pub record Nodes : Type 0 where
  pub tln_prev : ℕ → ℕ
  pub tln_next : ℕ → ℕ
  pub tln_self : ℕ → Option ℕ
  pub tl_count : ℕ → ℕ

-- `&tl->tl_head`, `&tl->tl_tail` and `&t->t_listnode`
abbrev pub tl_head : ℕ → ℕ
tl_head tl = 3 * tl + 1

abbrev pub tl_tail : ℕ → ℕ
tl_tail tl = 3 * tl + 2

abbrev pub t_listnode : ℕ → ℕ
t_listnode t = 3 * t + 3

-- `p->tln_next = v` and `p->tln_prev = v`
unfoldable pub set_next : ℕ → ℕ → Nodes → Option Nodes
set_next p v s = if p == 0 then none else some (record s { tln_next = assign s.tln_next p v })

unfoldable pub set_prev : ℕ → ℕ → Nodes → Option Nodes
set_prev p v s = if p == 0 then none else some (record s { tln_prev = assign s.tln_prev p v })

unfoldable pub threadlistnode_init : ℕ → Nodes → Nodes
threadlistnode_init t s = record s {
  tln_prev = assign s.tln_prev (t_listnode t) 0;
  tln_next = assign s.tln_next (t_listnode t) 0;
  tln_self = assign s.tln_self (t_listnode t) (some t);
}

unfoldable pub threadlist_init : ℕ → Nodes → Nodes
threadlist_init tl s = record {
  tln_prev = assign (assign s.tln_prev (tl_head tl) 0) (tl_tail tl) (tl_head tl);
  tln_next = assign (assign s.tln_next (tl_head tl) (tl_tail tl)) (tl_tail tl) 0;
  tln_self = assign (assign s.tln_self (tl_head tl) none) (tl_tail tl) none;
  tl_count = assign s.tl_count tl 0;
}

unfoldable pub threadlist_isempty : ℕ → Nodes → Bool
threadlist_isempty tl s = s.tl_count tl == 0

-- The assertions of the two cleanups, which panic (`none`) or change nothing.
unfoldable pub threadlist_cleanup : ℕ → Nodes → Option Nodes
unfolding threadlist_isempty
threadlist_cleanup tl s = if threadlist_isempty tl s && (s.tl_count tl == 0) then some s else none

unfoldable pub threadlistnode_cleanup : ℕ → Nodes → Option Nodes
threadlistnode_cleanup t s =
    if (s.tln_next (t_listnode t) == 0) && (s.tln_prev (t_listnode t) == 0)
    then (elim (s.tln_self (t_listnode t)) [ none ↦ none | some self ↦ some s ])
    else none

unfoldable pub threadlist_insertafternode : ℕ → ℕ → Nodes → Option Nodes
unfolding set_next set_prev
threadlist_insertafternode onlist t s = do
  let addee = t_listnode t
  a ← set_prev addee onlist s
  b ← set_next addee (a.tln_next onlist) a
  c ← set_next (b.tln_prev addee) addee b
  set_prev (c.tln_next addee) addee c

unfoldable pub threadlist_insertbeforenode : ℕ → ℕ → Nodes → Option Nodes
unfolding set_next set_prev
threadlist_insertbeforenode t onlist s = do
  let addee = t_listnode t
  a ← set_prev addee (s.tln_prev onlist) s
  b ← set_next addee onlist a
  c ← set_next (b.tln_prev addee) addee b
  set_prev (c.tln_next addee) addee c

unfoldable pub threadlist_removenode : ℕ → Nodes → Option Nodes
unfolding set_next set_prev
threadlist_removenode tln s = do
  a ← set_next (s.tln_prev tln) (s.tln_next tln) s
  b ← set_prev (a.tln_next tln) (a.tln_prev tln) a
  c ← set_prev tln 0 b
  set_next tln 0 c

-- `tl->tl_count++` and `tl->tl_count--` of an unsigned number
unfoldable pub count_up : ℕ → Nodes → Nodes
count_up tl s = record s { tl_count = assign s.tl_count tl ((s.tl_count tl + 1) % 2 ^ 32) }

unfoldable pub count_down : ℕ → Nodes → Nodes
count_down tl s = record s {
  tl_count = assign s.tl_count tl ((s.tl_count tl + (2 ^ 32 - 1)) % 2 ^ 32);
}

unfoldable pub threadlist_addhead : ℕ → ℕ → Nodes → Option Nodes
unfolding threadlist_insertafternode count_up
threadlist_addhead tl t s = do a ← threadlist_insertafternode (tl_head tl) t s; some (count_up tl a)

unfoldable pub threadlist_addtail : ℕ → ℕ → Nodes → Option Nodes
unfolding threadlist_insertbeforenode count_up
threadlist_addtail tl t s = do
  a ← threadlist_insertbeforenode t (tl_tail tl) s
  some (count_up tl a)

-- Behind the test for an empty list, and the return.
unfoldable pub taken_off : ℕ → ℕ → Nodes → Option (Option ℕ × Nodes)
unfolding threadlist_removenode count_down
taken_off tl tln s = do a ← threadlist_removenode tln s; some (a.tln_self tln, count_down tl a)

unfoldable pub threadlist_remhead : ℕ → Nodes → Option (Option ℕ × Nodes)
unfolding taken_off
threadlist_remhead tl s =
    let tln = s.tln_next (tl_head tl) in
    if tln == 0 then none else if s.tln_next tln == 0 then some (none, s) else taken_off tl tln s

unfoldable pub threadlist_remtail : ℕ → Nodes → Option (Option ℕ × Nodes)
unfolding taken_off
threadlist_remtail tl s =
    let tln = s.tln_prev (tl_tail tl) in
    if tln == 0 then none else if s.tln_prev tln == 0 then some (none, s) else taken_off tl tln s

unfoldable pub threadlist_insertafter : ℕ → ℕ → ℕ → Nodes → Option Nodes
unfolding threadlist_insertafternode count_up
threadlist_insertafter tl onlist addee s = do
  a ← threadlist_insertafternode (t_listnode onlist) addee s
  some (count_up tl a)

unfoldable pub threadlist_insertbefore : ℕ → ℕ → ℕ → Nodes → Option Nodes
unfolding threadlist_insertbeforenode count_up
threadlist_insertbefore tl addee onlist s = do
  a ← threadlist_insertbeforenode addee (t_listnode onlist) s
  some (count_up tl a)

unfoldable pub threadlist_remove : ℕ → ℕ → Nodes → Option Nodes
unfolding threadlist_removenode count_down
threadlist_remove tl t s = do a ← threadlist_removenode (t_listnode t) s; some (count_down tl a)
