-- ===== src/Threadlist/Gaps.antt =====
-- The internal operations of kern/thread/threadlist.c, at a gap and at a member of a list.
use ms_projects.Common.{ℕ, ◌<◌, ◌≡◌, subst, some, List, [], ◌∷◌, ◌++◌}
use ms_projects.Threadlist.{
  Nodes, tl_head, tl_tail, t_listnode, threadlist_insertafternode, threadlist_insertbeforenode,
  threadlist_removenode, count_up, count_down,
}
use ms_projects.Threadlist.Segments.{Seg, last, first, Seg-adjacent}
use ms_projects.Threadlist.Insertion.{Three, insertafternode-Inserted, insertbeforenode-Inserted}
use ms_projects.Threadlist.Removal.{removenode-Removed}
use ms_projects.Threadlist.Lists.{Lists, Off, Represents, Gap-Three}
use ms_projects.Threadlist.Adding.{added, Off-Gap, Represents-added}
use ms_projects.Threadlist.Taking.{taken, taken-Gap, Represents-taken}

-- The neighbours of a member.
pub Seg-member :
    (s : Nodes) (a : ℕ) (xs : List ℕ) (t : ℕ) (ys : List ℕ) (b : ℕ)
    → Seg s a (xs ++ t ∷ ys) b
    → (s.tln_next (last a xs) ≡ t_listnode t)
      × (s.tln_prev (t_listnode t) ≡ last a xs)
      × (s.tln_next (t_listnode t) ≡ first ys b)
      × (s.tln_prev (first ys b) ≡ t_listnode t)
Seg-member s a [] t [] b (l, r, (l', r')) = (l, r, l', r')
Seg-member s a [] t (y ∷ ys) b (l, r, (l', r', rest)) = (l, r, l', r')
Seg-member s a (x ∷ xs) t ys b (l, r, rest) = Seg-member s (t_listnode x) xs t ys b rest

module _ {s : Nodes} {a : Lists} (r : Represents s a) {l : ℕ} (there : l < a.lists) where
  module _ (xs ys : List ℕ) (e : a.members l ≡ xs ++ ys) {t : ℕ} (known : t < a.threads)
      (off : Off a t) where
    gap :
        (s.tln_next (last (tl_head l) xs) ≡ first ys (tl_tail l))
        × (s.tln_prev (first ys (tl_tail l)) ≡ last (tl_head l) xs)
    gap =
        Seg-adjacent s (tl_head l) xs ys (tl_tail l)
          (subst (λ zs. Seg s (tl_head l) zs (tl_tail l)) e (r.chain l there))

    three : Three (last (tl_head l) xs) (first ys (tl_tail l)) (t_listnode t)
    three = Gap-Three (Off-Gap r there xs ys e off)

    pub insert_after-gap :
        (s' : Nodes) × (threadlist_insertafternode (last (tl_head l) xs) t s ≡ some s')
        × Represents (count_up l s') (added a l xs t ys)
    insert_after-gap =
        let (s', ok, i) =
          insertafternode-Inserted (last (tl_head l) xs) (first ys (tl_tail l)) t s gap.0 three in
        (s', ok, Represents-added r there xs ys e known off i)

    pub insert_before-gap :
        (s' : Nodes) × (threadlist_insertbeforenode t (first ys (tl_tail l)) s ≡ some s')
        × Represents (count_up l s') (added a l xs t ys)
    insert_before-gap =
        let (s', ok, i) =
          insertbeforenode-Inserted (last (tl_head l) xs) (first ys (tl_tail l)) t s gap.1 three in
        (s', ok, Represents-added r there xs ys e known off i)

  module _ (xs : List ℕ) (t : ℕ) (ys : List ℕ) (e : a.members l ≡ xs ++ t ∷ ys) where
    pub around :
        (s.tln_next (last (tl_head l) xs) ≡ t_listnode t)
        × (s.tln_prev (t_listnode t) ≡ last (tl_head l) xs)
        × (s.tln_next (t_listnode t) ≡ first ys (tl_tail l))
        × (s.tln_prev (first ys (tl_tail l)) ≡ t_listnode t)
    around =
        Seg-member s (tl_head l) xs t ys (tl_tail l)
          (subst (λ zs. Seg s (tl_head l) zs (tl_tail l)) e (r.chain l there))

    pub remove-member :
        (s' : Nodes) × (threadlist_removenode (t_listnode t) s ≡ some s')
        × (s'.tln_self ≡ s.tln_self)
        × Represents (count_down l s') (taken a l xs ys)
    remove-member =
        let (_, prev, next, _) = around in
        let (s', ok, i) =
          removenode-Removed (t_listnode t) (last (tl_head l) xs) (first ys (tl_tail l)) s prev next
            (Gap-Three (taken-Gap r there xs t ys e)) in
        (s', ok, i.edited.self, Represents-taken r there xs t ys e i)
