-- ===== src/Threadlist/Refines.antt =====
-- kern/thread/threadlist.c implements lists of threads.
use mathlib.Core.List.{append-nil}
use ms_projects.Common.{
  ℕ, ◌<◌, ◌≡◌, ◌≢◌, refl, sym, subst, ◌∙◌, ap, Option, none, some, List, [], ◌∷◌, ◌++◌, arith, ◌==◌,
  if◌then◌else◌,
}
use ms_projects.Threadlist.{
  Nodes, tl_head, tl_tail, t_listnode, threadlist_addhead, threadlist_addtail, taken_off,
  threadlist_remhead, threadlist_remtail, threadlist_insertafter, threadlist_insertbefore,
  threadlist_remove, count_down,
}
use ms_projects.Threadlist.Segments.{Seg, last, first}
use ms_projects.Threadlist.Lists.{Lists, Off, Represents, Gap-Three}
use ms_projects.Threadlist.Adding.{added}
use ms_projects.Threadlist.Taking.{taken, taken-Gap, taken_known}
use ms_projects.Threadlist.Calls.{
  Call, add_head, add_tail, rem_head, rem_tail, insert_after, insert_before, remove, Spec,
  inits_node, inits_list, adds_head, adds_tail, finds_no_head, finds_no_tail, takes_head,
  takes_tail, inserts_after, inserts_before, removes, run, Gives,
}
use ms_projects.Threadlist.Inits.{node_init-Gives, list_init-Gives}
use ms_projects.Threadlist.Gaps.{insert_after-gap, insert_before-gap, around, remove-member}

last-append : (a : ℕ) (xs : List ℕ) (o : ℕ) → last a (xs ++ o ∷ []) ≡ t_listnode o
last-append a [] o = refl
last-append a (x ∷ xs) o = last-append (t_listnode x) xs o

not_empty :
    (p q : ℕ) (s : Nodes) {result : Option (Option ℕ × Nodes)}
    → p ≢ 0
    → q ≢ 0
    → (if p == 0 then none else if q == 0 then some (none, s) else result) ≡ result
not_empty p q s h k = ground (arith, h, k)

module _ {s : Nodes} {a : Lists} (r : Represents s a) where
  module _ {l : ℕ} (there : l < a.lists) where
    module _ {t : ℕ} (known : t < a.threads) (off : Off a t) where
      add_head-Gives : Gives (run (add_head l t) s) none (added a l [] t (a.members l))
      unfolding run threadlist_addhead
      add_head-Gives =
          let (s', ok, rep) = insert_after-gap r there [] (a.members l) refl known off in
          (_, rw ok, rep)

      add_tail-Gives : Gives (run (add_tail l t) s) none (added a l (a.members l) t [])
      unfolding run threadlist_addtail
      add_tail-Gives =
          let (s', ok, rep) =
            insert_before-gap r there (a.members l) [] (sym (append-nil (a.members l))) known off in
          (_, rw ok, rep)

      insert_after-Gives :
          (xs : List ℕ) (o : ℕ) (ys : List ℕ)
          → a.members l ≡ (xs ++ o ∷ []) ++ ys
          → Gives (run (insert_after l o t) s) none (added a l (xs ++ o ∷ []) t ys)
      unfolding run threadlist_insertafter
      insert_after-Gives xs o ys e =
          let (s', ok, rep) = insert_after-gap r there (xs ++ o ∷ []) ys e known off in
          (_, rw (← last-append (tl_head l) xs o, ok), rep)

      insert_before-Gives :
          (xs : List ℕ) (o : ℕ) (ys : List ℕ)
          → a.members l ≡ xs ++ o ∷ ys
          → Gives (run (insert_before l t o) s) none (added a l xs t (o ∷ ys))
      unfolding run threadlist_insertbefore
      insert_before-Gives xs o ys e =
          let (s', ok, rep) = insert_before-gap r there xs (o ∷ ys) e known off in (_, rw ok, rep)

    remove-Gives :
        (xs : List ℕ) (t : ℕ) (ys : List ℕ)
        → a.members l ≡ xs ++ t ∷ ys
        → Gives (run (remove l t) s) none (taken a l xs ys)
    unfolding run threadlist_remove
    remove-Gives xs t ys e =
        let (s', ok, _, rep) = remove-member r there xs t ys e in (_, rw ok, rep)

    -- The end of `threadlist_remhead` and `threadlist_remtail`.
    taken_off-Gives :
        (xs : List ℕ) (t : ℕ) (ys : List ℕ)
        → a.members l ≡ xs ++ t ∷ ys
        → Gives (taken_off l (t_listnode t) s) (some t) (taken a l xs ys)
    unfolding taken_off count_down
    taken_off-Gives xs t ys e =
        let (s', ok, self, rep) = remove-member r there xs t ys e in
        (
          _,
          rw ok (
              ap some (
                ap (λ x. (x, count_down l s'))
                  (ap (λ f. f (t_listnode t)) self ∙ r.self t (taken_known r there xs t ys e)))),
          rep,
        )

    rem_head-Gives :
        (t : ℕ) (ys : List ℕ)
        → a.members l ≡ t ∷ ys
        → Gives (run (rem_head l) s) (some t) (taken a l [] ys)
    unfolding run threadlist_remhead
    rem_head-Gives t ys e =
        let (head, _, next, _) = around r there [] t ys e in
        let (s', ok, rep) = taken_off-Gives [] t ys e in
        let there_q = (Gap-Three (taken-Gap r there [] t ys e)).q_there in
        (
          s',
          not_empty (s.tln_next (tl_head l)) (s.tln_next (s.tln_next (tl_head l))) s
                (λ z. omega (arith, head, z)) (λ z. there_q (sym (ap s.tln_next head ∙ next) ∙ z))
              ∙ ap (λ tln. taken_off l tln s) head
              ∙ ok,
          rep,
        )

    rem_tail-Gives :
        (xs : List ℕ) (t : ℕ)
        → a.members l ≡ xs ++ t ∷ []
        → Gives (run (rem_tail l) s) (some t) (taken a l xs [])
    unfolding run threadlist_remtail
    rem_tail-Gives xs t e =
        let (_, prev, _, tail) = around r there xs t [] e in
        let (s', ok, rep) = taken_off-Gives xs t [] e in
        let there_p = (Gap-Three (taken-Gap r there xs t [] e)).p_there in
        (
          s',
          not_empty (s.tln_prev (tl_tail l)) (s.tln_prev (s.tln_prev (tl_tail l))) s
                (λ z. omega (arith, tail, z)) (λ z. there_p (sym (ap s.tln_prev tail ∙ prev) ∙ z))
              ∙ ap (λ tln. taken_off l tln s) tail
              ∙ ok,
          rep,
        )

    rem_empty-Gives :
        a.members l ≡ [] → Gives (run (rem_head l) s) none a × Gives (run (rem_tail l) s) none a
    unfolding run threadlist_remhead threadlist_remtail
    rem_empty-Gives e =
        let (next, prev) = subst (λ zs. Seg s (tl_head l) zs (tl_tail l)) e (r.chain l there) in
        let (first, last) = r.ends l there in
        (
          (s, ground (arith, next, ap s.tln_next next ∙ last), r),
          (s, ground (arith, prev, ap s.tln_prev prev ∙ first), r),
        )

-- Where the nodes represent the lists, every call that the lists allow comes back with what they
-- promise, and the nodes represent the lists that it makes.
pub threadlist_refines :
    {s : Nodes} {a a' : Lists} {c : Call} {x : Option ℕ}
    → Represents s a
    → Spec a c x a'
    → Gives (run c s) x a'
threadlist_refines r inits_node = node_init-Gives r
threadlist_refines r inits_list = list_init-Gives r
threadlist_refines r (adds_head l t lt known off) = add_head-Gives r lt known off
threadlist_refines r (adds_tail l t lt known off) = add_tail-Gives r lt known off
threadlist_refines r (finds_no_head l lt e) = (rem_empty-Gives r lt e).0
threadlist_refines r (finds_no_tail l lt e) = (rem_empty-Gives r lt e).1
threadlist_refines r (takes_head l t ys lt e) = rem_head-Gives r lt t ys e
threadlist_refines r (takes_tail l t xs lt e) = rem_tail-Gives r lt xs t e
threadlist_refines r (inserts_after l o t xs ys lt known off e) =
    insert_after-Gives r lt known off xs o ys e
threadlist_refines r (inserts_before l o t xs ys lt known off e) =
    insert_before-Gives r lt known off xs o ys e
threadlist_refines r (removes l t xs ys lt e) = remove-Gives r lt xs t ys e
