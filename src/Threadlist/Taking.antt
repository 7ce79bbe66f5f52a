-- ===== src/Threadlist/Taking.antt =====
-- A node that is removed from a chain takes its thread off the list: kern/thread/threadlist.c.
use ms_projects.Common.{
  ℕ, ◌+◌, ◌%◌, ◌^◌, ◌≤◌, ◌<◌, ◌≡◌, ◌≢◌, sym, subst, ◌∙◌, ap, List, ◌∷◌, ◌++◌, length, arith, ◌==◌,
  if◌then◌else◌, ℕ_discrete,
}
use ms_projects.Common.Sums.{assign}
use ms_projects.Threadlist.{Nodes, tl_head, tl_tail, t_listnode, count_down}
use ms_projects.Threadlist.Segments.{occurs, occurs-append, Seg, last, first, Apart}
use ms_projects.Threadlist.Removal.{Removed, Seg-remove}
use ms_projects.Threadlist.Elsewhere.{pointers_elsewhere, ends_elsewhere, chain_elsewhere}
use ms_projects.Threadlist.Lists.{Lists, Off, Represents, assign-elim, Gap}
use ms_projects.Threadlist.Adding.{occurs-added, length-added}

-- What stays between `xs` and `ys` is nothing.
abbrev pub taken : Lists → ℕ → List ℕ → List ℕ → Lists
taken a l xs ys = record a { members = assign a.members l (xs ++ ys) }

module _ {s : Nodes} {a : Lists} (r : Represents s a) {l : ℕ} (there : l < a.lists) (xs : List ℕ)
    (t : ℕ) (ys : List ℕ) (e : a.members l ≡ xs ++ t ∷ ys) where
  occurs_was : (x : ℕ) → occurs x (a.members l) ≡ occurs x (xs ++ ys) + (if t == x then 1 else 0)
  occurs_was x = ap (occurs x) e ∙ occurs-added x t xs ys

  -- The list without the thread is a chain that the thread is not on.
  pub taken-Gap : Gap l xs ys t
  taken-Gap = record {
    once = λ x. ground (arith, r.once l there x, occurs_was x, occurs-append x xs ys);
    off_xs = ground (arith, r.once l there t, occurs_was t, occurs-append t xs ys);
    off_ys = ground (arith, r.once l there t, occurs_was t, occurs-append t xs ys);
  }

  taken-Apart : Apart (tl_head l) (xs ++ t ∷ ys) (tl_tail l)
  taken-Apart = record {
    ends = λ e'. omega (arith, e');
    once = λ x. subst (λ zs. occurs x zs ≤ 1) e (r.once l there x);
    from_a = λ x h e'. omega (arith, e');
    from_b = λ x h e'. omega (arith, e');
  }

  -- The thread is known, and on no other list.
  pub taken_known : t < a.threads
  taken_known = r.known l there t (ground (arith, occurs_was t))

  elsewhere_ne : (j : ℕ) → j ≢ l → j < a.lists → (x : ℕ) → 0 < occurs x (a.members j) → x ≢ t
  elsewhere_ne j ne lt x h e' =
      let here : 0 < occurs t (a.members j) = subst (λ z. 0 < occurs z (a.members j)) e' h in
      ground (arith, r.apart j l lt there ne t, occurs_was t, here)

  module _ {s' : Nodes}
      (i : Removed s s' (last (tl_head l) xs) (first ys (tl_tail l)) (t_listnode t)) where
    on : (x : ℕ) → 0 < occurs x xs + occurs x ys → 0 < occurs x (a.members l)
    on x h = omega (arith, h, occurs_was x, occurs-append x xs ys)

    counted_here : (count_down l s').tl_count l ≡ length (xs ++ ys) % 2 ^ 32
    unfolding count_down
    counted_here =
        let old : s'.tl_count l ≡ length (xs ++ t ∷ ys) % 2 ^ 32 =
          ap (λ f. f l) i.edited.counts ∙ r.count l there ∙ ap (λ zs. length zs % 2 ^ 32) e in
        ground (arith, old, length-added t xs ys)

    new : Lists
    new = taken a l xs ys

    occurs_in :
        (x j : ℕ)
        → occurs x (a.members j)
          ≡ occurs x (new.members j) + (if l == j then (if t == x then 1 else 0) else 0)
    unfolding new
    occurs_in x =
        assign-elim
          (λ j zs.
            occurs x (a.members j)
            ≡ occurs x zs + (if l == j then (if t == x then 1 else 0) else 0))
          a.members l (xs ++ ys) (ground (arith, occurs_was x)) (λ j ne. ground (arith, ne))

    links_now :
        (x : ℕ)
        → x < a.threads
        → Off new x
        → (s'.tln_next (t_listnode x) ≡ 0) × (s'.tln_prev (t_listnode x) ≡ 0)
    unfolding new
    links_now x lt o = elim (ℕ_discrete t x) [
      | yes e' ↦ (ap t_next (sym e') ∙ i.next_n, ap t_prev (sym e') ∙ i.prev_n)
      | no ne ↦
          let none : Off a x = λ j lt'. ground (arith, ne, o j lt', occurs_in x j) in
          let (n, p) =
            pointers_elsewhere r there xs ys t on i.edited x (λ e'. ne (sym e')) (none l there) in
          let (n', p') = r.off x lt none in (n ∙ n', p ∙ p')
    ]
      where
        t_next : ℕ → ℕ
        t_next z = s'.tln_next (t_listnode z)

        t_prev : ℕ → ℕ
        t_prev z = s'.tln_prev (t_listnode z)

    pub Represents-taken : Represents (count_down l s') (taken a l xs ys)
    unfolding count_down new
    Represents-taken = record {
      chain =
          assign-elim (λ j zs. j < a.lists → Seg s' (tl_head j) zs (tl_tail j)) a.members l
            (xs ++ ys)
            (λ lt.
              Seg-remove s s' (tl_head l) xs ys (tl_tail l) t i taken-Apart
                (subst (λ zs. Seg s (tl_head l) zs (tl_tail l)) e (r.chain l there)))
            (λ j ne lt. chain_elsewhere r there xs ys t on i.edited j ne lt (elsewhere_ne j ne lt));
      ends = ends_elsewhere r there xs ys t on i.edited;
      count =
          assign-elim (λ j zs. j < a.lists → (count_down l s').tl_count j ≡ length zs % 2 ^ 32)
            a.members l (xs ++ ys) (λ lt. counted_here)
            (λ j ne lt. ground (arith, ne, ap (λ f. f j) i.edited.counts, r.count j lt));
      self = λ x lt. ap (λ f. f (t_listnode x)) i.edited.self ∙ r.self x lt;
      off = links_now;
      known = λ j lt x h. r.known j lt x (omega (arith, h, occurs_in x j));
      once = λ j lt x. omega (arith, r.once j lt x, occurs_in x j);
      apart = λ j k lt lt' d x. omega (arith, r.apart j k lt lt' d x, occurs_in x j, occurs_in x k);
    }
