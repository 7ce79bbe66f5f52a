-- ===== src/Threadlist/Adding.antt =====
-- A node that is inserted into a chain adds its thread to the list: kern/thread/threadlist.c.
use ms_projects.Common.{
  ℕ, ◌+◌, ◌%◌, ◌^◌, ◌≤◌, ◌<◌, ◌≡◌, ◌≢◌, sym, subst, ◌∙◌, ap, List, ◌∷◌, ◌++◌, length, length-append,
  arith, ◌==◌, if◌then◌else◌, ℕ_discrete,
}
use ms_projects.Common.Sums.{assign}
use ms_projects.Threadlist.{Nodes, tl_head, tl_tail, t_listnode, count_up}
use ms_projects.Threadlist.Segments.{occurs, occurs-append, Seg, last, first}
use ms_projects.Threadlist.Insertion.{Inserted, Seg-insert}
use ms_projects.Threadlist.Elsewhere.{pointers_elsewhere, ends_elsewhere, chain_elsewhere}
use ms_projects.Threadlist.Lists.{Lists, Off, Represents, assign-elim, Gap, Gap-Apart, Gap-Aside}

-- `t` comes onto the list `l`, which has a gap between `xs` and `ys`.
abbrev pub added : Lists → ℕ → List ℕ → ℕ → List ℕ → Lists
added a l xs t ys = record a { members = assign a.members l (xs ++ t ∷ ys) }

pub occurs-added :
    (x t : ℕ) (xs ys : List ℕ)
    → occurs x (xs ++ t ∷ ys) ≡ occurs x (xs ++ ys) + (if t == x then 1 else 0)
occurs-added x t xs ys = omega (arith, occurs-append x xs (t ∷ ys), occurs-append x xs ys)

pub length-added : (t : ℕ) (xs ys : List ℕ) → length (xs ++ t ∷ ys) ≡ length (xs ++ ys) + 1
length-added t xs ys = omega (arith, length-append xs (t ∷ ys), length-append xs ys)

module _ {s : Nodes} {a : Lists} (r : Represents s a) {l : ℕ} (there : l < a.lists) (xs ys : List ℕ)
    (e : a.members l ≡ xs ++ ys) where
  -- A thread that is on no list is in no chain.
  pub Off-Gap : {t : ℕ} → Off a t → Gap l xs ys t
  Off-Gap {t} off =
      let none : occurs t (xs ++ ys) ≡ 0 = subst (λ zs. occurs t zs ≡ 0) e (off l there) in
      record {
        once = λ x.
            let le : occurs x (xs ++ ys) ≤ 1 = subst (λ zs. occurs x zs ≤ 1) e (r.once l there x) in
            omega (arith, le, occurs-append x xs ys);
        off_xs = omega (arith, none, occurs-append t xs ys);
        off_ys = omega (arith, none, occurs-append t xs ys);
      }

  module _ {s' : Nodes} {t : ℕ} (known : t < a.threads) (off : Off a t)
      (i : Inserted s s' (last (tl_head l) xs) (first ys (tl_tail l)) (t_listnode t)) where
    g : Gap l xs ys t
    g = Off-Gap off

    on : (x : ℕ) → 0 < occurs x xs + occurs x ys → 0 < occurs x (a.members l)
    on x h = subst (λ zs. 0 < occurs x zs) (sym e) (omega (arith, h, occurs-append x xs ys))

    on_list_ne : (j : ℕ) → j < a.lists → (x : ℕ) → 0 < occurs x (a.members j) → x ≢ t
    on_list_ne j lt x h e' =
        let here : 0 < occurs t (a.members j) = subst (λ z. 0 < occurs z (a.members j)) e' h in
        omega (arith, off j lt, here)

    counted_here : (count_up l s').tl_count l ≡ length (xs ++ t ∷ ys) % 2 ^ 32
    unfolding count_up
    counted_here =
        let old : s'.tl_count l ≡ length (xs ++ ys) % 2 ^ 32 =
          ap (λ f. f l) i.edited.counts ∙ r.count l there ∙ ap (λ zs. length zs % 2 ^ 32) e in
        ground (arith, old, length-added t xs ys)

    new : Lists
    new = added a l xs t ys

    occurs_in :
        (x j : ℕ)
        → occurs x (new.members j)
          ≡ occurs x (a.members j) + (if l == j then (if t == x then 1 else 0) else 0)
    unfolding new
    occurs_in x =
        assign-elim
          (λ j zs.
            occurs x zs
            ≡ occurs x (a.members j) + (if l == j then (if t == x then 1 else 0) else 0))
          a.members l (xs ++ t ∷ ys)
          (let old : occurs x (a.members l) ≡ occurs x (xs ++ ys) = ap (occurs x) e in
            ground (arith, occurs-added x t xs ys, old))
          (λ j ne. ground (arith, ne))

    fresh : (x : ℕ) → t ≡ x → (j : ℕ) → j < a.lists → occurs x (a.members j) ≡ 0
    fresh x e' j lt = subst (λ z. occurs z (a.members j) ≡ 0) e' (off j lt)

    once_still : (j : ℕ) → j < a.lists → (x : ℕ) → occurs x (new.members j) ≤ 1
    once_still j lt x = elim (ℕ_discrete t x) [
      | yes e' ↦ ground (arith, occurs_in x j, fresh x e' j lt)
      | no ne ↦ ground (arith, occurs_in x j, ne, r.once j lt x)
    ]

    known_still : (j : ℕ) → j < a.lists → (x : ℕ) → 0 < occurs x (new.members j) → x < a.threads
    known_still j lt x h = elim (ℕ_discrete t x) [
      | yes e' ↦ subst (λ z. z < a.threads) e' known
      | no ne ↦ r.known j lt x (ground (arith, h, ne, occurs_in x j))
    ]

    apart_still :
        (j k : ℕ)
        → j < a.lists
        → k < a.lists
        → j ≢ k
        → (x : ℕ) → occurs x (new.members j) + occurs x (new.members k) ≤ 1
    apart_still j k lt lt' d x = elim (ℕ_discrete t x) [
      | yes e' ↦ ground (arith, d, occurs_in x j, occurs_in x k, fresh x e' j lt, fresh x e' k lt')
      | no ne ↦ ground (arith, occurs_in x j, occurs_in x k, ne, r.apart j k lt lt' d x)
    ]

    still_unlinked :
        (x : ℕ)
        → x < a.threads
        → Off new x
        → (s'.tln_next (t_listnode x) ≡ 0) × (s'.tln_prev (t_listnode x) ≡ 0)
    unfolding new
    still_unlinked x lt o =
        let ne : x ≢ t = λ e'. ground (arith, e', o l there, occurs_in x l) in
        let none : Off a x = λ j lt'. ground (arith, o j lt', occurs_in x j) in
        let (n, p) = pointers_elsewhere r there xs ys t on i.edited x ne (none l there) in
        let (n', p') = r.off x lt none in (n ∙ n', p ∙ p')

    pub Represents-added : Represents (count_up l s') (added a l xs t ys)
    unfolding count_up new
    Represents-added = record {
      chain =
          assign-elim (λ j zs. j < a.lists → Seg s' (tl_head j) zs (tl_tail j)) a.members l
            (xs ++ t ∷ ys)
            (λ lt.
              Seg-insert s s' (tl_head l) xs ys (tl_tail l) t i (Gap-Apart g) (Gap-Aside g)
                (subst (λ zs. Seg s (tl_head l) zs (tl_tail l)) e (r.chain l there)))
            (λ j ne lt. chain_elsewhere r there xs ys t on i.edited j ne lt (on_list_ne j lt));
      ends = ends_elsewhere r there xs ys t on i.edited;
      count =
          assign-elim (λ j zs. j < a.lists → (count_up l s').tl_count j ≡ length zs % 2 ^ 32)
            a.members l (xs ++ t ∷ ys) (λ lt. counted_here)
            (λ j ne lt. ground (arith, ne, ap (λ f. f j) i.edited.counts, r.count j lt));
      self = λ x lt. ap (λ f. f (t_listnode x)) i.edited.self ∙ r.self x lt;
      off = λ x lt o. still_unlinked x lt o;
      known = known_still;
      once = once_still;
      apart = apart_still;
    }
