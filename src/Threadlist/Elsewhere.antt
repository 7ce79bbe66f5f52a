-- ===== src/Threadlist/Elsewhere.antt =====
-- An insertion or a removal of kern/thread/threadlist.c leaves the other lists as they are.
use ms_projects.Common.{ℕ, ◌+◌, ◌<◌, ◌≡◌, ◌≢◌, subst, ◌∙◌, List, arith}
use ms_projects.Threadlist.{Nodes, tl_head, tl_tail, t_listnode}
use ms_projects.Threadlist.Segments.{occurs, Seg, Same, Seg-frame, Edited, last, first}
use ms_projects.Threadlist.Lists.{Lists, Represents, last-ne, first-ne}

-- Between `xs` and `ys` of the list `l` the node of `t` is linked or unlinked.
module _ {s s' : Nodes} {a : Lists} (r : Represents s a) {l : ℕ} (there : l < a.lists)
    (xs ys : List ℕ) (t : ℕ)
    (on : (x : ℕ) → 0 < occurs x xs + occurs x ys → 0 < occurs x (a.members l))
    (d : Edited s s' (last (tl_head l) xs) (first ys (tl_tail l)) (t_listnode t)) where
  next_elsewhere :
      (z : ℕ)
      → z ≢ tl_head l
      → z ≢ t_listnode t
      → ((x : ℕ) → 0 < occurs x (a.members l) → z ≢ t_listnode x)
      → s'.tln_next z ≡ s.tln_next z
  next_elsewhere z head_ne t_ne on_ne =
      d.next_else z (last-ne l xs z head_ne (λ x h. on_ne x (on x (omega (arith, h))))) t_ne

  prev_elsewhere :
      (z : ℕ)
      → z ≢ tl_tail l
      → z ≢ t_listnode t
      → ((x : ℕ) → 0 < occurs x (a.members l) → z ≢ t_listnode x)
      → s'.tln_prev z ≡ s.tln_prev z
  prev_elsewhere z tail_ne t_ne on_ne =
      d.prev_else z (first-ne l ys z tail_ne (λ x h. on_ne x (on x (omega (arith, h))))) t_ne

  pub pointers_elsewhere : (x : ℕ) → x ≢ t → occurs x (a.members l) ≡ 0 → Same s s' (t_listnode x)
  pointers_elsewhere x ne none =
      let others : (y : ℕ) → 0 < occurs y (a.members l) → t_listnode x ≢ t_listnode y = λ y h e'.
        let here : 0 < occurs x (a.members l) =
          subst (λ z. 0 < occurs z (a.members l)) {y = x} (omega (arith, e')) h in
        omega (arith, none, here) in
      (
        next_elsewhere (t_listnode x) (λ e'. omega (arith, e')) (λ e'. ne (omega (arith, e')))
            others,
        prev_elsewhere (t_listnode x) (λ e'. omega (arith, e')) (λ e'. ne (omega (arith, e')))
            others,
      )

  pub ends_elsewhere :
      (j : ℕ) → j < a.lists → (s'.tln_prev (tl_head j) ≡ 0) × (s'.tln_next (tl_tail j) ≡ 0)
  ends_elsewhere j lt = (
    prev_elsewhere (tl_head j) (λ e'. omega (arith, e')) (λ e'. omega (arith, e'))
          (λ x h e'. omega (arith, e'))
        ∙ (r.ends j lt).0,
    next_elsewhere (tl_tail j) (λ e'. omega (arith, e')) (λ e'. omega (arith, e'))
          (λ x h e'. omega (arith, e'))
        ∙ (r.ends j lt).1,
  )

  pub chain_elsewhere :
      (j : ℕ)
      → j ≢ l
      → j < a.lists
      → ((x : ℕ) → 0 < occurs x (a.members j) → x ≢ t)
      → Seg s' (tl_head j) (a.members j) (tl_tail j)
  chain_elsewhere j ne lt t_ne =
      Seg-frame s s' (tl_head j) (a.members j) (tl_tail j)
        (next_elsewhere (tl_head j) (λ e'. ne (omega (arith, e'))) (λ e'. omega (arith, e'))
          (λ x h e'. omega (arith, e')))
        (prev_elsewhere (tl_tail j) (λ e'. ne (omega (arith, e'))) (λ e'. omega (arith, e'))
          (λ x h e'. omega (arith, e')))
        (λ x h. pointers_elsewhere x (t_ne x h) (omega (arith, h, r.apart j l lt there ne x)))
        (r.chain j lt)
