-- ===== src/Threadlist/Removal.antt =====
-- Removal of kern/thread/threadlist.c: a node from between its neighbours.
use ms_projects.Common.{
  ℕ, ◌<◌, ◌≡◌, ◌≢◌, refl, sym, ◌∙◌, inl, inr, some, List, [], ◌∷◌, ◌++◌, arith,
}
use ms_projects.Common.Sums.{assign}
use ms_projects.Threadlist.{Nodes, t_listnode, set_next, set_prev, threadlist_removenode}
use ms_projects.Threadlist.Segments.{
  occurs, occurs-append, Seg, Seg-frame, Edited, last, first, first-cases, Apart, Apart-tail,
  Apart-last,
}
use ms_projects.Threadlist.Insertion.{Three}

-- The node `n` has gone from between `p` and `q`.
pub record Removed (s s' : Nodes) (p q n : ℕ) : Type 0 where
  pub next_p : s'.tln_next p ≡ q
  pub prev_q : s'.tln_prev q ≡ p
  pub next_n : s'.tln_next n ≡ 0
  pub prev_n : s'.tln_prev n ≡ 0
  pub edited : Edited s s' p q n

abbrev unlinked : ℕ → ℕ → ℕ → Nodes → Nodes
unlinked p q n s = record s {
  tln_next = assign (assign s.tln_next p q) n 0;
  tln_prev = assign (assign s.tln_prev q p) n 0;
}

unlinked-Removed : {p q n : ℕ} (s : Nodes) → Three p q n → Removed s (unlinked p q n s) p q n
unlinked-Removed s d = record {
  next_p = ground arith;
  prev_q = ground arith;
  next_n = ground arith;
  prev_n = ground arith;
  edited = record {
    next_else = λ z a b. ground arith;
    prev_else = λ z a b. ground arith;
    self = refl;
    counts = refl;
  };
}

pub removenode-Removed :
    (n p q : ℕ) (s : Nodes)
    → s.tln_prev n ≡ p
    → s.tln_next n ≡ q
    → Three p q n
    → (s' : Nodes) × (threadlist_removenode n s ≡ some s') × Removed s s' p q n
unfolding threadlist_removenode set_next set_prev
removenode-Removed n p q s e f d = (unlinked p q n s, ground (arith, e, f), unlinked-Removed s d)

pub Seg-remove :
    (s s' : Nodes) (a : ℕ) (xs ys : List ℕ) (b t : ℕ)
    → Removed s s' (last a xs) (first ys b) (t_listnode t)
    → Apart a (xs ++ t ∷ ys) b
    → Seg s a (xs ++ t ∷ ys) b
    → Seg s' a (xs ++ ys) b
Seg-remove s s' a [] [] b t i p h = (i.next_p, i.prev_q)
Seg-remove s s' a [] (y ∷ ys) b t i p (l, r, (l', r', rest)) =
    let later = Apart-tail p in
    let ne : (z : ℕ) → 0 < occurs z (y ∷ ys) → t_listnode z ≢ t_listnode t = later.from_a in
    let from_a : (z : ℕ) → 0 < occurs z (y ∷ ys) → t_listnode z ≢ a =
      λ z h. p.from_a z (omega (arith, h)) in
    (
      i.next_p,
      i.prev_q,
      Seg-frame s s' (t_listnode y) ys b
          (i.edited.next_else (t_listnode y) (from_a y (ground arith)) (ne y (ground arith)))
          (i.edited.prev_else b (λ e. p.from_b y (ground arith) (sym e))
            (λ e. p.from_b t (ground arith) (sym e)))
          (λ z h. (
            i.edited.next_else (t_listnode z) (from_a z (omega (arith, h)))
                (ne z (omega (arith, h))),
            i.edited.prev_else (t_listnode z) ((Apart-tail later).from_a z h)
                (ne z (omega (arith, h))),
          ))
          rest,
    )
Seg-remove s s' a (x ∷ xs) ys b t i p (l, r, rest) =
    let later = Apart-tail p in
    let here : 0 < occurs t (xs ++ t ∷ ys) = ground (arith, occurs-append t xs (t ∷ ys)) in
    (
      i.edited.next_else a (Apart-last xs (t ∷ ys) p)
            (λ e. p.from_a t (omega (arith, here)) (sym e))
          ∙ l,
      i.edited.prev_else (t_listnode x) (first_ne p) (λ e. later.from_a t here (sym e)) ∙ r,
      Seg-remove s s' (t_listnode x) xs ys b t i later rest,
    )
  where
    first_ne : Apart a (x ∷ xs ++ t ∷ ys) b → t_listnode x ≢ first ys b
    first_ne p e = elim (first-cases ys b) [
      | inl e' ↦ p.from_b x (ground arith) (e ∙ e')
      | inr (y, e', h) ↦
          (Apart-tail p).from_a y (omega (arith, h, occurs-append y xs (t ∷ ys))) (sym (e ∙ e'))
    ]
