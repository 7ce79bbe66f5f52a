-- ===== src/Threadlist/Insertion.antt =====
-- Insertion of kern/thread/threadlist.c: a node between two neighbours.
use ms_projects.Common.{ℕ, ◌<◌, ◌≡◌, ◌≢◌, refl, sym, ◌∙◌, some, List, [], ◌∷◌, ◌++◌, arith}
use ms_projects.Common.Sums.{assign}
use ms_projects.Threadlist.{
  Nodes, t_listnode, set_next, set_prev, threadlist_insertafternode, threadlist_insertbeforenode,
}
use ms_projects.Threadlist.Segments.{
  occurs, Seg, Seg-frame, Edited, last, first, Apart, Apart-tail, Apart-last, Apart-first,
}

-- The node `n` has come between `p` and `q`.
pub record Inserted (s s' : Nodes) (p q n : ℕ) : Type 0 where
  pub next_p : s'.tln_next p ≡ n
  pub prev_n : s'.tln_prev n ≡ p
  pub next_n : s'.tln_next n ≡ q
  pub prev_q : s'.tln_prev q ≡ n
  pub edited : Edited s s' p q n

-- What is asked of the three nodes.
pub record Three (p q n : ℕ) : Type 0 where
  pub p_there : p ≢ 0
  pub q_there : q ≢ 0
  pub n_there : n ≢ 0
  pub p_q : p ≢ q
  pub n_p : n ≢ p
  pub n_q : n ≢ q

abbrev linked : ℕ → ℕ → ℕ → Nodes → Nodes
linked p q n s = record s {
  tln_next = assign (assign s.tln_next n q) p n;
  tln_prev = assign (assign s.tln_prev n p) q n;
}

linked-Inserted : {p q n : ℕ} (s : Nodes) → Three p q n → Inserted s (linked p q n s) p q n
linked-Inserted s d = record {
  next_p = ground arith;
  prev_n = ground arith;
  next_n = ground arith;
  prev_q = ground arith;
  edited = record {
    next_else = λ z a b. ground arith;
    prev_else = λ z a b. ground arith;
    self = refl;
    counts = refl;
  };
}

pub insertafternode-Inserted :
    (p q t : ℕ) (s : Nodes)
    → s.tln_next p ≡ q
    → Three p q (t_listnode t)
    → (s' : Nodes) × (threadlist_insertafternode p t s ≡ some s') × Inserted s s' p q (t_listnode t)
unfolding threadlist_insertafternode set_next set_prev
insertafternode-Inserted p q t s e d =
    (linked p q (t_listnode t) s, ground (arith, e), linked-Inserted s d)

pub insertbeforenode-Inserted :
    (p q t : ℕ) (s : Nodes)
    → s.tln_prev q ≡ p
    → Three p q (t_listnode t)
    → (s' : Nodes) × (threadlist_insertbeforenode t q s ≡ some s')
      × Inserted s s' p q (t_listnode t)
unfolding threadlist_insertbeforenode set_next set_prev
insertbeforenode-Inserted p q t s e d =
    (linked p q (t_listnode t) s, ground (arith, e), linked-Inserted s d)

-- A chain, and a node that is not on it.
pub record Aside (n a : ℕ) (xs : List ℕ) (b : ℕ) : Type 0 where
  pub from_a : n ≢ a
  pub from_b : n ≢ b
  pub from_xs : (x : ℕ) → 0 < occurs x xs → n ≢ t_listnode x

pub Seg-insert :
    (s s' : Nodes) (a : ℕ) (xs ys : List ℕ) (b t : ℕ)
    → Inserted s s' (last a xs) (first ys b) (t_listnode t)
    → Apart a (xs ++ ys) b
    → Aside (t_listnode t) a (xs ++ ys) b
    → Seg s a (xs ++ ys) b
    → Seg s' a (xs ++ t ∷ ys) b
Seg-insert s s' a [] [] b t i p f h = (i.next_p, i.prev_n, (i.next_n, i.prev_q))
Seg-insert s s' a [] (y ∷ ys) b t i p f (l, r, rest) = (
  i.next_p,
  i.prev_n,
  (
    i.next_n,
    i.prev_q,
    Seg-frame s s' (t_listnode y) ys b
        (i.edited.next_else (t_listnode y) (p.from_a y (ground arith))
          (λ e. f.from_xs y (ground arith) (sym e)))
        (i.edited.prev_else b (λ e. p.from_b y (ground arith) (sym e)) (λ e. f.from_b (sym e)))
        (λ z h. (
          i.edited.next_else (t_listnode z) (p.from_a z (omega (arith, h)))
              (λ e. f.from_xs z (omega (arith, h)) (sym e)),
          i.edited.prev_else (t_listnode z) ((Apart-tail p).from_a z h)
              (λ e. f.from_xs z (omega (arith, h)) (sym e)),
        ))
        rest,
  ),
)
Seg-insert s s' a (x ∷ xs) ys b t i p f (l, r, rest) = (
  i.edited.next_else a (Apart-last xs ys p) (λ e. f.from_a (sym e)) ∙ l,
  i.edited.prev_else (t_listnode x) (Apart-first xs ys p) (λ e. f.from_xs x (ground arith) (sym e))
      ∙ r,
  Seg-insert s s' (t_listnode x) xs ys b t i (Apart-tail p)
      (record {
        from_a = f.from_xs x (ground arith);
        from_b = f.from_b;
        from_xs = λ z h. f.from_xs z (omega (arith, h));
      })
      rest,
)
