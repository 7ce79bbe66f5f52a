-- ===== src/Threadlist/Lists.antt =====
-- What the nodes of kern/thread/threadlist.c stand for: lists of threads.
use ms_projects.Common.{
  ℕ, ◌+◌, ◌%◌, ◌^◌, ◌≤◌, ◌<◌, ◌≡◌, ◌≢◌, sym, subst, ◌∙◌, inl, inr, some, List, ◌++◌, length, arith,
  ℕ_discrete,
}
use ms_projects.Common.Sums.{assign}
use ms_projects.Threadlist.{Nodes, tl_head, tl_tail, t_listnode}
use ms_projects.Threadlist.Segments.{
  occurs, occurs-append, Seg, last, first, last-cases, first-cases, Apart,
}
use ms_projects.Threadlist.Insertion.{Three, Aside}

-- The lists and the threads whose nodes have been initialised are those below a bound.
pub record Lists : Type 0 where
  pub lists : ℕ
  pub threads : ℕ
  pub members : ℕ → List ℕ

-- `t` is on no list.
abbrev pub Off : Lists → ℕ → Type 0
Off a t = (l : ℕ) → l < a.lists → occurs t (a.members l) ≡ 0

pub record Represents (s : Nodes) (a : Lists) : Type 0 where
  pub chain : (l : ℕ) → l < a.lists → Seg s (tl_head l) (a.members l) (tl_tail l)
  pub ends : (l : ℕ) → l < a.lists → (s.tln_prev (tl_head l) ≡ 0) × (s.tln_next (tl_tail l) ≡ 0)
  pub count : (l : ℕ) → l < a.lists → s.tl_count l ≡ length (a.members l) % 2 ^ 32
  pub self : (t : ℕ) → t < a.threads → s.tln_self (t_listnode t) ≡ some t
  pub off :
      (t : ℕ)
      → t < a.threads
      → Off a t
      → (s.tln_next (t_listnode t) ≡ 0) × (s.tln_prev (t_listnode t) ≡ 0)
  pub known : (l : ℕ) → l < a.lists → (t : ℕ) → 0 < occurs t (a.members l) → t < a.threads
  pub once : (l : ℕ) → l < a.lists → (t : ℕ) → occurs t (a.members l) ≤ 1
  pub apart :
      (l k : ℕ)
      → l < a.lists
      → k < a.lists
      → l ≢ k
      → (t : ℕ) → occurs t (a.members l) + occurs t (a.members k) ≤ 1

-- What holds of the new value, and of the old ones elsewhere, holds of a list that is assigned to.
pub assign-elim {ℓ ℓ'} :
    {A : Type ℓ} (P : ℕ → A → Type ℓ') (f : ℕ → A) (i : ℕ) (v : A)
    → P i v
    → ((j : ℕ) → j ≢ i → P j (f j))
    → (j : ℕ) → P j (assign f i v j)
assign-elim P f i v new old j = elim (ℕ_discrete j i) [
  | yes e ↦ subst (λ k. P k (assign f i v k)) (sym e) (subst (P i) (ground arith) new)
  | no ne ↦ subst (P j) (ground (arith, ne)) (old j ne)
]

-- The neighbours of a gap are no nodes apart from the chain.
pub last-ne :
    (l : ℕ) (xs : List ℕ) (z : ℕ)
    → z ≢ tl_head l
    → ((x : ℕ) → 0 < occurs x xs → z ≢ t_listnode x)
    → z ≢ last (tl_head l) xs
last-ne l xs z head_ne from_xs e = elim (last-cases (tl_head l) xs) [
  | inl e' ↦ head_ne (e ∙ e')
  | inr (x, e', h) ↦ from_xs x h (e ∙ e')
]

pub first-ne :
    (l : ℕ) (ys : List ℕ) (z : ℕ)
    → z ≢ tl_tail l
    → ((x : ℕ) → 0 < occurs x ys → z ≢ t_listnode x)
    → z ≢ first ys (tl_tail l)
first-ne l ys z tail_ne from_ys e = elim (first-cases ys (tl_tail l)) [
  | inl e' ↦ tail_ne (e ∙ e')
  | inr (x, e', h) ↦ from_ys x h (e ∙ e')
]

-- The chain of a list with a gap, and a thread `t` that is not on it.
pub record Gap (l : ℕ) (xs ys : List ℕ) (t : ℕ) : Type 0 where
  pub once : (x : ℕ) → occurs x xs + occurs x ys ≤ 1
  pub off_xs : occurs t xs ≡ 0
  pub off_ys : occurs t ys ≡ 0

module _ {l : ℕ} {xs ys : List ℕ} {t : ℕ} (g : Gap l xs ys t) where
  pub Gap-Apart : Apart (tl_head l) (xs ++ ys) (tl_tail l)
  Gap-Apart = record {
    ends = λ e. omega (arith, e);
    once = λ x. omega (arith, g.once x, occurs-append x xs ys);
    from_a = λ x h e. omega (arith, e);
    from_b = λ x h e. omega (arith, e);
  }

  -- A thread on the list is another one.
  pub on-ne :
      (x : ℕ) (zs : List ℕ) → occurs t zs ≡ 0 → 0 < occurs x zs → t_listnode t ≢ t_listnode x
  on-ne x zs none h e =
      let here : 0 < occurs t zs = subst (λ z. 0 < occurs z zs) {y = t} (omega (arith, e)) h in
      omega (arith, none, here)

  pub Gap-Aside : Aside (t_listnode t) (tl_head l) (xs ++ ys) (tl_tail l)
  Gap-Aside = record {
    from_a = λ e. omega (arith, e);
    from_b = λ e. omega (arith, e);
    from_xs = λ x. on-ne x (xs ++ ys) (omega (arith, g.off_xs, g.off_ys, occurs-append t xs ys));
  }

  sides-ne : last (tl_head l) xs ≢ first ys (tl_tail l)
  sides-ne e = elim (last-cases (tl_head l) xs) [
    | inl e' ↦
        first-ne l ys (tl_head l) (λ e. omega (arith, e)) (λ x h e. omega (arith, e)) (sym e' ∙ e)
    | inr (x, e', h) ↦
        first-ne l ys (t_listnode x) (λ e. omega (arith, e))
          (λ y h' e''.
            let twice : 0 < occurs x ys =
              subst (λ z. 0 < occurs z ys) {y = x} (omega (arith, e'')) h' in
            omega (arith, g.once x, h, twice))
          (sym e' ∙ e)
  ]

  pub Gap-Three : Three (last (tl_head l) xs) (first ys (tl_tail l)) (t_listnode t)
  Gap-Three = record {
    p_there = λ e. last-ne l xs 0 (λ e. omega (arith, e)) (λ x h e. omega (arith, e)) (sym e);
    q_there = λ e. first-ne l ys 0 (λ e. omega (arith, e)) (λ x h e. omega (arith, e)) (sym e);
    n_there = λ e. omega (arith, e);
    p_q = sides-ne;
    n_p = last-ne l xs (t_listnode t) (λ e. omega (arith, e)) (λ x. on-ne x xs g.off_xs);
    n_q = first-ne l ys (t_listnode t) (λ e. omega (arith, e)) (λ x. on-ne x ys g.off_ys);
  }
