-- ===== src/Threadlist/Segments.antt =====
-- Chains of nodes of kern/thread/threadlist.c, as lists of threads.
use ms_projects.Common.{
  ℕ, ◌+◌, ◌≤◌, ◌<◌, ◌≡◌, ◌≢◌, refl, subst, ◌∙◌, ◌⊎◌, inl, inr, List, [], ◌∷◌, ◌++◌, arith, ◌==◌,
  if◌then◌else◌,
}
use ms_projects.Threadlist.{Nodes, t_listnode}

-- How many times `t` stands in a list.
abbrev pub occurs : ℕ → List ℕ → ℕ
occurs t [] = 0
occurs t (x ∷ xs) = (if x == t then 1 else 0) + occurs t xs

pub occurs-append : (t : ℕ) (xs ys : List ℕ) → occurs t (xs ++ ys) ≡ occurs t xs + occurs t ys
occurs-append t [] ys = omega arith
occurs-append t (x ∷ xs) ys = omega (arith, occurs-append t xs ys)

-- From the node `a` on, the nodes of `xs` are linked both ways, up to the node `b`.
abbrev pub Seg : Nodes → ℕ → List ℕ → ℕ → Type 0
Seg s a [] b = (s.tln_next a ≡ b) × (s.tln_prev b ≡ a)
Seg s a (x ∷ xs) b =
    (s.tln_next a ≡ t_listnode x) × (s.tln_prev (t_listnode x) ≡ a) × Seg s (t_listnode x) xs b

-- The node `z` has the pointers that it had.
abbrev pub Same : Nodes → Nodes → ℕ → Type 0
Same s s' z = (s'.tln_next z ≡ s.tln_next z) × (s'.tln_prev z ≡ s.tln_prev z)

pub Seg-frame :
    (s s' : Nodes) (a : ℕ) (xs : List ℕ) (b : ℕ)
    → s'.tln_next a ≡ s.tln_next a
    → s'.tln_prev b ≡ s.tln_prev b
    → ((x : ℕ) → 0 < occurs x xs → Same s s' (t_listnode x))
    → Seg s a xs b
    → Seg s' a xs b
Seg-frame s s' a [] b n p same (l, r) = (n ∙ l, p ∙ r)
Seg-frame s s' a (x ∷ xs) b n p same (l, r, rest) =
    let here = same x (ground arith) in
    (
      n ∙ l,
      here.1 ∙ r,
      Seg-frame s s' (t_listnode x) xs b here.0 p (λ y h. same y (omega (arith, h))) rest,
    )

-- The node before the gap behind `xs`, and the node behind the gap before `ys`.
abbrev pub last : ℕ → List ℕ → ℕ
last a [] = a
last a (x ∷ xs) = last (t_listnode x) xs

abbrev pub first : List ℕ → ℕ → ℕ
first [] b = b
first (x ∷ xs) b = t_listnode x

pub last-cases :
    (a : ℕ) (xs : List ℕ)
    → (last a xs ≡ a) ⊎ ((x : ℕ) × (last a xs ≡ t_listnode x) × (0 < occurs x xs))
last-cases a [] = inl refl
last-cases a (x ∷ xs) = elim (last-cases (t_listnode x) xs) [
  | inl e ↦ inr (x, e, ground arith)
  | inr (y, e, h) ↦ inr (y, e, omega (arith, h))
]

pub first-cases :
    (xs : List ℕ) (b : ℕ)
    → (first xs b ≡ b) ⊎ ((x : ℕ) × (first xs b ≡ t_listnode x) × (0 < occurs x xs))
first-cases [] b = inl refl
first-cases (x ∷ xs) b = inr (x, refl, ground arith)

pub Seg-adjacent :
    (s : Nodes) (a : ℕ) (xs ys : List ℕ) (b : ℕ)
    → Seg s a (xs ++ ys) b
    → (s.tln_next (last a xs) ≡ first ys b) × (s.tln_prev (first ys b) ≡ last a xs)
Seg-adjacent s a [] [] b h = h
Seg-adjacent s a [] (y ∷ ys) b (l, r, rest) = (l, r)
Seg-adjacent s a (x ∷ xs) ys b (l, r, rest) = Seg-adjacent s (t_listnode x) xs ys b rest

-- Only the node `n`, the link behind `p` and the link before `q` have changed.
pub record Edited (s s' : Nodes) (p q n : ℕ) : Type 0 where
  pub next_else : (z : ℕ) → z ≢ p → z ≢ n → s'.tln_next z ≡ s.tln_next z
  pub prev_else : (z : ℕ) → z ≢ q → z ≢ n → s'.tln_prev z ≡ s.tln_prev z
  pub self : s'.tln_self ≡ s.tln_self
  pub counts : s'.tl_count ≡ s.tl_count

-- The nodes of a chain are different ones.
pub record Apart (a : ℕ) (xs : List ℕ) (b : ℕ) : Type 0 where
  pub ends : a ≢ b
  pub once : (x : ℕ) → occurs x xs ≤ 1
  pub from_a : (x : ℕ) → 0 < occurs x xs → t_listnode x ≢ a
  pub from_b : (x : ℕ) → 0 < occurs x xs → t_listnode x ≢ b

occurs-not_again : (x y : ℕ) (xs : List ℕ) → y ≡ x → occurs x (x ∷ xs) ≤ 1 → 0 < occurs y xs → ⊥
occurs-not_again x y xs e once h =
    let h' : 0 < occurs x xs = subst (λ z. 0 < occurs z xs) e h in ground (arith, once, h')

pub Apart-tail :
    {a : ℕ} {x : ℕ} {xs : List ℕ} {b : ℕ} → Apart a (x ∷ xs) b → Apart (t_listnode x) xs b
Apart-tail {a} {x} {xs} {b} p = record {
  ends = p.from_b x (ground arith);
  once = λ y. omega (arith, p.once y);
  from_a = λ y h e. occurs-not_again x y xs (omega (arith, e)) (p.once x) h;
  from_b = λ y h. p.from_b y (omega (arith, h));
}

-- The address of no node before the gap is that of the node behind it, and the other way round.
pub Apart-last :
    {a : ℕ} {x : ℕ} (xs ys : List ℕ) {b : ℕ} → Apart a (x ∷ xs ++ ys) b → a ≢ last (t_listnode x) xs
Apart-last {a} {x} xs ys p e = elim (last-cases (t_listnode x) xs) [
  | inl e' ↦ p.from_a x (ground arith) (omega (arith, e, e'))
  | inr (y, e', h) ↦ p.from_a y (omega (arith, h, occurs-append y xs ys)) (omega (arith, e, e'))
]

pub Apart-first :
    {a : ℕ} {x : ℕ} (xs ys : List ℕ) {b : ℕ} → Apart a (x ∷ xs ++ ys) b → t_listnode x ≢ first ys b
Apart-first {a} {x} xs ys {b} p e = elim (first-cases ys b) [
  | inl e' ↦ p.from_b x (ground arith) (e ∙ e')
  | inr (y, e', h) ↦
      occurs-not_again x y (xs ++ ys) (omega (arith, e, e')) (p.once x)
        (omega (arith, h, occurs-append y xs ys))
]
