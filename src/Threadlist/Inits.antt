-- ===== src/Threadlist/Inits.antt =====
-- The initialisation of nodes and of lists: kern/thread/threadlist.c.
use ms_projects.Common.{
  ℕ, ◌+◌, ◌%◌, ◌^◌, ◌≤◌, ◌<◌, ◌≡◌, ◌≢◌, refl, none, some, [], length, arith, ℕ_discrete,
}
use ms_projects.Common.Sums.{assign}
use ms_projects.Threadlist.{
  Nodes, tl_head, tl_tail, t_listnode, threadlistnode_init, threadlist_init,
}
use ms_projects.Threadlist.Segments.{occurs, Seg, Seg-frame}
use ms_projects.Threadlist.Lists.{Lists, Off, Represents, assign-elim}
use ms_projects.Threadlist.Calls.{node_init, list_init, run, Gives}

module _ {s : Nodes} {a : Lists} (r : Represents s a) where
  node_init_self :
      (t : ℕ)
      → t < a.threads + 1
      → (threadlistnode_init a.threads s).tln_self (t_listnode t) ≡ some t
  unfolding threadlistnode_init
  node_init_self t lt = elim (ℕ_discrete t a.threads) [
    | yes e ↦ ground (arith, e)
    | no ne ↦ ground (arith, ne, r.self t (omega (arith, ne, lt)))
  ]

  node_init_links :
      (t : ℕ)
      → t < a.threads + 1
      → Off a t
      → ((threadlistnode_init a.threads s).tln_next (t_listnode t) ≡ 0)
        × ((threadlistnode_init a.threads s).tln_prev (t_listnode t) ≡ 0)
  unfolding threadlistnode_init
  node_init_links t lt o = elim (ℕ_discrete t a.threads) [
    | yes e ↦ (ground (arith, e), ground (arith, e))
    | no ne ↦
        let (n, p) = r.off t (omega (arith, ne, lt)) o in
        (ground (arith, ne, n), ground (arith, ne, p))
  ]

  pub node_init-Gives :
      Gives (run (node_init a.threads) s) none (record a { threads = a.threads + 1 })
  unfolding run threadlistnode_init
  node_init-Gives = (
    threadlistnode_init a.threads s,
    refl,
    record {
      chain = λ l lt.
          Seg-frame s (threadlistnode_init a.threads s) (tl_head l) (a.members l) (tl_tail l)
            (ground arith) (ground arith)
            (λ x h. let known = r.known l lt x h in (ground (arith, known), ground (arith, known)))
            (r.chain l lt);
      ends = λ l lt. let (p, n) = r.ends l lt in (ground (arith, p), ground (arith, n));
      count = r.count;
      self = node_init_self;
      off = node_init_links;
      known = λ l lt t h. omega (arith, r.known l lt t h);
      once = r.once;
      apart = r.apart;
    },
  )

  more : Lists
  more = record a { lists = a.lists + 1; members = assign a.members a.lists [] }

  list_init-chain :
      (j : ℕ)
      → j < a.lists + 1
      → Seg (threadlist_init a.lists s) (tl_head j) (more.members j) (tl_tail j)
  unfolding threadlist_init more
  list_init-chain =
      assign-elim
        (λ j zs. j < a.lists + 1 → Seg (threadlist_init a.lists s) (tl_head j) zs (tl_tail j))
        a.members a.lists [] (λ lt. (ground arith, ground arith))
        (λ j ne lt.
          Seg-frame s (threadlist_init a.lists s) (tl_head j) (a.members j) (tl_tail j)
            (ground (arith, ne)) (ground (arith, ne)) (λ x h. (ground arith, ground arith))
            (r.chain j (omega (arith, ne, lt))))

  list_init-ends :
      (j : ℕ)
      → j < a.lists + 1
      → ((threadlist_init a.lists s).tln_prev (tl_head j) ≡ 0)
        × ((threadlist_init a.lists s).tln_next (tl_tail j) ≡ 0)
  unfolding threadlist_init
  list_init-ends j lt = elim (ℕ_discrete j a.lists) [
    | yes e ↦ (ground (arith, e), ground (arith, e))
    | no ne ↦
        let (p, n) = r.ends j (omega (arith, ne, lt)) in
        (ground (arith, ne, p), ground (arith, ne, n))
  ]

  list_init-apart :
      (j k : ℕ)
      → j < a.lists + 1
      → k < a.lists + 1
      → j ≢ k
      → (x : ℕ) → occurs x (more.members j) + occurs x (more.members k) ≤ 1
  unfolding more
  list_init-apart j k lt lt' d x = elim (ℕ_discrete j a.lists) [
    | yes e ↦ ground (arith, e, d, lt', r.once k (omega (arith, e, d, lt')) x)
    | no ne ↦ elim (ℕ_discrete k a.lists) [
      | yes e ↦ ground (arith, e, ne, r.once j (omega (arith, ne, lt)) x)
      | no ne' ↦
          ground (arith, ne, ne', r.apart j k (omega (arith, ne, lt)) (omega (arith, ne', lt')) d x)
    ]
  ]

  pub list_init-Gives :
      Gives
        (run (list_init a.lists) s)
        none
        (record a { lists = a.lists + 1; members = assign a.members a.lists [] })
  unfolding run threadlist_init more
  list_init-Gives = (
    threadlist_init a.lists s,
    refl,
    record {
      chain = list_init-chain;
      ends = list_init-ends;
      count =
          assign-elim
            (λ j zs. j < a.lists + 1 → (threadlist_init a.lists s).tl_count j ≡ length zs % 2 ^ 32)
            a.members a.lists [] (λ lt. ground arith)
            (λ j ne lt. ground (arith, ne, r.count j (omega (arith, ne, lt))));
      self = λ t lt. ground (arith, r.self t lt);
      off = λ t lt o.
          let (n, p) = r.off t lt (λ j lt'. ground (arith, lt', o j (omega (arith, lt')))) in
          (ground (arith, n), ground (arith, p));
      known =
          assign-elim (λ j zs. j < a.lists + 1 → (x : ℕ) → 0 < occurs x zs → x < a.threads)
            a.members a.lists [] (λ lt x h. omega (arith, h))
            (λ j ne lt. r.known j (omega (arith, ne, lt)));
      once =
          assign-elim (λ j zs. j < a.lists + 1 → (x : ℕ) → occurs x zs ≤ 1) a.members a.lists []
            (λ lt x. omega arith) (λ j ne lt. r.once j (omega (arith, ne, lt)));
      apart = list_init-apart;
    },
  )
