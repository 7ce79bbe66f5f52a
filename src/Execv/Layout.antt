-- ===== src/Execv/Layout.antt =====
-- The arguments of a new process can be read back from its stack.
use mathlib.Core.List.{append_assoc}
use ms_projects.Common.{
  ℕ, zero, suc, ◌+◌, ◌-◌, ◌*◌, ◌%◌, ◌^◌, ◌≤◌, ◌<◌, ◌≡◌, refl, sym, ap, subst, inr, Bool, true, List,
  [], ◌∷◌, ◌++◌, length, take, length-append, arith,
}
use ms_projects.Common.Bytes.{
  Memory, write_bytes, write_bytes-outside, Holds, Holds-frame, write_bytes-Holds, Holds-take,
  word_bytes, load_word, Holds-load_word, words_bytes, length-words_bytes,
}
use ms_projects.AddrSpace.{stack_base, userstack}
use ms_projects.Execv.{Arg, buffer, padded, copyout, place_args, build_stack}

padded_lem :
    (a : Arg) → (length a.text + 1 ≤ padded a) × (padded a % 4 ≡ 0) × (padded a ≤ length a.text + 4)
unfolding padded
padded_lem a = ground arith

-- The bytes that the arguments take.
unfoldable pub size : List Arg → ℕ
unfolding padded
size [] = 0
size (a ∷ args) = padded a + size args

-- Between `lo` and `hi` the strings of `args` stand at the addresses `ptrs`.
abbrev Strings : Memory → ℕ → ℕ → List ℕ → List Arg → Type 0
Strings m lo hi [] [] = Unit
Strings m lo hi (p ∷ ptrs) (a ∷ args) =
    (lo ≤ p)
    × (p + length a.text + 1 ≤ hi)
    × Holds m p (a.text ++ (0 ∷ []))
    × Strings m lo hi ptrs args
Strings m lo hi _ _ = ⊥

Strings-frame :
    (m m' : Memory) (lo lo' hi : ℕ) (ptrs : List ℕ) (args : List Arg)
    → lo' ≤ lo
    → ((x : ℕ) → lo ≤ x → m' x ≡ m x)
    → Strings m lo hi ptrs args
    → Strings m' lo' hi ptrs args
Strings-frame m m' lo lo' hi [] [] le same h = tt
Strings-frame m m' lo lo' hi (p ∷ ptrs) (a ∷ args) le same (low, high, holds, rest) = (
  omega arith,
  high,
  Holds-frame m m' p (a.text ++ (0 ∷ [])) (λ x l r. same x (omega arith)) holds,
  Strings-frame m m' lo lo' hi ptrs args le same rest,
)
Strings-frame m m' lo lo' hi [] (a ∷ args) le same h = absurd h
Strings-frame m m' lo lo' hi (p ∷ ptrs) [] le same h = absurd h

length-take_le {ℓ} : {A : Type ℓ} (n : ℕ) (xs : List A) → length (take n xs) ≤ n
length-take_le zero xs = omega arith
length-take_le (suc n) [] = omega arith
length-take_le (suc n) (x ∷ xs) = omega (arith, length-take_le n xs)

-- A copied block holds its string.
buffer-Holds :
    (a : Arg) (sp : ℕ) (m : Memory)
    → Holds (write_bytes sp (take (padded a) (buffer a)) m) sp (a.text ++ (0 ∷ []))
buffer-Holds a sp m =
    Holds-take (write_bytes sp (take (padded a) (buffer a)) m) sp (padded a) (a.text ++ (0 ∷ []))
      a.behind (omega (arith, length-append {0} a.text (0 ∷ []), padded_lem a))
      (subst (λ l. Holds (write_bytes sp (take (padded a) (buffer a)) m) sp (take (padded a) l))
        (sym (append_assoc a.text (0 ∷ []) a.behind))
        (write_bytes-Holds sp (take (padded a) (buffer a)) m))

-- `copyout` where all addresses are writable.
copyout-write_bytes :
    (writable : ℕ → Bool) (a : ℕ) (bs : List ℕ) (m : Memory)
    → ((x : ℕ) → a ≤ x → x < a + length bs → writable x ≡ true)
    → copyout writable a bs m ≡ write_bytes a bs m
unfolding copyout write_bytes
copyout-write_bytes writable a [] m ok = refl
copyout-write_bytes writable a (b ∷ bs) m ok =
    rw (ok a (omega arith) (omega arith))
      (copyout-write_bytes writable (a + 1) bs _ (λ x lo hi. ok x (omega arith) (omega arith)))

-- The loop over the arguments with all addresses writable.
unfoldable placed : List Arg → ℕ → Memory → List ℕ × ℕ × Memory
unfolding padded
placed [] stackptr m = ([], stackptr, m)
placed (a ∷ args) stackptr m =
    let (ptrs, sp, m') = placed args stackptr m in
    (
      (sp - padded a) ∷ ptrs,
      sp - padded a,
      write_bytes (sp - padded a) (take (padded a) (buffer a)) m',
    )

placed-bottom :
    (args : List Arg) (sp : ℕ) (m : Memory) → size args ≤ sp → (placed args sp m).1 + size args ≡ sp
unfolding placed size
placed-bottom [] sp m le = omega arith
placed-bottom (a ∷ args) sp m le = omega (arith, placed-bottom args sp m (omega arith))

place_args-placed :
    (writable : ℕ → Bool) (args : List Arg) (sp : ℕ) (m : Memory)
    → size args ≤ sp
    → ((x : ℕ) → sp ≤ x + size args → x < sp → writable x ≡ true)
    → place_args writable args sp m ≡ placed args sp m
unfolding place_args placed size
place_args-placed writable [] sp m le ok = refl
place_args-placed writable (a ∷ args) sp m le ok =
    rw (place_args-placed writable args sp m (omega arith) (λ x lo hi. ok x (omega arith) hi)) (
      ap
        (λ mem. (
          ((placed args sp m).1 - padded a) ∷ (placed args sp m).0,
          (placed args sp m).1 - padded a,
          mem,
        ))
        (copyout-write_bytes writable ((placed args sp m).1 - padded a) (take (padded a) (buffer a))
          (placed args sp m).2
          (λ x lo hi. ok x (omega (arith, placed-bottom args sp m (omega arith))) (
            omega (
              arith,
              placed-bottom args sp m (omega arith),
              length-take_le (padded a) (buffer a),
            )))))

-- What the loop over the arguments leaves.
record Placed (args : List Arg) (sp : ℕ) (r : List ℕ × ℕ × Memory) : Type 0 where
  strings : Strings r.2 r.1 sp r.0 args
  bottom : r.1 + size args ≡ sp
  aligned : r.1 % 4 ≡ 0
  count : length r.0 ≡ length args

placed-Placed :
    (args : List Arg) (sp : ℕ) (m : Memory)
    → size args ≤ sp
    → sp % 4 ≡ 0
    → Placed args sp (placed args sp m)
unfolding placed size
placed-Placed [] sp m le al = record {
  strings = tt;
  bottom = omega arith;
  aligned = al;
  count = refl;
}
placed-Placed (a ∷ args) sp m le al =
    let r = placed-Placed args sp m (omega arith) al in
    let four = padded_lem a in
    record {
      strings = (
        omega arith,
        omega (arith, r.bottom),
        buffer-Holds a ((placed args sp m).1 - padded a) (placed args sp m).2,
        Strings-frame _ _ _ _ sp _ args (omega arith)
            (λ x l.
              write_bytes-outside _ (take (padded a) (buffer a)) _ x
                (inr (omega (arith, length-take_le (padded a) (buffer a), r.bottom))))
            r.strings,
      );
      bottom = omega (arith, r.bottom);
      aligned = omega (arith, r.aligned, r.bottom);
      count = ap suc r.count;
    }

-- A `NULL`-terminated array of pointers to strings at `sp`, which are those of `args`.
abbrev pub ArgvAt : Memory → ℕ → List Arg → Type 0
ArgvAt m sp [] = load_word m sp ≡ 0
ArgvAt m sp (a ∷ args) = Holds m (load_word m sp) (a.text ++ (0 ∷ [])) × ArgvAt m (sp + 4) args

Holds-append :
    (m : Memory) (a : ℕ) (bs cs : List ℕ)
    → Holds m a (bs ++ cs)
    → Holds m a bs × Holds m (a + length bs) cs
Holds-append m a [] cs h = (tt, subst (λ x. Holds m x cs) (omega arith) h)
Holds-append m a (b ∷ bs) cs (e, h) =
    let (front, back) = Holds-append m (a + 1) bs cs h in
    ((e, front), subst (λ x. Holds m x cs) (omega arith) back)

-- The pointers at `sp`, of strings that stand below `hi`.
argv_at :
    (m : Memory) (lo hi sp : ℕ) (ptrs : List ℕ) (args : List Arg)
    → hi < 2 ^ 32
    → Strings m lo hi ptrs args
    → Holds m sp (words_bytes (ptrs ++ (0 ∷ [])))
    → ArgvAt m sp args
argv_at m lo hi sp [] [] lt s h = Holds-load_word m sp 0 (omega arith) h
argv_at m lo hi sp (p ∷ ptrs) (a ∷ args) lt (low, high, holds, rest) h =
    let (word, words) = Holds-append m sp (word_bytes p) (words_bytes (ptrs ++ (0 ∷ []))) h in
    (
      subst (λ x. Holds m x (a.text ++ (0 ∷ []))) (sym (Holds-load_word m sp p (omega arith) word))
          holds,
      argv_at m lo hi (sp + 4) ptrs args lt rest words,
    )
argv_at m lo hi sp [] (a ∷ args) lt s h = absurd s
argv_at m lo hi sp (p ∷ ptrs) [] lt s h = absurd s

-- For one argument or more that fit, with their pointers, in the megabyte of the stack, all of which can
-- be written: the stack pointer of the new process is a multiple of 4 below the top of the stack, and at
-- it stands a NULL-terminated array of pointers to the argument strings, in their order.
pub build_stack-ArgvAt :
    (writable : ℕ → Bool) (a : Arg) (args : List Arg) (m : Memory)
    → stack_base + size (a ∷ args) + 16 * length (a ∷ args) ≤ userstack
    → ((x : ℕ) → stack_base ≤ x → x < userstack → writable x ≡ true)
    → let (sp, m') = build_stack writable (a ∷ args) m in
      ArgvAt m' sp (a ∷ args) × (sp % 4 ≡ 0) × (sp < userstack)
unfolding build_stack
build_stack-ArgvAt writable a args m le ok =
    subst
      (λ (r : List ℕ × ℕ × Memory).
        let sp = r.1 - 4 * n * 4 in
        ArgvAt (stored sp r.0 r.2) sp (a ∷ args) × (sp % 4 ≡ 0) × (sp < userstack))
      (sym (
        place_args-placed writable (a ∷ args) userstack m (omega arith)
          (λ x lo hi. ok x (omega arith) hi)))
      (laid (placed (a ∷ args) userstack m)
        (placed-Placed (a ∷ args) userstack m (omega arith) refl))
  where
    n : ℕ
    n = length (a ∷ args)

    stored : ℕ → List ℕ → Memory → Memory
    stored sp ptrs m' = copyout writable sp (words_bytes (ptrs ++ (0 ∷ []))) m'

    laid :
        (r : List ℕ × ℕ × Memory)
        → Placed (a ∷ args) userstack r
        → let sp = r.1 - 4 * n * 4 in
          ArgvAt (stored sp r.0 r.2) sp (a ∷ args) × (sp % 4 ≡ 0) × (sp < userstack)
    laid (ptrs, top, m') p = (
      subst (λ mem. ArgvAt mem (top - 4 * n * 4) (a ∷ args))
          (sym (
            copyout-write_bytes writable (top - 4 * n * 4) (words_bytes (ptrs ++ (0 ∷ []))) m'
              (λ x lo hi. ok x (omega (arith, p.bottom)) (
                omega (
                  arith,
                  p.bottom,
                  length-words_bytes (ptrs ++ (0 ∷ [])),
                  length-append {0} ptrs (0 ∷ []),
                  p.count,
                )))))
          (argv_at _ top userstack (top - 4 * n * 4) ptrs (a ∷ args) (omega arith)
            (Strings-frame m' _ top top userstack ptrs (a ∷ args) (omega arith)
              (λ x l. write_bytes-outside _ (words_bytes (ptrs ++ (0 ∷ []))) m' x (
                inr (
                  omega (
                    arith,
                    length-words_bytes (ptrs ++ (0 ∷ [])),
                    length-append {0} ptrs (0 ∷ []),
                    p.count,
                    p.bottom,
                  ))))
              p.strings)
            (write_bytes-Holds (top - 4 * n * 4) (words_bytes (ptrs ++ (0 ∷ []))) m')),
      omega (arith, p.aligned, p.bottom),
      omega (arith, p.bottom),
    )
