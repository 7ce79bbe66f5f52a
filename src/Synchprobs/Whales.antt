-- ===== src/Synchprobs/Whales.antt =====
-- Whale mating: `male`, `female` and `matchmaker` of kern/synchprobs/problems.c. All that a thread does
-- while it holds the lock `lk` is one step. `cv_wait` gives up the lock before it locks the wait channel
-- to sleep there, as in kern/thread/synch.c: falling asleep is a step of its own, and a signal that
-- comes before it is lost.
use ms_projects.Common.{
  ℕ, zero, suc, ◌+◌, ◌-◌, ◌<◌, ◌≡◌, refl, subst, ap, ◌∙◌, ◌⊎◌, ◌&&◌, not, ◌==◌, if◌then◌else◌,
  arith,
}

-- The whales of one kind: `noOfMales` (or the like), those in `cv_wait` that have given up the lock and
-- do not yet sleep, those asleep on the condition variable, those that have been woken and wait for the
-- lock, and those that have called `male_end`.
pub record Kind : Type 0 where
  pub number : ℕ
  pub entering : ℕ
  pub asleep : ℕ
  pub woken : ℕ
  pub ended : ℕ

pub record Sea : Type 0 where
  pub males : Kind
  pub females : Kind
  pub matchmakers : Kind

-- `cv_signal`
unfoldable pub signal : Kind → Kind
signal k = if k.asleep == 0 then k else record k { asleep = k.asleep - 1; woken = k.woken + 1 }

-- The last lines: `male_end`, and the number goes down.
unfoldable pub ends : Kind → Kind
ends k = record k { number = k.number - 1; ended = k.ended + 1 }

-- The body of `male` behind `lock_acquire`: its own kind, and the two that it needs.
unfoldable pub arrives : Kind → Kind → Kind → Kind × Kind × Kind
unfolding signal ends
arrives self a b =
    let counted : Kind = record self { number = self.number + 1 } in
    if not (a.number == 0) && not (b.number == 0)
    then (ends counted, signal a, signal b)
    else (record counted { entering = counted.entering + 1 }, a, b)

-- `wchan_sleep` in its `cv_wait`.
unfoldable pub falls_asleep : Kind → Kind
falls_asleep k = record k { entering = k.entering - 1; asleep = k.asleep + 1 }

-- Behind its `cv_wait`.
unfoldable pub resumes : Kind → Kind
unfolding ends
resumes k = ends (record k { woken = k.woken - 1 })

unfoldable pub male : Sea → Sea
unfolding arrives
male s =
    let (self, a, b) = arrives s.males s.females s.matchmakers in
    record { males = self; females = a; matchmakers = b }

unfoldable pub female : Sea → Sea
unfolding arrives
female s =
    let (self, a, b) = arrives s.females s.males s.matchmakers in
    record { males = a; females = self; matchmakers = b }

unfoldable pub matchmaker : Sea → Sea
unfolding arrives
matchmaker s =
    let (self, a, b) = arrives s.matchmakers s.females s.males in
    record { males = b; females = a; matchmakers = self }

pub data Step (s : Sea) : Sea → Type 0 where
  male_arrives : Step s (male s)
  female_arrives : Step s (female s)
  matchmaker_arrives : Step s (matchmaker s)
  male_sleeps : 0 < s.males.entering → Step s (record s { males = falls_asleep s.males })
  female_sleeps : 0 < s.females.entering → Step s (record s { females = falls_asleep s.females })
  matchmaker_sleeps :
      0 < s.matchmakers.entering → Step s (record s { matchmakers = falls_asleep s.matchmakers })
  male_resumes : 0 < s.males.woken → Step s (record s { males = resumes s.males })
  female_resumes : 0 < s.females.woken → Step s (record s { females = resumes s.females })
  matchmaker_resumes :
      0 < s.matchmakers.woken → Step s (record s { matchmakers = resumes s.matchmakers })

abbrev pub nobody : Kind
nobody = record { number = 0; entering = 0; asleep = 0; woken = 0; ended = 0 }

-- `whalemating_init`
abbrev pub whalemating_init : Sea
whalemating_init = record { males = nobody; females = nobody; matchmakers = nobody }

pub data Reach : Sea → Type 0 where
  start : Reach whalemating_init
  later : {s t : Sea} → Reach s → Step s t → Reach t

-- The whales of a kind that wait for others: asleep, or about to sleep.
abbrev pub waiting : Kind → ℕ
waiting k = k.entering + k.asleep

-- The whales of a kind that are there are those waiting and those woken; and of one kind none waits.
pub record Inv (s : Sea) : Type 0 where
  pub males : s.males.number ≡ waiting s.males + s.males.woken
  pub females : s.females.number ≡ waiting s.females + s.females.woken
  pub matchmakers : s.matchmakers.number ≡ waiting s.matchmakers + s.matchmakers.woken
  pub awake : (waiting s.males ≡ 0) ⊎ ((waiting s.females ≡ 0) ⊎ (waiting s.matchmakers ≡ 0))

Step-Inv : {s t : Sea} → Step s t → Inv s → Inv t
unfolding male female matchmaker resumes falls_asleep
Step-Inv male_arrives v = ground arith
Step-Inv female_arrives v = ground arith
Step-Inv matchmaker_arrives v = ground arith
Step-Inv (male_sleeps h) v = ground arith
Step-Inv (female_sleeps h) v = ground arith
Step-Inv (matchmaker_sleeps h) v = ground arith
Step-Inv (male_resumes h) v = ground arith
Step-Inv (female_resumes h) v = ground arith
Step-Inv (matchmaker_resumes h) v = ground arith

Reach-Inv : {s : Sea} → Reach s → Inv s
Reach-Inv start = ground arith
Reach-Inv (later r st) = Step-Inv st (Reach-Inv r)

-- However the whales come and are scheduled, also where signals are lost, there are never whales of all
-- three kinds in `cv_wait` at once that are asleep or about to sleep: no three that could mate are kept
-- waiting.
pub whales_never_all_asleep :
    {s : Sea}
    → Reach s
    → (waiting s.males ≡ 0) ⊎ ((waiting s.females ≡ 0) ⊎ (waiting s.matchmakers ≡ 0))
whales_never_all_asleep r = (Reach-Inv r).awake

-- A female and a matchmaker that have been woken and still count.
abbrev pub one_pair : ℕ → Sea
one_pair k = record {
  males = record { number = 0; entering = 0; asleep = 0; woken = 0; ended = k };
  females = record { number = 1; entering = 0; asleep = 0; woken = 1; ended = 0 };
  matchmakers = record { number = 1; entering = 0; asleep = 0; woken = 1; ended = 0 };
}

-- The female and the matchmaker have come.
abbrev pair_comes : Sea
pair_comes = matchmaker (female whalemating_init)

-- Both sleep.
abbrev pair_sleeps : Sea
pair_sleeps = record pair_comes {
  females = falls_asleep pair_comes.females;
  matchmakers = falls_asleep pair_comes.matchmakers;
}

pair_sleeps-Reach : Reach pair_sleeps
unfolding female matchmaker falls_asleep
pair_sleeps-Reach =
    later
      (later (later (later start female_arrives) matchmaker_arrives) (female_sleeps (omega arith)))
      (matchmaker_sleeps (omega arith))

first_male : male pair_sleeps ≡ one_pair 1
unfolding male female matchmaker falls_asleep
first_male = refl

next_male : (k : ℕ) → male (one_pair k) ≡ one_pair (k + 1)
unfolding male
next_male k = refl

-- For every number there is a run in which so many males, one or more, end their mating with a single
-- female and a single matchmaker there, neither of which has ended.
pub whales_mate_unmatched : (k : ℕ) → Reach (one_pair (k + 1))
whales_mate_unmatched zero = subst Reach first_male (later pair_sleeps-Reach male_arrives)
whales_mate_unmatched (suc k) =
    subst Reach (next_male (k + 1) ∙ ap one_pair (omega arith))
      (later (whales_mate_unmatched k) male_arrives)
