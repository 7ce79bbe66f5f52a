-- ===== src/Threadlist/Tests.antt =====
-- A run of the calls, and the theorem at it.
use ms_projects.Common.{
  ℕ, ◌+◌, ◌^◌, ◌<◌, ◌≡◌, refl, Option, none, some, List, [], ◌∷◌, length, arith, ◌==◌,
}
use ms_projects.Threadlist.{Nodes, threadlist_isempty}
use ms_projects.Threadlist.Lists.{Lists, Represents}
use ms_projects.Threadlist.Calls.{
  Call, node_init, list_init, add_head, add_tail, rem_tail, inits_node, inits_list, adds_head,
  adds_tail, takes_tail,
}
use ms_projects.Threadlist.History.{History, here, call, run_all, nothing, threadlist_history}

-- Two threads come onto a list, the second one in front, and the last one is taken off.
abbrev calls : List Call
calls = node_init 0 ∷ node_init 1 ∷ list_init 0 ∷ add_tail 0 0 ∷ add_head 0 1 ∷ rem_tail 0 ∷ []

abbrev results : List (Option ℕ)
results = none ∷ none ∷ none ∷ none ∷ none ∷ some 0 ∷ []

abbrev garbage : Nodes
garbage = record {
  tln_prev = λ p. p + 5;
  tln_next = λ p. 7;
  tln_self = λ _. none;
  tl_count = λ _. 9;
}

history_run : (a : Lists) × History nothing calls results a × (a.members 0 ≡ 1 ∷ [])
history_run = (
  _,
  call inits_node (
      call inits_node (
        call inits_list (
          call (adds_tail 0 0 (omega arith) (omega arith) (λ l lt. ground arith)) (
            call (adds_head 0 1 (omega arith) (omega arith) (λ l lt. ground arith))
              (call (takes_tail 0 0 (1 ∷ []) (omega arith) refl) here))))),
  refl,
)

threadlist_history_example :
    (s : Nodes) × (run_all calls garbage ≡ some (results, s))
    × Represents s history_run.0
    × ((l : ℕ)
        → l < history_run.0.lists
        → length (history_run.0.members l) < 2 ^ 32
        → threadlist_isempty l s ≡ (length (history_run.0.members l) == 0))
threadlist_history_example = threadlist_history garbage history_run.1
