-- ===== src/Barrier/Examples.antt =====
-- Tests and concrete instances for the barrier.
use hyperplane_rs.Prelude.{ℕ, ◌≡◌, refl, true, not, ◌&&◌, some, none, List, [], ◌∷◌, arith}
use hyperplane_rs.Prelude.IdSet.{mem, remove}
use hyperplane_rs.Barrier.{
  Event, mark, expired, run, look, ok, err, timed_out_error, Waited, enlisted, answered, Turn, call,
  step, run_turns,
}
use hyperplane_rs.Barrier.History.{marked, run-deps}
use hyperplane_rs.Barrier.Wakeup.{calls, unraced, await_not_early, await_not_stuck}

abbrev two_deps : List ℕ
two_deps = 4 ∷ 7 ∷ []

-- The latest event first.
abbrev reports : List Event
reports = mark 30 7 ∷ mark 20 9 ∷ mark 10 4 ∷ []

program : Unit {0}
unfolding run run_turns look mem remove
program = tt

one_missing : look (run two_deps (mark 10 4 ∷ [])) ≡ none
unfolding program
one_missing = refl

-- A wait that timed out is sticky for reports.
late_reports :
    look (run two_deps (mark 30 7 ∷ expired ∷ mark 10 4 ∷ [])) ≡ some (err timed_out_error)
unfolding program
late_reports = refl

-- The waiter looks, is enlisted, is woken by each report and looks again after each. The latest turn first.
abbrev turns : List Turn
turns =
    step
    ∷ call (mark 30 7)
    ∷ step
    ∷ step
    ∷ call (mark 20 9)
    ∷ step
    ∷ step
    ∷ call (mark 10 4)
    ∷ step
    ∷ step
    ∷ []

both_reported : (run_turns two_deps turns).waiter ≡ answered ok
unfolding program
both_reported = refl

-- The barrier is satisfied between the waiter's look and its `notified`: it is not woken.
lost_wakeup :
    run_turns two_deps (step ∷ step ∷ call (mark 20 7) ∷ call (mark 10 4) ∷ step ∷ [])
    ≡ record { inner = run two_deps (mark 20 7 ∷ mark 10 4 ∷ []); waiter = enlisted }
unfolding program
lost_wakeup = refl

run-deps_example :
    (mem 4 (run two_deps reports).pending_deps ≡ (mem 4 two_deps && not (marked 4 reports)))
    × (mem 4 (run two_deps reports).satisfied_deps ≡ (mem 4 two_deps && marked 4 reports))
run-deps_example = run-deps two_deps reports 4

four_is_dep : mem 4 two_deps ≡ true
unfolding mem
four_is_dep = refl

await_not_early_example : marked 4 (calls turns) ≡ true
await_not_early_example = await_not_early two_deps turns refl both_reported 4 four_is_dep

-- The turns up to the last report.
abbrev all_called : List Turn
all_called = call (mark 30 7) ∷ step ∷ step ∷ call (mark 10 4) ∷ step ∷ step ∷ []

turns_complete : (s : ℕ) → mem s two_deps ≡ true → marked s (calls all_called) ≡ true
unfolding mem
turns_complete s m = ground arith

called_unraced : unraced two_deps all_called ≡ true
unfolding program
called_unraced = refl

await_not_stuck_example :
    (a : Waited) × ((run_turns two_deps (step ∷ all_called)).waiter ≡ answered a)
await_not_stuck_example = await_not_stuck two_deps all_called called_unraced turns_complete
