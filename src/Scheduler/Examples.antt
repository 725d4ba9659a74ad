-- ===== src/Scheduler/Examples.antt =====
-- The theorems at a plan of four steps.
use hyperplane_rs.Prelude.{
  ℕ, ◌≤◌, ◌<◌, ◌≡◌, refl, true, false, ◌||◌, Option, none, some, List, [], ◌∷◌, map, all, length,
  ◌==◌, if◌then◌else◌, arith,
}
use hyperplane_rs.Prelude.IdSet.{mem}
use hyperplane_rs.Plan.Graph.{ids}
use hyperplane_rs.Plan.Graph.Examples.{diamond_valid}
use hyperplane_rs.Plan.Samples
use hyperplane_rs.Scheduler.State.{whole_floats, InnerState, fifo, fair}
use hyperplane_rs.Scheduler.Operations.{initialise, next_steps, mark_failed, is_complete}
use hyperplane_rs.Scheduler.Invariant.{Inv, is_settled, is_open, deps_of}
use hyperplane_rs.Scheduler.Start.{step_ids, plan_deps, HasDistinctIds, initialise-Inv}
use hyperplane_rs.Scheduler.Dispatch.{next_steps-picked}
use hyperplane_rs.Scheduler.Budget.{memory_asked, storage_asked, next_steps-le_budget}
use hyperplane_rs.Scheduler.Cascade.{mark_failed-reports}
use hyperplane_rs.Scheduler.Termination.{mark_failed_total}
use hyperplane_rs.Scheduler.Progress.{Call, run, run_no_deadlock, run_open_sound}
use hyperplane_rs.Scheduler.Rotation.{asks_number, run_total}
use hyperplane_rs.Scheduler.Policy.{is_nan}
use hyperplane_rs.Scheduler.Validated.{plan_step, validated_no_deadlock}
use hyperplane_rs.Scheduler.Samples.{program, step, diamond, free}

abbrev start : InnerState ℕ
start = initialise diamond

diamond_distinct : HasDistinctIds diamond
unfolding mem
diamond_distinct = (refl, (refl, (refl, (refl, tt))))

diamond_known :
    (s d : ℕ) → mem d (plan_deps diamond s) ≡ true → (mem d (step_ids diamond) ≡ true) × (d < s)
unfolding mem
diamond_known s d m = ground arith

-- The result of a call, `start` where there is none.
abbrev state_of : Option (InnerState ℕ × List ℕ) → InnerState ℕ
state_of none = start
state_of (some (st, _)) = st

abbrev picked : InnerState ℕ
picked = state_of (next_steps whole_floats fair 2 free start)

abbrev broken : InnerState ℕ
broken = state_of (mark_failed 1 start)

initialise-Inv_example : Inv (step_ids diamond) (plan_deps diamond) [] [] (initialise diamond)
initialise-Inv_example = initialise-Inv diamond diamond_distinct

next_steps-picked_example :
    Inv (step_ids diamond) (plan_deps diamond) [] [] picked
    × (length {A = ℕ} (1 ∷ 2 ∷ []) ≤ 2)
    × ((j : ℕ)
        → mem j (1 ∷ 2 ∷ []) ≡ true
        → (mem j start.ready ≡ true)
          × (all (is_settled start) (deps_of start j) ≡ true)
          × (mem j picked.running ≡ true)
          × (is_open picked j ≡ false))
unfolding program
next_steps-picked_example =
    next_steps-picked whole_floats (step_ids diamond) (plan_deps diamond) fair 2 free start picked
      (1 ∷ 2 ∷ []) initialise-Inv_example refl

next_steps-le_budget_example :
    (memory_asked whole_floats start.requirements (1 ∷ 2 ∷ []) ≤ 100)
    × (storage_asked whole_floats start.requirements (1 ∷ 2 ∷ []) ≤ 0)
unfolding program
next_steps-le_budget_example =
    next_steps-le_budget whole_floats fair 2 free start picked (1 ∷ 2 ∷ []) refl

mark_failed-reports_example :
    ((j : ℕ) → mem j (3 ∷ 4 ∷ []) ≡ true → (is_open start j ≡ true) × ((j == 1) ≡ false))
    × ((j : ℕ) → mem j broken.skipped ≡ (mem j start.skipped || mem j (3 ∷ 4 ∷ [])))
    × ((j : ℕ) → mem j broken.failed ≡ (if j == 1 then true else mem j start.failed))
    × ((j : ℕ) → is_open broken j ≡ true → is_open start j ≡ true)
unfolding program
mark_failed-reports_example = mark_failed-reports 1 start broken (3 ∷ 4 ∷ []) refl

mark_failed_total_example : (r : InnerState ℕ × List ℕ) × (mark_failed 1 start ≡ some r)
mark_failed_total_example = mark_failed_total 1 start

-- Both roots are dispatched, 2 completes and 1 fails.
abbrev calls : List (Call ℕ)
calls = Call.next fifo 2 free ∷ Call.completed 2 ∷ Call.failed 1 ∷ []

abbrev final : InnerState ℕ
final = elim (run whole_floats calls start) [ none ↦ start | some st ↦ st ]

run_no_deadlock_example :
    (is_complete final ≡ true)
    × ((s : ℕ)
        → mem s (step_ids diamond) ≡ true
        → (mem s final.completed || mem s final.skipped || mem s final.failed) ≡ true)
unfolding program run
run_no_deadlock_example =
    run_no_deadlock whole_floats diamond (λ s. s) calls final diamond_distinct diamond_known refl
      refl refl

run_open_sound_example :
    ((s d : ℕ)
      → is_open final s ≡ true
      → mem d (plan_deps diamond s) ≡ true
      → mem d final.failed ≡ false)
    × ((s d : ℕ)
        → mem s final.ready ≡ true
        → mem d (plan_deps diamond s) ≡ true
        → (mem d final.completed || mem d final.skipped) ≡ true)
unfolding program run
run_open_sound_example = run_open_sound whole_floats diamond calls final diamond_distinct refl

zero_number : is_nan whole_floats 0 ≡ false
unfolding is_nan
zero_number = refl

asks_numbers : all (asks_number whole_floats) (step 1 [] 60 ∷ step 2 [] 30 ∷ []) ≡ true
unfolding is_nan
asks_numbers = refl

run_total_example :
    (after : InnerState ℕ) × (run whole_floats calls (initialise (step 1 [] 60 ∷ step 2 [] 30 ∷ []))
      ≡ some after)
run_total_example =
    run_total whole_floats (step 1 [] 60) (step 2 [] 30 ∷ []) calls zero_number asks_numbers refl

-- The scheduler on a graph that `validate` accepts: 1 completes, then 3 fails.
abbrev graph_calls : List (Call ℕ)
graph_calls =
    Call.next fifo 2 free
    ∷ Call.completed 1
    ∷ Call.next fifo 2 free
    ∷ Call.failed 3
    ∷ Call.completed 2
    ∷ []

abbrev graph_final : InnerState ℕ
graph_final = elim (run whole_floats graph_calls (initialise (map plan_step Samples.diamond))) [
  | none ↦ start
  | some st ↦ st
]

validated_no_deadlock_example :
    (is_complete graph_final ≡ true)
    × ((s : ℕ)
        → mem s (ids Samples.diamond) ≡ true
        → (mem s graph_final.completed || mem s graph_final.skipped || mem s graph_final.failed)
          ≡ true)
unfolding program Samples.program plan_step run
validated_no_deadlock_example =
    validated_no_deadlock whole_floats Samples.diamond graph_calls graph_final diamond_valid refl
      refl refl
