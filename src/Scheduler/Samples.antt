-- ===== src/Scheduler/Samples.antt =====
-- A small plan: 1 and 2 have no dependencies, 3 waits for both, 4 for 3.
use hyperplane_rs.Prelude.{ℕ, ◌%◌, ◌≡◌, refl, Option, none, some, List, [], ◌∷◌}
use hyperplane_rs.Prelude.IdSet.{mem, insert, remove, union, lookup, put}
use hyperplane_rs.Scheduler.Resources.{fits, deduct}
use hyperplane_rs.Scheduler.State.{
  whole_floats, ResourceRequirements, ResourceSnapshot, PlanStep, InnerState, fifo, priority, fair,
  resource_aware, critical,
}
use hyperplane_rs.Scheduler.Operations.{
  initialise, mark_completed, mark_failed, mark_skipped, next_steps, is_complete, set_priority,
}

abbrev pub ask : ℕ → ResourceRequirements ℕ
ask mb = record {
  peak_cpu_cores = 1;
  peak_memory_mb = mb;
  peak_storage_gb = 0;
  peak_network_gbps = 0;
  custom = [];
}

abbrev pub free : ResourceSnapshot ℕ
free = record {
  cpu_cores_free = 8;
  memory_mb_free = 100;
  storage_gb_free = 0;
  network_gbps_free = 0;
  custom_free = [];
}

abbrev pub step : ℕ → List ℕ → ℕ → PlanStep ℕ
step id deps mb = record {
  id = id;
  depends_on = deps;
  trial_id = some (id % 2);
  resource_requirements = ask mb;
}

abbrev pub diamond : List (PlanStep ℕ)
diamond = step 1 [] 60 ∷ step 2 [] 30 ∷ step 3 (1 ∷ 2 ∷ []) 10 ∷ step 4 (3 ∷ []) 10 ∷ []

abbrev pub start : InnerState ℕ
unfolding initialise
start = initialise diamond

unfoldable pub program : Unit {0}
unfolding initialise next_steps mark_completed mark_failed mark_skipped set_priority is_complete mem
    insert remove union lookup put fits deduct
program = tt

picks : Option (InnerState ℕ × List ℕ) → List ℕ
picks none = []
picks (some (_, l)) = l

fifo_picks : picks (next_steps whole_floats fifo 2 free start) ≡ 1 ∷ 2 ∷ []
unfolding program picks
fifo_picks = refl

fair_picks : picks (next_steps whole_floats fair 2 free start) ≡ 1 ∷ 2 ∷ []
unfolding program picks
fair_picks = refl

priority_picks :
    picks (next_steps whole_floats priority 1 free (set_priority 2 critical start)) ≡ 2 ∷ []
unfolding program picks
priority_picks = refl

ask_picks : picks (next_steps whole_floats resource_aware 1 free start) ≡ 1 ∷ []
unfolding program picks
ask_picks = refl

-- The vector of the picked ids would be too long.
huge_count : next_steps whole_floats fifo 400000000000000000 free start ≡ none
unfolding program
huge_count = refl

-- A failure skips all that waits for it.
failed_skips : picks (mark_failed 1 start) ≡ 3 ∷ 4 ∷ []
unfolding program picks
failed_skips = refl
