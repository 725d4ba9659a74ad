-- ===== src/Scheduler/Validated.antt =====
-- The scheduler on a plan whose graph passed `validate`: the two components together.
use hyperplane_rs.Prelude.{ℕ, ◌≡◌, refl, ap₂, true, ◌||◌, some, List, [], ◌∷◌, map, arith}
use hyperplane_rs.Prelude.Results.{ok}
use hyperplane_rs.Prelude.IdSet.{mem}
use hyperplane_rs.Prelude.Distinct.{NoDup}
use hyperplane_rs.Plan.Step.{AtomicStep, header, id, depends_on, trial_id}
use hyperplane_rs.Plan.Graph.{ids, validate}
use hyperplane_rs.Plan.Graph.Relax.{deps_at}
use hyperplane_rs.Plan.Graph.Validate.{validate-IsDag}
use hyperplane_rs.Scheduler.State.{Floats, PlanStep, InnerState}
use hyperplane_rs.Scheduler.Operations.{initialise, is_complete}
use hyperplane_rs.Scheduler.Start.{step_ids, plan_deps, HasDistinctIds}
use hyperplane_rs.Scheduler.Progress.{Call, run, run_no_deadlock}

module _ {F : Type 0} where
  -- What `initialise` reads of a step.
  unfoldable pub plan_step : AtomicStep F → PlanStep F
  plan_step s = record {
    id = id s;
    depends_on = depends_on s;
    trial_id = trial_id s;
    resource_requirements = (header s).resource_requirements;
  }

  pub step_ids-map : (steps : List (AtomicStep F)) → step_ids (map plan_step steps) ≡ ids steps
  unfolding plan_step
  step_ids-map [] = refl
  step_ids-map (s ∷ steps) = ap₂ (◌∷◌) refl (step_ids-map steps)

  pub plan_deps-map :
      (steps : List (AtomicStep F)) (j : ℕ) → plan_deps (map plan_step steps) j ≡ deps_at steps j
  unfolding plan_step
  plan_deps-map [] j = refl
  plan_deps-map (s ∷ steps) j = ground (arith, plan_deps-map steps j)

  pub map-HasDistinctIds :
      (steps : List (AtomicStep F)) → NoDup (ids steps) → HasDistinctIds (map plan_step steps)
  unfolding plan_step
  map-HasDistinctIds [] n = tt
  map-HasDistinctIds (s ∷ steps) n = (rw (step_ids-map steps) n.0, map-HasDistinctIds steps n.1)

module _ (floats : Floats) where
  open floats use {F}

  -- A scheduler that is initialised with a graph that `validate` accepts never gets stuck: after any
  -- calls at all, where no step is ready and none is running it is complete, and every step of the
  -- graph is completed, skipped or failed.
  pub validated_no_deadlock :
      (steps : List (AtomicStep F)) (calls : List (Call F)) (st : InnerState F)
      → validate steps ≡ some (ok tt)
      → run floats calls (initialise (map plan_step steps)) ≡ some st
      → st.ready ≡ []
      → st.running ≡ []
      → (is_complete st ≡ true)
        × ((s : ℕ)
            → mem s (ids steps) ≡ true
            → (mem s st.completed || mem s st.skipped || mem s st.failed) ≡ true)
  validated_no_deadlock steps calls st valid e idle still =
      let dag = validate-IsDag steps valid in
      let (complete, terminal) =
        run_no_deadlock floats (map plan_step steps) dag.rank calls st
          (map-HasDistinctIds steps dag.distinct)
          (λ s d m.
            let m' : mem d (deps_at steps s) ≡ true = rw (plan_deps-map steps s) at m in
            (rw (step_ids-map steps) (dag.resolved s d m'), dag.falls s d m'))
          e idle still in
      (complete, λ s m. terminal s (rw (step_ids-map steps) m))
