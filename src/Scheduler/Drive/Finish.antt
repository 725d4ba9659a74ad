-- ===== src/Scheduler/Drive/Finish.antt =====
-- The caller's rounds from `initialise` on.
use hyperplane_rs.Prelude.{
  ℕ, ◌≤◌, ◌<◌, ◌==◌, ◌≡◌, refl, inl, inr, Bool, true, false, ◌||◌, some, List, [], ◌∷◌, all, ltb,
  length, map, Bool-cases, if◌then◌else◌, arith,
}
use hyperplane_rs.Prelude.IdSet.{mem, put, lookup-put}
use hyperplane_rs.Plan.Step.{AtomicStep}
use hyperplane_rs.Plan.Graph.{ids}
use hyperplane_rs.Plan.Graph.Relax.{deps_at}
use hyperplane_rs.Plan.Graph.Dag.{IsDag}
use hyperplane_rs.Scheduler.Progress.{idle_complete}
use hyperplane_rs.Scheduler.Validated.{plan_step, map-HasDistinctIds, plan_deps-map, step_ids-map}
use hyperplane_rs.Scheduler.State.{
  Floats, ResourceRequirements, ResourceSnapshot, PlanStep, InnerState, default,
}
use hyperplane_rs.Scheduler.Resources.{fits}
use hyperplane_rs.Scheduler.Policy.{requirements_of}
use hyperplane_rs.Scheduler.Operations.{
  max_capacity, register, register_all, initialise, is_complete,
}
use hyperplane_rs.Scheduler.Start.{
  step_ids, plan_deps, HasDistinctIds, initialise-Inv, registered_rest, registered_pending,
  mem-roots, nil_of_is_nil,
}
use hyperplane_rs.Scheduler.Drive.{drive}
use hyperplane_rs.Scheduler.Drive.Progressing.{left, Active}
use hyperplane_rs.Scheduler.Drive.Round.{Drivable, drive_completes}

module _ (floats : Floats) (free : ResourceSnapshot (floats.F)) where
  open floats use {F}

  -- The step fits the resources that are free when nothing else takes any.
  abbrev pub step_fits : PlanStep F → Bool
  step_fits step = fits floats step.resource_requirements free

  put-fits :
      (s k : ℕ) (r : ResourceRequirements F) (m : List (ℕ × ResourceRequirements F)) (later : Bool)
      → fits floats r free ≡ true
      → ((if s == k then true else later) || fits floats (requirements_of floats m s) free) ≡ true
      → (later || fits floats (requirements_of floats (put k r m) s) free) ≡ true
  unfolding requirements_of
  put-fits s k r m later h before = elim (Bool-cases (s == k)) [
    | inl t ↦ rw (lookup-put s k r m, t, requirements_of, h) (ground arith)
    | inr f ↦ rw (lookup-put s k r m, f, requirements_of) (ground (arith, before, f))
  ]

  registered_fit :
      (steps : List (PlanStep F)) (st : InnerState F) (s : ℕ)
      → all step_fits steps ≡ true
      → (mem s (step_ids steps) || fits floats (requirements_of floats st.requirements s) free)
        ≡ true
      → fits floats (requirements_of floats (register_all steps st).requirements s) free ≡ true
  unfolding register_all mem
  registered_fit [] st s h m = m
  registered_fit (step ∷ steps) st s h m =
      registered_fit steps (register step st) s (ground arith) (
        put-fits s step.id step.resource_requirements st.requirements (mem s (step_ids steps))
          (ground arith) m)

  registered_running :
      (steps : List (PlanStep F)) (st : InnerState F) → (register_all steps st).running ≡ st.running
  unfolding register_all
  registered_running [] st = refl
  registered_running (step ∷ steps) st = registered_running steps (register step st)

  initialise-Active :
      (steps : List (PlanStep F))
      → HasDistinctIds steps
      → Active (step_ids steps) (initialise steps)
  unfolding initialise default mem
  initialise-Active steps distinct =
      let (completed, skipped, failed, ready) = registered_rest steps default in
      let running = registered_running steps default in
      record {
        listed = λ s. ground (
          arith,
          registered_pending steps default s,
          mem-roots steps (register_all steps default).ready s distinct,
          ready,
          running,
        );
        undone = λ s. rw completed (λ _. refl);
        unskipped = skipped;
        unfailed = failed;
      }

  initialise-Drivable :
      (max_count : ℕ) (steps : List (PlanStep F))
      → HasDistinctIds steps
      → all step_fits steps ≡ true
      → Drivable floats max_count free (step_ids steps) (plan_deps steps) (initialise steps)
  unfolding initialise default mem
  initialise-Drivable max_count steps distinct h = record {
    inv = initialise-Inv steps distinct;
    active = initialise-Active steps distinct;
    fit = λ s m. registered_fit steps default s h (ground arith);
  }

  left-le_length : (ids done : List ℕ) → left ids done ≤ length ids
  left-le_length [] done = omega arith
  left-le_length (x ∷ ids) done = ground (arith, left-le_length ids done)

  -- A complete state in which no step is skipped or failed has completed every step.
  all_completed :
      (max_count : ℕ) (steps : List ℕ) (plan : ℕ → List ℕ) (rank : ℕ → ℕ) (after : InnerState F)
      → Drivable floats max_count free steps plan after
      → ((s d : ℕ) → mem d (plan s) ≡ true → (mem d steps ≡ true) × (rank d < rank s))
      → is_complete after ≡ true
      → (s : ℕ) → mem s steps ≡ true
      → mem s after.completed ≡ true
  unfolding is_complete mem
  all_completed max_count steps plan rank after h known done s m =
      let terminal =
        (idle_complete floats steps plan rank after h.inv known
            (nil_of_is_nil after.ready (ground arith))
            (nil_of_is_nil after.running (ground arith))).1
          s m in
      let settled = rw (h.active.unskipped, h.active.unfailed) at terminal in
      ground (arith, settled)

  module _ (max_count : ℕ) (room : ltb max_capacity max_count ≡ false)
      (some_room : 0 < max_count) where
    -- Every step of an acyclic graph completes, one round of the caller for each step at most.
    pub dag_completes :
        (steps : List (AtomicStep F))
        → IsDag steps
        → all step_fits (map plan_step steps) ≡ true
        → (after : InnerState F) × (drive floats max_count free
              (length (ids steps))
              (initialise (map plan_step steps))
            ≡ some after)
          × (is_complete after ≡ true)
          × ((s : ℕ) → mem s (ids steps) ≡ true → mem s after.completed ≡ true)
    dag_completes steps dag fit =
        let steps' = map plan_step steps in
        let known : (s d : ℕ)
            → mem d (plan_deps steps' s) ≡ true
            → (mem d (step_ids steps') ≡ true) × (dag.rank d < dag.rank s) =
          (λ s d m.
            let m' : mem d (deps_at steps s) ≡ true = rw (plan_deps-map steps s) at m in
            (rw (step_ids-map steps) (dag.resolved s d m'), dag.falls s d m')) in
        let start =
          initialise-Drivable max_count steps' (map-HasDistinctIds steps dag.distinct) fit in
        let enough : left (step_ids steps') (initialise steps').completed ≤ length (ids steps) =
          rw (← step_ids-map steps)
            (left-le_length (step_ids steps') (initialise steps').completed) in
        let (after, e, h, done) =
          drive_completes floats max_count free (step_ids steps') (plan_deps steps') dag.rank known
            room some_room (length (ids steps)) (initialise steps') start enough in
        (
          after,
          e,
          done,
          λ s m.
              all_completed max_count (step_ids steps') (plan_deps steps') dag.rank after h known
                done s (rw (step_ids-map steps) m),
        )
