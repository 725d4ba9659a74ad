-- ===== src/Scheduler/Progress.antt =====
-- Runs of the scheduler: any calls, in any order, from `initialise` on.
use hyperplane_rs.Prelude.{
  ℕ, zero, suc, ◌<◌, ◌≡◌, inl, inr, refl, subst, true, false, ◌||◌, Option, some, List, [], ◌∷◌,
  all, Bool-cases, Option-cases, ◌>>=◌, arith,
}
use hyperplane_rs.Prelude.IdSet.{mem, mem-union, failing, all_at}
use hyperplane_rs.Scheduler.State.{
  Floats, ResourceSnapshot, SchedulerPriority, SchedulingPolicy, PlanStep, InnerState,
}
use hyperplane_rs.Scheduler.Operations.{
  initialise, next_steps, mark_started, mark_completed, mark_failed, mark_skipped, set_priority,
  is_nil, is_complete,
}
use hyperplane_rs.Scheduler.Invariant.{Inv, deps_of, is_settled, is_open}
use hyperplane_rs.Scheduler.Marks.{mark_completed-Inv, mark_skipped-Inv}
use hyperplane_rs.Scheduler.Failure.{mark_failed-Inv}
use hyperplane_rs.Scheduler.Dispatch.{next_steps-picked}
use hyperplane_rs.Scheduler.Start.{step_ids, plan_deps, HasDistinctIds, initialise-Inv}

pub data Call (F : Type 0) : Type 0 where
  next : SchedulingPolicy → ℕ → ResourceSnapshot F → Call F
  started completed failed skipped : ℕ → Call F
  prioritise : ℕ → SchedulerPriority → Call F

module _ (floats : Floats) where
  open floats use {F}

  -- The state after a call; the results are dropped.
  unfoldable pub apply : Call F → InnerState F → Option (InnerState F)
  apply (next policy max_count resources) st = do
    (after, _) ← next_steps floats policy max_count resources st
    some after
  apply (started x) st = some (mark_started x st)
  apply (completed x) st = some (mark_completed x st)
  apply (failed x) st = do (after, _) ← mark_failed x st; some after
  apply (skipped x) st = some (mark_skipped x st)
  apply (prioritise x p) st = some (set_priority x p st)

  unfoldable pub run : List (Call F) → InnerState F → Option (InnerState F)
  unfolding apply
  run [] st = some st
  run (c ∷ calls) st = do after ← apply c st; run calls after

  module _ (ids : List ℕ) (plan : ℕ → List ℕ) where
    set_priority-Inv :
        (x : ℕ) (p : SchedulerPriority) (st : InnerState F)
        → Inv ids plan [] [] st
        → Inv ids plan [] [] (set_priority x p st)
    unfolding set_priority
    set_priority-Inv x p st inv = record {
      planned = inv.planned;
      forward = inv.forward;
      backward = inv.backward;
      roots = inv.roots;
      cleared = inv.cleared;
      waits = inv.waits;
      unfailed = inv.unfailed;
      covered = inv.covered;
    }

    apply-Inv :
        (c : Call F) (st after : InnerState F)
        → Inv ids plan [] [] st
        → apply c st ≡ some after
        → Inv ids plan [] [] after
    unfolding apply
    apply-Inv (next policy n res) st after inv e =
        elim (Option-cases (next_steps floats policy n res st)) [
          | inl x ↦ absurd (ground arith)
          | inr ((t, out), s) ↦
              let same : t ≡ after = ground arith in
              subst (Inv ids plan [] []) same
                (next_steps-picked floats ids plan policy n res st t out inv s).0
        ]
    apply-Inv (started x) st after inv e =
        let same : st ≡ after = unfold mark_started in cc in subst (Inv ids plan [] []) same inv
    apply-Inv (completed x) st after inv e =
        let same : mark_completed x st ≡ after = cc in
        subst (Inv ids plan [] []) same (mark_completed-Inv ids plan x st inv)
    apply-Inv (failed x) st after inv e = elim (Option-cases (mark_failed x st)) [
      | inl n ↦ absurd (ground arith)
      | inr ((t, out), s) ↦
          let same : t ≡ after = ground arith in
          subst (Inv ids plan [] []) same (mark_failed-Inv ids plan x st inv s)
    ]
    apply-Inv (skipped x) st after inv e =
        let same : mark_skipped x st ≡ after = cc in
        subst (Inv ids plan [] []) same (mark_skipped-Inv ids plan x st inv)
    apply-Inv (prioritise x p) st after inv e =
        let same : set_priority x p st ≡ after = cc in
        subst (Inv ids plan [] []) same (set_priority-Inv x p st inv)

    run_from-Inv :
        (calls : List (Call F)) (st after : InnerState F)
        → Inv ids plan [] [] st
        → run calls st ≡ some after
        → Inv ids plan [] [] after
    unfolding run
    run_from-Inv [] st after inv e =
        let same : st ≡ after = cc in subst (Inv ids plan [] []) same inv
    run_from-Inv (c ∷ calls) st after inv e = elim (Option-cases (apply c st)) [
      | inl n ↦ absurd (ground arith)
      | inr (t, s) ↦ run_from-Inv calls t after (apply-Inv c st t inv s) (rw (s, run) at e)
    ]

    -- Where nothing is ready or running, a pending step would wait for another one of lower rank.
    nothing_waits :
        (rank : ℕ → ℕ) (st : InnerState F)
        → Inv ids plan [] [] st
        → ((s d : ℕ) → mem d (plan s) ≡ true → (mem d ids ≡ true) × (rank d < rank s))
        → st.ready ≡ []
        → st.running ≡ []
        → (n s : ℕ) → rank s < n
        → mem s st.pending ≡ false
    unfolding mem
    nothing_waits rank st inv known idle still zero s lt = absurd (omega arith)
    nothing_waits rank st inv known idle still (suc n) s lt = elim (Bool-cases (mem s st.pending)) [
      | inr no' ↦ no'
      | inl waiting ↦
          let blocked : all (is_settled st) (deps_of st s) ≡ false = ground (arith, inv.waits s) in
          let (d, m, unsettled) = failing (is_settled st) (deps_of st s) blocked in
          let (listed, lower) = known s d (rw (inv.planned s) at m) in
          absurd (
            ground (
              arith,
              inv.covered d listed,
              inv.unfailed s d,
              nothing_waits rank st inv known idle still n d (omega arith),
            ))
    ]

  nil_of_no_mem : (l : List ℕ) → ((s : ℕ) → mem s l ≡ false) → is_nil l ≡ true
  unfolding mem
  nil_of_no_mem [] h = refl
  nil_of_no_mem (x ∷ l) h = absurd (ground (arith, h x))

  -- An idle state with the invariant is complete.
  pub idle_complete :
      (ids : List ℕ) (plan : ℕ → List ℕ) (rank : ℕ → ℕ) (st : InnerState F)
      → Inv ids plan [] [] st
      → ((s d : ℕ) → mem d (plan s) ≡ true → (mem d ids ≡ true) × (rank d < rank s))
      → st.ready ≡ []
      → st.running ≡ []
      → (is_complete st ≡ true)
        × ((s : ℕ)
            → mem s ids ≡ true
            → (mem s st.completed || mem s st.skipped || mem s st.failed) ≡ true)
  unfolding is_complete mem
  idle_complete ids plan rank st inv known idle still =
      let none_waits = λ (s : ℕ).
        nothing_waits ids plan rank st inv known idle still (suc (rank s)) s (omega arith) in
      (
        ground (arith, nil_of_no_mem st.pending none_waits),
        λ s m. ground (arith, inv.covered s m, none_waits s, mem-union s st.completed st.skipped),
      )

  -- For a plan with distinct ids whose dependencies are steps of the plan and have no cycle (`rank`
  -- falls along them), after any calls at all from `initialise` on: where no step is ready and none
  -- is running the scheduler is complete, and every step of the plan is completed, skipped or failed.
  pub run_no_deadlock :
      (steps : List (PlanStep F)) (rank : ℕ → ℕ) (calls : List (Call F)) (st : InnerState F)
      → HasDistinctIds steps
      → ((s d : ℕ)
          → mem d (plan_deps steps s) ≡ true
          → (mem d (step_ids steps) ≡ true) × (rank d < rank s))
      → run calls (initialise steps) ≡ some st
      → st.ready ≡ []
      → st.running ≡ []
      → (is_complete st ≡ true)
        × ((s : ℕ)
            → mem s (step_ids steps) ≡ true
            → (mem s st.completed || mem s st.skipped || mem s st.failed) ≡ true)
  run_no_deadlock steps rank calls st distinct known e =
      idle_complete (step_ids steps) (plan_deps steps) rank st
        (run_from-Inv (step_ids steps) (plan_deps steps) calls (initialise steps) st
          (initialise-Inv steps distinct) e)
        known

  -- For a plan with distinct ids, after any calls at all from `initialise` on: no step that is
  -- pending or ready has a failed dependency, and every dependency of a ready step is completed or
  -- skipped.
  pub run_open_sound :
      (steps : List (PlanStep F)) (calls : List (Call F)) (st : InnerState F)
      → HasDistinctIds steps
      → run calls (initialise steps) ≡ some st
      → ((s d : ℕ)
          → is_open st s ≡ true
          → mem d (plan_deps steps s) ≡ true
          → mem d st.failed ≡ false)
        × ((s d : ℕ)
            → mem s st.ready ≡ true
            → mem d (plan_deps steps s) ≡ true
            → (mem d st.completed || mem d st.skipped) ≡ true)
  unfolding mem
  run_open_sound steps calls st distinct e =
      let plan = plan_deps steps in
      let inv =
        run_from-Inv (step_ids steps) plan calls (initialise steps) st
          (initialise-Inv steps distinct) e in
      (
        λ s d o m.
            let m' : mem d (deps_of st s) ≡ true = rw (inv.planned s) m in
            ground (arith, inv.unfailed s d),
        λ s d r m.
            let m' : mem d (deps_of st s) ≡ true = rw (inv.planned s) m in
            ground (
              arith,
              all_at (is_settled st) (deps_of st s) d,
              inv.cleared s,
              mem-union d st.completed st.skipped,
            ),
      )
