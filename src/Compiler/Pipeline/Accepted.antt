-- ===== src/Compiler/Pipeline/Accepted.antt =====
-- What a compiled plan is.
use hyperplane_rs.Prelude.{
  ℕ, ◌≡◌, ◌∙◌, refl, sym, ap, inl, inr, true, Option, none, some, List, [], ◌∷◌, length,
}
use hyperplane_rs.Prelude.Arith.{u32_clamp}
use hyperplane_rs.Prelude.Results.{Result, ok, err, Result-cases}
use hyperplane_rs.Plan.Elements.{ValueKind, TestPlan}
use hyperplane_rs.Plan.Validation.{PlanError}
use hyperplane_rs.Plan.Validation.WellFormed.{is_well_formed}
use hyperplane_rs.Plan.Validation.Accepts.{validate_plan_iff}
use hyperplane_rs.Plan.Step.{AtomicStep}
use hyperplane_rs.Plan.Graph.{GraphError, validate}
use hyperplane_rs.Scheduler.State.{ResourceRequirements}
use hyperplane_rs.Compiler.Configuration.{Resolver}
use hyperplane_rs.Compiler.Ids.{Stop, StepFormats, StepIds, no_ids, all_ids, range_from}
use hyperplane_rs.Compiler.Expansion.{enumerator_of}
use hyperplane_rs.Plan.Graph.Validate.{validate-IsDag}
use hyperplane_rs.Plan.Graph.Dag.{IsDag}
use hyperplane_rs.Compiler.Diagnostics.{CompilationDiagnostic}
use hyperplane_rs.Compiler.Diagnostics.Supported.{is_supported_plan, gather_unsupported-nil}
use hyperplane_rs.Compiler.Binding.{BindingStateComputer, compute}
use hyperplane_rs.Compiler.Trials.{identify_trial_elements}
use hyperplane_rs.Compiler.Pipeline.{
  ExecutionPlan, plan_errors, has_resolver, checked_graph, new_graph, instances_of, build_steps,
  assemble, compile_checked, compile_unless, compile_impl,
}

module _ {F : Type 0} where
  checked_graph-ok :
      (v : Option (Result GraphError (Unit {0}))) (steps graph : List (AtomicStep F))
      → checked_graph v steps ≡ ok graph
      → (v ≡ some (ok tt)) × (graph ≡ steps)
  unfolding checked_graph
  checked_graph-ok none steps graph h = cc
  checked_graph-ok (some (ok tt)) steps graph h = (refl, cc)
  checked_graph-ok (some (err e)) steps graph h = cc

  new_graph-ok :
      (steps graph : List (AtomicStep F))
      → new_graph steps ≡ ok graph
      → validate graph ≡ some (ok tt)
  unfolding new_graph
  new_graph-ok steps graph h =
      let (v, same) = checked_graph-ok (validate steps) steps graph h in rw same v

  graph_of : Result Stop (ExecutionPlan F) → List (AtomicStep F)
  graph_of (ok q) = q.execution_graph
  graph_of (err e) = []

  count_of : Result Stop (ExecutionPlan F) → ℕ
  count_of (ok q) = q.step_count
  count_of (err e) = 0

  trials_of : Result Stop (ExecutionPlan F) → List ℕ
  trials_of (ok q) = q.trial_elements
  trials_of (err e) = []

  -- What holds of every compiled plan.
  abbrev Built : List ℕ → ExecutionPlan F → Type 0
  Built trial_elements q =
      (validate q.execution_graph ≡ some (ok tt))
      × (q.trial_elements ≡ trial_elements)
      × (q.step_count ≡ u32_clamp (length q.execution_graph))

  assemble-ok :
      (p : TestPlan) (bsc : BindingStateComputer) (trial_elements : List ℕ)
      (steps : List (AtomicStep F)) (q : ExecutionPlan F)
      → assemble p bsc trial_elements steps ≡ ok q
      → Built trial_elements q
  unfolding assemble graph_of count_of trials_of
  assemble-ok p bsc trial_elements steps q h = elim (Result-cases (new_graph steps)) [
    | inr (e, g) ↦ absurd (let clash = rw (g, assemble) at h in cc)
    | inl (graph, g) ↦ elim (Result-cases (instances_of p bsc trial_elements)) [
      | inr (e, i) ↦ absurd (let clash = rw (g, i, assemble) at h in cc)
      | inl (instances, i) ↦
          let done = rw (g, i, assemble) at h in
          let same : graph ≡ q.execution_graph = ap graph_of done in
          (
            rw (← same) (new_graph-ok steps graph g),
            sym (ap trials_of done),
            sym (ap count_of done) ∙ ap (λ xs. u32_clamp (length xs)) same,
          )
    ]
  ]

module _ {F : Type 0} (none_required : ResourceRequirements F) (formats : StepFormats) where
  compile_checked-ok :
      (p : TestPlan) (r : Option Resolver) (q : ExecutionPlan F)
      → compile_checked none_required formats p r ≡ ok q
      → Built (identify_trial_elements p (compute p)) q
  unfolding compile_checked
  compile_checked-ok p r q h =
      let trial_elements = identify_trial_elements p (compute p) in
      let trials = range_from (enumerator_of p).trial_count 0 in
      let empty : StepIds = record { deploy_id_of = no_ids; teardown_id_of = no_ids } in
      elim (Result-cases (all_ids formats trials p.elements empty)) [
        | inr (e, i) ↦ absurd (let clash = rw (i, compile_checked) at h in cc)
        | inl (m, i) ↦
            elim (Result-cases
              (build_steps none_required formats p r m (compute p) trial_elements)) [
                | inr (e, b) ↦ absurd (let clash = rw (i, b, compile_checked) at h in cc)
                | inl (steps, b) ↦
                    assemble-ok p (compute p) trial_elements steps q
                      (rw (i, b, compile_checked) at h)
              ]
      ]

  compile_unless-ok :
      (ds : List CompilationDiagnostic) (p : TestPlan) (r : Option Resolver) (q : ExecutionPlan F)
      → compile_unless none_required formats ds p r ≡ ok q
      → (ds ≡ []) × (compile_checked none_required formats p r ≡ ok q)
  unfolding compile_unless
  compile_unless-ok [] p r q h = (refl, h)
  compile_unless-ok (d ∷ ds) p r q h = cc

  valid_of_nil : (v : Result PlanError (Unit {0})) → plan_errors v ≡ [] → v ≡ ok tt
  valid_of_nil (ok tt) h = refl
  valid_of_nil (err e) h = cc

  -- Where `compile_impl` succeeds, the plan is well formed and has nothing that is not supported, the graph of the result is acyclic, with distinct step ids and without a dependency
  -- on a missing step, the trial elements are those that `identify_trial_elements` finds, and the
  -- step count is the number of steps.
  pub compile_impl-ok :
      (kind_of : ℕ → ValueKind) (fingerprint : ℕ → ℕ) (p : TestPlan) (r : Option Resolver)
      (q : ExecutionPlan F)
      → compile_impl none_required formats kind_of fingerprint p r ≡ ok q
      → (is_well_formed kind_of fingerprint p ≡ true)
        × (is_supported_plan p (has_resolver r) ≡ true)
        × IsDag q.execution_graph
        × (q.trial_elements ≡ identify_trial_elements p (compute p))
        × (q.step_count ≡ u32_clamp (length q.execution_graph))
  unfolding compile_impl
  compile_impl-ok kind_of fingerprint p r q h =
      let (none_found, checked) = compile_unless-ok _ p r q h in
      let (valid, supported) = gather_unsupported-nil p (has_resolver r) _ none_found in
      let (dag, trials, count) = compile_checked-ok p r q checked in
      (
        (validate_plan_iff kind_of fingerprint p).0 (valid_of_nil _ valid),
        supported,
        validate-IsDag q.execution_graph dag,
        trials,
        count,
      )
