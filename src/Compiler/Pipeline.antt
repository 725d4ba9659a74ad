-- ===== src/Compiler/Pipeline.antt =====
-- `compile_impl` of crates/paramodel-compiler/src/compiler.rs: the passes in their order. The kind
-- and the fingerprint of a value are parameters; time stamps, the fingerprint and the
-- performance metrics of the result are left out.
pub mod Accepted
pub mod Finish
mod Examples
use hyperplane_rs.Prelude.{
  ℕ, ◌+◌, ◌==◌, Bool, true, false, Option, none, some, List, [], ◌∷◌, ◌++◌, length, if◌then◌else◌,
}
use hyperplane_rs.Prelude.Arith.{u32_clamp}
use hyperplane_rs.Prelude.IdSet.{mem}
use hyperplane_rs.Prelude.Results.{Result, ok, err, ◌>>=◌}
use hyperplane_rs.Scheduler.State.{ResourceRequirements}
use hyperplane_rs.Plan.Elements.{ValueKind, ExecutionPolicies, TestPlan, TrialOrdering}
use hyperplane_rs.Plan.Validation
use hyperplane_rs.Plan.Validation.{PlanError}
use hyperplane_rs.Plan.Step.{AtomicStep, checkpoint, id, depends_on, is_barrier}
use hyperplane_rs.Plan.Graph.{GraphError, validate}
use hyperplane_rs.Compiler.Binding.{BindingStateComputer, compute}
use hyperplane_rs.Compiler.Trials.{identify_trial_elements}
use hyperplane_rs.Compiler.Configuration.{Resolver}
use hyperplane_rs.Compiler.Diagnostics.{
  CompilationDiagnostic, error, e001, e003, plan, gather_unsupported,
}
use hyperplane_rs.Compiler.Expansion.{enumerator_of, build_header, expand_trials, apply_rule2_edges}
use hyperplane_rs.Compiler.Dedicated.{apply_dedicated_materialisation}
use hyperplane_rs.Compiler.Exclusive.{apply_exclusive_serialisation, apply_exclusive_rerouting}
use hyperplane_rs.Compiler.Lifeline.{apply_lifeline_collapse}
use hyperplane_rs.Compiler.Coalescing.{apply_coalescing}
use hyperplane_rs.Compiler.Notifications.{apply_trial_notifications}
use hyperplane_rs.Compiler.Readiness.{apply_readiness_gates}
use hyperplane_rs.Compiler.Reduction.{apply_transitive_reduction}
use hyperplane_rs.Compiler.Instances.{ElementInstanceGraph, build_trivial_instance_graph}
use hyperplane_rs.Compiler.Ids.{
  Stop, rejected, panicked, out_of_fuel, StepFormats, or_panic, no_ids, all_ids, StepIds,
  range_from,
}

pub record ExecutionPlan (F : Type 0) : Type 0 where
  pub source_plan_id : ℕ
  pub execution_graph : List (AtomicStep F)
  pub element_instance_graph : ElementInstanceGraph
  pub trial_ordering : TrialOrdering
  pub trial_elements : List ℕ
  pub policies : ExecutionPolicies
  pub trial_count : ℕ
  pub step_count : ℕ
  pub barrier_count : ℕ
  pub element_instance_count : ℕ

-- A loop's `none` is the end of its fuel.
abbrev pub with_fuel {ℓ} : {A : Type ℓ} → Option A → Result Stop A
with_fuel (some a) = ok a
with_fuel none = err out_of_fuel

abbrev pub has_resolver : Option Resolver → Bool
has_resolver none = false
has_resolver (some r) = true

-- The warnings of the exclusive pass are raised as errors.
abbrev pub no_warnings {ℓ} : {A : Type ℓ} → A × List CompilationDiagnostic → Result Stop A
no_warnings (a, []) = ok a
no_warnings (a, d ∷ ds) = err (rejected (d ∷ ds))

-- The diagnostic of `TestPlan::validate`.
abbrev pub plan_errors : Result PlanError (Unit {0}) → List CompilationDiagnostic
plan_errors (ok _) = []
plan_errors (err e) = error e001 plan ∷ []

unfoldable pub instances_of :
    TestPlan → BindingStateComputer → List ℕ → Result Stop ElementInstanceGraph
instances_of p bsc trial_elements =
    let enumerator = enumerator_of p in
    build_trivial_instance_graph p (range_from enumerator.trial_count 0) enumerator bsc
      trial_elements

module _ {F : Type 0} where
  unfoldable pub all_deps : List (AtomicStep F) → List ℕ
  all_deps [] = []
  all_deps (s ∷ steps) = depends_on s ++ all_deps steps

  -- The steps on which no step depends.
  unfoldable pub last_steps : List ℕ → List (AtomicStep F) → List ℕ
  unfolding mem
  last_steps incoming [] = []
  last_steps incoming (s ∷ steps) =
      let rest = last_steps incoming steps in if mem (id s) incoming then rest else id s ∷ rest

  unfoldable pub count_barriers : List (AtomicStep F) → ℕ
  unfolding is_barrier
  count_barriers [] = 0
  count_barriers (s ∷ steps) =
      let rest = count_barriers steps in if is_barrier s then 1 + rest else rest

  -- `ExecutionGraph::new`.
  unfoldable pub checked_graph :
      Option (Result GraphError (Unit {0}))
      → List (AtomicStep F)
      → Result Stop (List (AtomicStep F))
  checked_graph none steps = err out_of_fuel
  checked_graph (some (ok _)) steps = ok steps
  checked_graph (some (err e)) steps = err (rejected (error e003 plan ∷ []))

  unfoldable pub new_graph : List (AtomicStep F) → Result Stop (List (AtomicStep F))
  new_graph steps = checked_graph (validate steps) steps

  -- What follows the rules.
  unfoldable pub assemble :
      TestPlan → BindingStateComputer → List ℕ → List (AtomicStep F) → Result Stop (ExecutionPlan F)
  assemble p bsc trial_elements steps = do
    let n = (enumerator_of p).trial_count
    graph ← new_graph steps
    instances ← instances_of p bsc trial_elements
    ok (record {
      source_plan_id = p.id;
      execution_graph = graph;
      element_instance_graph = instances;
      trial_ordering = p.trial_ordering;
      trial_elements = trial_elements;
      policies = p.policies;
      trial_count = u32_clamp n;
      step_count = u32_clamp (length graph);
      barrier_count = u32_clamp (count_barriers graph);
      element_instance_count = u32_clamp (length instances.instances);
    })

module _ {F : Type 0} (none_required : ResourceRequirements F) (formats : StepFormats) where
  -- The sentinels.
  unfoldable pub add_sentinels : List (AtomicStep F) → List (AtomicStep F)
  unfolding all_deps last_steps
  add_sentinels steps =
      checkpoint (build_header none_required formats.start_id [] none) formats.start_id
      ∷ (steps
          ++ checkpoint
              (build_header none_required formats.end_id (last_steps (all_deps steps) steps) none)
              formats.end_id
            ∷ [])

  -- The rules, from the deploy steps to the transitive reduction.
  unfoldable pub build_steps :
      TestPlan
      → Option Resolver
      → StepIds
      → BindingStateComputer
      → List ℕ
      → Result Stop (List (AtomicStep F))
  unfolding enumerator_of range_from expand_trials apply_rule2_edges apply_dedicated_materialisation
      apply_exclusive_serialisation apply_lifeline_collapse apply_coalescing
      apply_trial_notifications apply_exclusive_rerouting apply_readiness_gates add_sentinels
      apply_transitive_reduction
  build_steps p resolver ids bsc trial_elements = do
    let enumerator = enumerator_of p
    let n = enumerator.trial_count
    let ts = range_from n 0
    expanded ← expand_trials none_required p resolver ids formats.start_id ts []
    wired ← apply_rule2_edges p bsc ids ts expanded
    dedicated ← apply_dedicated_materialisation none_required formats p resolver ids n ts wired
    serialised ← apply_exclusive_serialisation p ids n dedicated
    exclusive ← no_warnings serialised
    collapsed ← with_fuel (apply_lifeline_collapse p ids ts exclusive)
    coalesced ← apply_coalescing p ids enumerator n bsc trial_elements collapsed
    notified ←
        apply_trial_notifications none_required formats p ids trial_elements bsc enumerator n ts
          coalesced
    rerouted ← apply_exclusive_rerouting formats p ids n trial_elements notified
    gated ← apply_readiness_gates none_required formats p rerouted
    with_fuel (apply_transitive_reduction (add_sentinels gated))

  -- What follows the checks.
  unfoldable pub compile_checked : TestPlan → Option Resolver → Result Stop (ExecutionPlan F)
  compile_checked p resolver = do
    let bsc = compute p
    let trial_elements = identify_trial_elements p bsc
    ids ←
        all_ids formats (range_from (enumerator_of p).trial_count 0) p.elements
          (record { deploy_id_of = no_ids; teardown_id_of = no_ids })
    steps ← build_steps p resolver ids bsc trial_elements
    assemble p bsc trial_elements steps

  unfoldable pub compile_unless :
      List CompilationDiagnostic → TestPlan → Option Resolver → Result Stop (ExecutionPlan F)
  compile_unless [] p resolver = compile_checked p resolver
  compile_unless (d ∷ errors) p resolver = err (rejected (d ∷ errors))

  unfoldable pub compile_impl :
      (kind_of : ℕ → ValueKind) (fingerprint : ℕ → ℕ)
      → TestPlan
      → Option Resolver
      → Result Stop (ExecutionPlan F)
  compile_impl kind_of fingerprint p resolver =
      compile_unless
        (gather_unsupported p (plan_errors (Validation.validate kind_of fingerprint p))
          (has_resolver resolver))
        p resolver
