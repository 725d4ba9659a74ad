-- ===== src/Compiler/Expansion.antt =====
-- Rules 1 and 2 of `compile_impl` in crates/paramodel-compiler/src/compiler.rs: a deploy and a teardown
-- step for each element and trial, and the edges of the shared, linear and lifeline dependencies.
use hyperplane_rs.Prelude.{
  ℕ, false, Option, none, some, List, [], ◌∷◌, ◌++◌, map, length, if◌then◌else◌,
}
use hyperplane_rs.Prelude.Arith.{u32_clamp}
use hyperplane_rs.Prelude.Results.{Result, ok, err, ◌>>=◌}
use hyperplane_rs.Scheduler.State.{ResourceRequirements}
use hyperplane_rs.Plan.Elements.{
  shared, exclusive, dedicated, linear, lifeline, Dependency, Element, TestPlan,
}
use hyperplane_rs.Plan.Step.{StepHeader, AtomicStep, deploy, teardown}
use hyperplane_rs.Enumerator.{MixedRadixEnumerator, of_cardinalities, offsets}
use hyperplane_rs.Compiler.Binding.{BindingStateComputer, same_group_for_elements}
use hyperplane_rs.Compiler.Configuration.{Resolver, resolve_configuration}
use hyperplane_rs.Compiler.Diagnostics.{CompilationDiagnostic}
use hyperplane_rs.Compiler.Edges.{add_dependency}
use hyperplane_rs.Compiler.Ids.{Stop, rejected, or_panic, IdMap, StepIds}

-- `map_err(CompilationError::single)?`.
abbrev pub or_reject {ℓ} : {A : Type ℓ} → Result CompilationDiagnostic A → Result Stop A
or_reject (ok a) = ok a
or_reject (err d) = err (rejected (d ∷ []))

-- `MixedRadixEnumerator::new(&plan.axes)`.
unfoldable pub enumerator_of : TestPlan → MixedRadixEnumerator
unfolding of_cardinalities
enumerator_of plan = of_cardinalities (map (λ a. u32_clamp (length a.values)) plan.axes)

-- The deploy steps of the shared targets.
unfoldable pub shared_deploys : IdMap → ℕ → List Dependency → List ℕ → Result Stop (List ℕ)
shared_deploys deploy_id_of t [] deps = ok deps
shared_deploys deploy_id_of t (d ∷ ds) deps = elim d.relationship [
  | shared ↦ do
    y ← or_panic (deploy_id_of d.target t)
    shared_deploys deploy_id_of t ds (deps ++ y ∷ [])
  | _ ↦ shared_deploys deploy_id_of t ds deps
]

module _ {F : Type 0} (none_required : ResourceRequirements F) where
  -- `StepHeader::builder()`, with `ResourceRequirements::none()`.
  abbrev pub build_header : ℕ → List ℕ → Option ℕ → StepHeader F
  build_header i deps trial = record {
    id = i;
    depends_on = deps;
    trial_index = trial;
    resource_requirements = none_required;
  }

  unfoldable pub expand_element :
      TestPlan
      → Option Resolver
      → StepIds
      → ℕ
      → ℕ
      → List ℕ
      → Element
      → List (AtomicStep F)
      → Result Stop (List (AtomicStep F))
  unfolding resolve_configuration shared_deploys
  expand_element plan resolver ids start t os e steps = do
    resolved ← or_reject (resolve_configuration plan e os resolver)
    deploy_id ← or_panic (ids.deploy_id_of e.name t)
    teardown_id ← or_panic (ids.teardown_id_of e.name t)
    deploy_deps ← shared_deploys ids.deploy_id_of t e.dependencies (start ∷ [])
    ok (
        steps
        ++ deploy (build_header deploy_id deploy_deps (some (u32_clamp t))) e.name (u32_clamp t)
            resolved e.max_concurrency e.max_group_concurrency none
          ∷ teardown (build_header teardown_id (deploy_id ∷ []) (some (u32_clamp t))) e.name
              (u32_clamp t) false
          ∷ [])

  unfoldable pub expand_elements :
      TestPlan
      → Option Resolver
      → StepIds
      → ℕ
      → ℕ
      → List ℕ
      → List Element
      → List (AtomicStep F)
      → Result Stop (List (AtomicStep F))
  unfolding expand_element
  expand_elements plan resolver ids start t os [] steps = ok steps
  expand_elements plan resolver ids start t os (e ∷ elements) steps =
      expand_element plan resolver ids start t os e steps
      >>= expand_elements plan resolver ids start t os elements

  unfoldable pub expand_trials :
      TestPlan
      → Option Resolver
      → StepIds
      → ℕ
      → List ℕ
      → List (AtomicStep F)
      → Result Stop (List (AtomicStep F))
  unfolding expand_elements enumerator_of offsets
  expand_trials plan resolver ids start [] steps = ok steps
  expand_trials plan resolver ids start (t ∷ ts) steps = do
    os ← or_panic (offsets (enumerator_of plan) t)
    expanded ← expand_elements plan resolver ids start t os plan.elements steps
    expand_trials plan resolver ids start ts expanded

module _ {F : Type 0} where
  -- One turn of the innermost loop of `apply_rule2_edges`.
  unfoldable pub rule2_edge :
      BindingStateComputer
      → StepIds
      → ℕ
      → Element
      → Dependency
      → List (AtomicStep F)
      → Result Stop (List (AtomicStep F))
  unfolding same_group_for_elements add_dependency
  rule2_edge bsc ids t e d steps = elim d.relationship [
    | shared ↦ do
      x_teardown ← or_panic (ids.teardown_id_of e.name t)
      target_teardown ← or_panic (ids.teardown_id_of d.target t)
      ok (add_dependency target_teardown x_teardown steps)
    | linear ↦
        if same_group_for_elements bsc e.name d.target
        then (do
          x_deploy ← or_panic (ids.deploy_id_of e.name t)
          y_teardown ← or_panic (ids.teardown_id_of d.target t)
          ok (add_dependency x_deploy y_teardown steps))
        else ok steps
    | lifeline ↦ do
      x_deploy ← or_panic (ids.deploy_id_of e.name t)
      y_deploy ← or_panic (ids.deploy_id_of d.target t)
      ok (add_dependency x_deploy y_deploy steps)
    | dedicated ↦ ok steps
    | exclusive ↦ ok steps
  ]

  unfoldable pub rule2_deps :
      BindingStateComputer
      → StepIds
      → ℕ
      → Element
      → List Dependency
      → List (AtomicStep F)
      → Result Stop (List (AtomicStep F))
  unfolding rule2_edge
  rule2_deps bsc ids t e [] steps = ok steps
  rule2_deps bsc ids t e (d ∷ deps) steps =
      rule2_edge bsc ids t e d steps >>= rule2_deps bsc ids t e deps

  unfoldable pub rule2_elements :
      BindingStateComputer
      → StepIds
      → ℕ
      → List Element
      → List (AtomicStep F)
      → Result Stop (List (AtomicStep F))
  unfolding rule2_deps
  rule2_elements bsc ids t [] steps = ok steps
  rule2_elements bsc ids t (e ∷ elements) steps =
      rule2_deps bsc ids t e e.dependencies steps >>= rule2_elements bsc ids t elements

  unfoldable pub apply_rule2_edges :
      TestPlan
      → BindingStateComputer
      → StepIds
      → List ℕ
      → List (AtomicStep F)
      → Result Stop (List (AtomicStep F))
  unfolding rule2_elements
  apply_rule2_edges plan bsc ids [] steps = ok steps
  apply_rule2_edges plan bsc ids (t ∷ ts) steps =
      rule2_elements bsc ids t plan.elements steps >>= apply_rule2_edges plan bsc ids ts
