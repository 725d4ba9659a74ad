-- ===== src/Compiler/Exclusive.antt =====
-- `apply_exclusive_serialisation` and `apply_exclusive_rerouting` of
-- crates/paramodel-compiler/src/compiler.rs.
use hyperplane_rs.Prelude.{
  ℕ, ◌+◌, ◌-◌, Bool, true, false, ◌&&◌, none, some, List, [], ◌∷◌, ◌++◌, length, any, ltb,
  if◌then◌else◌,
}
use hyperplane_rs.Prelude.IdSet.{mem, insert, lookup, put}
use hyperplane_rs.Prelude.Results.{Result, ok, ◌>>=◌}
use hyperplane_rs.Plan.Elements.{RelationshipType, exclusive, Element, TestPlan}
use hyperplane_rs.Plan.Step.{AtomicStep}
use hyperplane_rs.Plan.Graph.{ids}
use hyperplane_rs.Compiler.Diagnostics.{CompilationDiagnostic, error, w002, element}
use hyperplane_rs.Compiler.Edges.{add_dependency, remove_dependency}
use hyperplane_rs.Compiler.Ids.{Stop, StepFormats, or_panic, StepIds, range_from}
use hyperplane_rs.Compiler.Dedicated.{ElementEdge, edges_to}

unfoldable pub is_exclusive : RelationshipType → Bool
is_exclusive exclusive = true
is_exclusive _ = false

unfoldable pub exclusive_edges : List Element → List ElementEdge
unfolding edges_to is_exclusive
exclusive_edges [] = []
exclusive_edges (e ∷ elements) =
    edges_to is_exclusive e.name e.dependencies ++ exclusive_edges elements

-- The dependents of each target.
unfoldable pub by_target : List ElementEdge → List (ℕ × List ℕ) → List (ℕ × List ℕ)
unfolding insert lookup put
by_target [] m = m
by_target (d ∷ edges) m =
    by_target edges
      (put d.target (insert d.owner (elim (lookup d.target m) [ none ↦ [] | some s ↦ s ])) m)

unfoldable pub collisions : List (ℕ × List ℕ) → List CompilationDiagnostic
collisions [] = []
collisions ((y, dependents) ∷ m) =
    let rest = collisions m in
    if ltb 1 (length dependents) then error w002 (element y) ∷ rest else rest

-- A trial element with an exclusive dependency.
unfoldable pub is_rerouted : List ℕ → Element → Bool
unfolding is_exclusive mem
is_rerouted trial_elements e =
    mem e.name trial_elements && any (λ d. is_exclusive d.relationship) e.dependencies

module _ {F : Type 0} where
  -- The edges of an exclusive dependency in a trial.
  unfoldable pub exclusive_trials :
      StepIds → ElementEdge → List ℕ → List (AtomicStep F) → Result Stop (List (AtomicStep F))
  unfolding add_dependency
  exclusive_trials m d [] steps = ok steps
  exclusive_trials m d (t ∷ ts) steps = do
    x_deploy ← or_panic (m.deploy_id_of d.owner t)
    y_deploy ← or_panic (m.deploy_id_of d.target t)
    x_teardown ← or_panic (m.teardown_id_of d.owner t)
    y_teardown ← or_panic (m.teardown_id_of d.target t)
    exclusive_trials m d ts
        (add_dependency y_teardown x_teardown (add_dependency x_deploy y_deploy steps))

  unfoldable pub exclusive_all :
      StepIds → List ℕ → List ElementEdge → List (AtomicStep F) → Result Stop (List (AtomicStep F))
  unfolding exclusive_trials
  exclusive_all m ts [] steps = ok steps
  exclusive_all m ts (d ∷ edges) steps = exclusive_trials m d ts steps >>= exclusive_all m ts edges

  -- The edges between consecutive trials, over the indices of the earlier ones.
  unfoldable pub serialise_trials :
      StepIds → ℕ → List ℕ → List (AtomicStep F) → Result Stop (List (AtomicStep F))
  unfolding add_dependency
  serialise_trials m x [] steps = ok steps
  serialise_trials m x (t ∷ ts) steps = do
    x_teardown ← or_panic (m.teardown_id_of x t)
    x_deploy_next ← or_panic (m.deploy_id_of x (t + 1))
    serialise_trials m x ts (add_dependency x_deploy_next x_teardown steps)

  unfoldable pub serialise_all :
      StepIds → List ℕ → List ElementEdge → List (AtomicStep F) → Result Stop (List (AtomicStep F))
  unfolding serialise_trials
  serialise_all m ts [] steps = ok steps
  serialise_all m ts (d ∷ edges) steps =
      serialise_trials m d.owner ts steps >>= serialise_all m ts edges

  -- The steps, and the warnings.
  unfoldable pub apply_exclusive_serialisation :
      TestPlan
      → StepIds
      → ℕ
      → List (AtomicStep F)
      → Result Stop (List (AtomicStep F) × List CompilationDiagnostic)
  unfolding exclusive_edges exclusive_all serialise_all by_target collisions range_from
  apply_exclusive_serialisation plan m trial_count steps = do
    let edges = exclusive_edges plan.elements
    shared_edges ← exclusive_all m (range_from trial_count 0) edges steps
    serialised ← serialise_all m (range_from (trial_count - 1) 0) edges shared_edges
    ok (serialised, collisions (by_target edges []))

  -- The bridge from the end of a trial to the start of the next.
  unfoldable pub bridge : StepFormats → List ℕ → List ℕ → List (AtomicStep F) → List (AtomicStep F)
  unfolding add_dependency mem
  bridge formats live [] steps = steps
  bridge formats live (i ∷ is) steps = bridge formats live is (elim (formats.notify_trial_end i) [
    | none ↦ steps
    | some end_id ↦ elim (formats.notify_trial_start (i + 1)) [
      | none ↦ steps
      | some start_id ↦
          if mem end_id live && mem start_id live
          then add_dependency start_id end_id steps
          else steps
    ]
  ])

  unfoldable pub unserialise_trials :
      StepIds → ℕ → List ℕ → List (AtomicStep F) → Result Stop (List (AtomicStep F))
  unfolding remove_dependency
  unserialise_trials m x [] steps = ok steps
  unserialise_trials m x (i ∷ is) steps = do
    from_teardown ← or_panic (m.teardown_id_of x i)
    to_deploy ← or_panic (m.deploy_id_of x (i + 1))
    unserialise_trials m x is (remove_dependency to_deploy from_teardown steps)

  unfoldable pub unserialise :
      StepIds
      → List ℕ
      → List ℕ
      → List Element
      → List (AtomicStep F)
      → Result Stop (List (AtomicStep F))
  unfolding unserialise_trials is_rerouted
  unserialise m trial_elements is [] steps = ok steps
  unserialise m trial_elements is (e ∷ elements) steps =
      (if is_rerouted trial_elements e then unserialise_trials m e.name is steps else ok steps)
      >>= unserialise m trial_elements is elements

  unfoldable pub apply_exclusive_rerouting :
      StepFormats
      → TestPlan
      → StepIds
      → ℕ
      → List ℕ
      → List (AtomicStep F)
      → Result Stop (List (AtomicStep F))
  unfolding is_rerouted bridge unserialise range_from
  apply_exclusive_rerouting formats plan m trial_count trial_elements steps =
      let is = range_from (trial_count - 1) 0 in
      if any (is_rerouted trial_elements) plan.elements
      then unserialise m trial_elements is plan.elements (bridge formats (ids steps) is steps)
      else ok steps
