-- ===== src/Compiler/Dedicated.antt =====
-- `apply_dedicated_materialisation` of crates/paramodel-compiler/src/compiler.rs.
use hyperplane_rs.Prelude.{
  ℕ, ◌+◌, ◌*◌, ◌==◌, Bool, true, false, ◌&&◌, Option, none, some, List, [], ◌∷◌, ◌++◌, length,
  if◌then◌else◌,
}
use hyperplane_rs.Prelude.Arith.{u32_clamp}
use hyperplane_rs.Prelude.Results.{Result, ok, err, ◌>>=◌}
use hyperplane_rs.Scheduler.State.{ResourceRequirements}
use hyperplane_rs.Plan.Elements.{
  RelationshipType, dedicated, Dependency, Element, TestPlan, find_element,
}
use hyperplane_rs.Plan.Step.{AtomicStep, deploy, teardown}
use hyperplane_rs.Enumerator.{offsets}
use hyperplane_rs.Compiler.Configuration.{Resolver, resolve_configuration}
use hyperplane_rs.Compiler.Diagnostics.{error, e001, dependency}
use hyperplane_rs.Compiler.Edges.{add_dependency}
use hyperplane_rs.Compiler.Ids.{Stop, rejected, StepFormats, or_internal, or_panic, StepIds}
use hyperplane_rs.Compiler.Expansion.{or_reject, enumerator_of, build_header}

-- An edge, and the slot of a target and an owner.
pub record ElementEdge : Type 0 where
  pub owner : ℕ
  pub target : ℕ

pub record Slot : Type 0 where
  pub slot_target : ℕ
  pub slot_owner : ℕ
  pub number : ℕ

unfoldable pub edges_to : (RelationshipType → Bool) → ℕ → List Dependency → List ElementEdge
edges_to p owner [] = []
edges_to p owner (d ∷ deps) =
    let rest = edges_to p owner deps in
    if p d.relationship then record { owner = owner; target = d.target } ∷ rest else rest

unfoldable pub is_dedicated : RelationshipType → Bool
is_dedicated dedicated = true
is_dedicated _ = false

unfoldable pub dedicated_edges : List Element → List ElementEdge
unfolding edges_to is_dedicated
dedicated_edges [] = []
dedicated_edges (e ∷ elements) =
    edges_to is_dedicated e.name e.dependencies ++ dedicated_edges elements

unfoldable pub slot_of : ℕ → ℕ → List Slot → Option ℕ
slot_of target owner [] = none
slot_of target owner (s ∷ slots) =
    if (target == s.slot_target) && (owner == s.slot_owner)
    then some s.number
    else slot_of target owner slots

-- `entry(..).or_insert(next)`.
unfoldable pub assign_slots : List ElementEdge → List Slot → List Slot
unfolding slot_of
assign_slots [] slots = slots
assign_slots (d ∷ edges) slots = assign_slots edges (elim (slot_of d.target d.owner slots) [
  | some n ↦ slots
  | none ↦
      slots
      ++ record { slot_target = d.target; slot_owner = d.owner; number = u32_clamp (length slots) }
        ∷ []
])

unfoldable pub dedicated_target : ElementEdge → TestPlan → Result Stop Element
unfolding find_element
dedicated_target d plan = elim (find_element d.target plan.elements) [
  | some e ↦ ok e
  | none ↦ err (rejected (error e001 (dependency d.owner d.target) ∷ []))
]

-- The saturating sums and the product of u32.
unfoldable pub dedicated_instance : ℕ → ℕ → ℕ → ℕ
dedicated_instance trial_count slot t = u32_clamp (
    u32_clamp (u32_clamp (u32_clamp trial_count + 1) + u32_clamp (slot * u32_clamp trial_count))
    + u32_clamp t)

module _ {F : Type 0} (none_required : ResourceRequirements F) (formats : StepFormats) where
  -- One turn of the inner loop.
  unfoldable pub dedicated_trial :
      TestPlan
      → Option Resolver
      → StepIds
      → ℕ
      → ℕ
      → ElementEdge
      → ℕ
      → List (AtomicStep F)
      → Result Stop (List (AtomicStep F))
  unfolding dedicated_target enumerator_of offsets resolve_configuration dedicated_instance
      add_dependency
  dedicated_trial plan resolver ids trial_count slot d t steps = do
    deploy_id ← or_internal (formats.activate_dedicated d.target d.owner t)
    teardown_id ← or_internal (formats.deactivate_dedicated d.target d.owner t)
    y ← dedicated_target d plan
    os ← or_panic (offsets (enumerator_of plan) t)
    resolved ← or_reject (resolve_configuration plan y os resolver)
    owner_teardown ← or_panic (ids.teardown_id_of d.owner t)
    owner_deploy ← or_panic (ids.deploy_id_of d.owner t)
    ok (
        add_dependency owner_deploy deploy_id (
          steps
          ++ deploy
              (build_header none_required deploy_id (formats.start_id ∷ []) (some (u32_clamp t)))
              d.target (dedicated_instance trial_count slot t) resolved y.max_concurrency
              y.max_group_concurrency (some d.owner)
            ∷ teardown
                (build_header none_required teardown_id (owner_teardown ∷ []) (some (u32_clamp t)))
                d.target (dedicated_instance trial_count slot t) false
            ∷ []))

  unfoldable pub dedicated_trials :
      TestPlan
      → Option Resolver
      → StepIds
      → ℕ
      → ℕ
      → ElementEdge
      → List ℕ
      → List (AtomicStep F)
      → Result Stop (List (AtomicStep F))
  unfolding dedicated_trial
  dedicated_trials plan resolver ids trial_count slot d [] steps = ok steps
  dedicated_trials plan resolver ids trial_count slot d (t ∷ ts) steps =
      dedicated_trial plan resolver ids trial_count slot d t steps
      >>= dedicated_trials plan resolver ids trial_count slot d ts

  unfoldable pub dedicated_from :
      TestPlan
      → Option Resolver
      → StepIds
      → ℕ
      → List ℕ
      → List Slot
      → List ElementEdge
      → List (AtomicStep F)
      → Result Stop (List (AtomicStep F))
  unfolding dedicated_trials slot_of
  dedicated_from plan resolver ids trial_count ts slots [] steps = ok steps
  dedicated_from plan resolver ids trial_count ts slots (d ∷ edges) steps = do
    slot ← or_panic (slot_of d.target d.owner slots)
    wired ← dedicated_trials plan resolver ids trial_count slot d ts steps
    dedicated_from plan resolver ids trial_count ts slots edges wired

  unfoldable pub apply_dedicated_materialisation :
      TestPlan
      → Option Resolver
      → StepIds
      → ℕ
      → List ℕ
      → List (AtomicStep F)
      → Result Stop (List (AtomicStep F))
  unfolding dedicated_edges assign_slots dedicated_from
  apply_dedicated_materialisation plan resolver ids trial_count ts steps =
      let edges = dedicated_edges plan.elements in
      dedicated_from plan resolver ids trial_count ts (assign_slots edges []) edges steps
