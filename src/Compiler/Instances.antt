-- ===== src/Compiler/Instances.antt =====
-- `build_trivial_instance_graph` of crates/paramodel-compiler/src/compiler.rs. An instance id is the
-- pair of an element and a number, from which `InstanceId::from_parts` makes its text.
use hyperplane_rs.Prelude.{ℕ, ◌==◌, Bool, true, false, List, [], ◌∷◌, ◌++◌, if◌then◌else◌}
use hyperplane_rs.Prelude.Arith.{u32_clamp}
use hyperplane_rs.Prelude.IdSet.{mem}
use hyperplane_rs.Prelude.Results.{Result, ok, ◌>>=◌}
use hyperplane_rs.Plan.Elements.{
  RelationshipType, shared, exclusive, dedicated, linear, lifeline, Dependency, Element, TestPlan,
}
use hyperplane_rs.Enumerator.{MixedRadixEnumerator, offsets, trial_code}
use hyperplane_rs.Compiler.Binding.{BindingStateComputer, effective_level}
use hyperplane_rs.Compiler.Configuration.{resolve_bindings_map}
use hyperplane_rs.Compiler.Ids.{Stop, or_panic}

pub data InstanceScope : Type 0 where
  study trial invocation : InstanceScope

pub record ElementInstance : Type 0 where
  pub element : ℕ
  pub instance_number : ℕ
  pub bindings : List (ℕ × ℕ)
  pub group_level : ℕ
  pub trial_code : List ℕ
  pub scope : InstanceScope

pub record InstanceDependency : Type 0 where
  pub source : ℕ × ℕ
  pub target : ℕ × ℕ
  pub relationship : RelationshipType

pub record ElementInstanceGraph : Type 0 where
  pub instances : List ElementInstance
  pub edges : List InstanceDependency

unfoldable pub scope_of : BindingStateComputer → List ℕ → ℕ → InstanceScope
unfolding effective_level mem
scope_of bsc trial_elements e =
    if mem e trial_elements then trial else if effective_level bsc e == 0 then study else trial

unfoldable pub instances_at :
    TestPlan
    → BindingStateComputer
    → List ℕ
    → ℕ
    → List ℕ
    → List ℕ
    → List Element
    → List ElementInstance
unfolding scope_of resolve_bindings_map
instances_at plan bsc trial_elements t os code [] = []
instances_at plan bsc trial_elements t os code (e ∷ elements) =
    record {
      element = e.name;
      instance_number = u32_clamp t;
      bindings = resolve_bindings_map plan e os;
      group_level = 0;
      trial_code = code;
      scope = scope_of bsc trial_elements e.name;
    }
    ∷ instances_at plan bsc trial_elements t os code elements

unfoldable pub links_instances : RelationshipType → Bool
links_instances shared = true
links_instances linear = true
links_instances lifeline = true
links_instances dedicated = false
links_instances exclusive = false

unfoldable pub instance_edges : ℕ → ℕ → List Dependency → List InstanceDependency
unfolding links_instances
instance_edges e n [] = []
instance_edges e n (d ∷ deps) =
    let rest = instance_edges e n deps in
    if links_instances d.relationship
    then record { source = (e, n); target = (d.target, n); relationship = d.relationship } ∷ rest
    else rest

unfoldable pub edges_at : ℕ → List Element → List InstanceDependency
unfolding instance_edges
edges_at t [] = []
edges_at t (e ∷ elements) =
    instance_edges e.name (u32_clamp t) e.dependencies ++ edges_at t elements

unfoldable pub build_from :
    TestPlan
    → MixedRadixEnumerator
    → BindingStateComputer
    → List ℕ
    → List ℕ
    → ElementInstanceGraph
    → Result Stop ElementInstanceGraph
unfolding offsets trial_code instances_at edges_at
build_from plan enumerator bsc trial_elements [] g = ok g
build_from plan enumerator bsc trial_elements (t ∷ ts) g = do
  os ← or_panic (offsets enumerator t)
  code ← or_panic (trial_code enumerator t)
  build_from plan enumerator bsc trial_elements ts (record {
    instances = g.instances ++ instances_at plan bsc trial_elements t os code plan.elements;
    edges = g.edges ++ edges_at t plan.elements;
  })

unfoldable pub build_trivial_instance_graph :
    TestPlan
    → List ℕ
    → MixedRadixEnumerator
    → BindingStateComputer
    → List ℕ
    → Result Stop ElementInstanceGraph
unfolding build_from
build_trivial_instance_graph plan ts enumerator bsc trial_elements =
    build_from plan enumerator bsc trial_elements ts (record { instances = []; edges = [] })
