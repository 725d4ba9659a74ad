-- ===== src/Plan/Elements.antt =====
-- What the compiler and the validation of a plan read of it: crates/paramodel-elements/src/dependency.rs,
-- element.rs, lifecycle.rs, parameter.rs and configuration.rs, and crates/paramodel-plan/src/plan.rs,
-- bindings.rs and policies.rs. A name, a value and a token's key is a number that stands for it. Of a
-- parameter the name, the default, the kind and whether it is derived are kept, of a retry policy the
-- number of attempts, of a token expression the key that `as_single_key` gives, of a health check that
-- there is one.
pub mod Samples
use hyperplane_rs.Plan.Axis.{Axis}
use hyperplane_rs.Prelude.{
  ℕ, Bool, Option, List, map, ◌&&◌, ◌==◌, none, some, [], ◌∷◌, if◌then◌else◌,
}

pub data RelationshipType : Type 0 where
  shared exclusive dedicated linear lifeline : RelationshipType

pub record Dependency : Type 0 where
  pub target : ℕ
  pub relationship : RelationshipType

pub data ShutdownSemantics : Type 0 where
  service command : ShutdownSemantics

pub data ConfigEntry : Type 0 where
  literal : ℕ → ConfigEntry
  token : Option ℕ → ConfigEntry

pub data ValueKind : Type 0 where
  integer double boolean string selection : ValueKind

pub record Parameter : Type 0 where
  pub name : ℕ
  pub default_value : Option ℕ
  pub kind : ValueKind
  pub is_derived : Bool

pub record Element : Type 0 where
  pub name : ℕ
  pub parameters : List Parameter
  pub configuration : List (ℕ × ConfigEntry)
  pub dependencies : List Dependency
  pub has_health_check : Bool
  pub shutdown_semantics : ShutdownSemantics
  pub trial_element : Option Bool
  pub max_concurrency : Option ℕ
  pub max_group_concurrency : Option ℕ

pub record PlanBinding : Type 0 where
  pub element : ℕ
  pub parameter : ℕ
  pub entry : ConfigEntry

pub data TrialOrdering : Type 0 where
  sequential edge_first dependency_optimized cost_optimized : TrialOrdering
  shuffled : ℕ → TrialOrdering
  custom : ℕ → TrialOrdering

pub record RetryPolicy : Type 0 where
  pub max_attempts : ℕ

pub record ExecutionPolicies : Type 0 where
  pub trial_retry : RetryPolicy
  pub element_deployment_retry : RetryPolicy

pub record TestPlan : Type 0 where
  pub id : ℕ
  pub elements : List Element
  pub axes : List (Axis ℕ)
  pub bindings : List PlanBinding
  pub policies : ExecutionPolicies
  pub trial_ordering : TrialOrdering

-- `find_parameter`.
abbrev pub find_parameter : ℕ → List Parameter → Option Parameter
find_parameter x [] = none
find_parameter x (p ∷ ps) = if x == p.name then some p else find_parameter x ps

abbrev pub names : List Element → List ℕ
names = map (λ e. e.name)

-- `iter().find(|e| &e.name == name)`.
unfoldable pub find_element : ℕ → List Element → Option Element
find_element x [] = none
find_element x (e ∷ elements) = if x == e.name then some e else find_element x elements

-- `PlanBindings::get`.
unfoldable pub binding : ℕ → ℕ → List PlanBinding → Option ConfigEntry
binding e p [] = none
binding e p (b ∷ bindings) =
    if (e == b.element) && (p == b.parameter) then some b.entry else binding e p bindings
