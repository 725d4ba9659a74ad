-- ===== src/Plan/Validation.antt =====
-- `TestPlan::validate` of crates/paramodel-plan/src/plan.rs, with the policies of policies.rs. The kind
-- and the fingerprint of a value, which is a number here, are parameters.
pub mod WellFormed
pub mod Checks
pub mod Accepts
mod Examples
use hyperplane_rs.Prelude.{
  ℕ, zero, suc, ◌==◌, Bool, true, false, not, ◌&&◌, Option, none, some, List, [], ◌∷◌,
  if◌then◌else◌,
}
use hyperplane_rs.Prelude.IdSet.{mem, insert}
use hyperplane_rs.Prelude.Results.{Result, ok, err, ◌>>=◌, ◌>>◌}
use hyperplane_rs.Plan.Axis
use hyperplane_rs.Plan.Axis.{Axis}
use hyperplane_rs.Plan.Elements.{
  ValueKind, integer, double, boolean, string, selection, Parameter, Element, PlanBinding,
  RetryPolicy, ExecutionPolicies, TestPlan, find_element, find_parameter,
}

pub data PlanError : Type 0 where
  duplicate_element : (name : ℕ) → PlanError
  zero_max_attempts : PlanError
  invalid_axis : Axis.PlanError → PlanError
  duplicate_axis_name : (name : ℕ) → PlanError
  axis_target_element_not_found : (axis : ℕ) (element : ℕ) → PlanError
  axis_target_parameter_not_found : (axis : ℕ) (element : ℕ) (parameter : ℕ) → PlanError
  derived_parameter_cannot_be_axis : (axis : ℕ) (element : ℕ) (parameter : ℕ) → PlanError
  axis_value_kind_mismatch :
      (axis : ℕ) (index : ℕ) (expected : ValueKind) (actual : ValueKind) → PlanError
  duplicate_axis_target : (axis_a : ℕ) (axis_b : ℕ) (element : ℕ) (parameter : ℕ) → PlanError
  binding_target_element_not_found : (element : ℕ) → PlanError
  binding_target_parameter_not_found : (element : ℕ) (parameter : ℕ) → PlanError
  binding_overlaps_axis : (element : ℕ) (parameter : ℕ) (axis : ℕ) → PlanError

unfoldable pub same_kind : ValueKind → ValueKind → Bool
same_kind integer integer = true
same_kind double double = true
same_kind boolean boolean = true
same_kind string string = true
same_kind selection selection = true
same_kind _ _ = false

abbrev pub refuse_if : Bool → PlanError → Result PlanError (Unit {0})
refuse_if true e = err e
refuse_if false e = ok tt

-- `ok_or_else`.
abbrev pub or_refuse {ℓ} : {A : Type ℓ} → Option A → PlanError → Result PlanError A
or_refuse (some a) e = ok a
or_refuse none e = err e

unfoldable pub check_elements : List ℕ → List Element → Result PlanError (Unit {0})
unfolding mem insert
check_elements seen [] = ok tt
check_elements seen (e ∷ elements) =
    refuse_if (mem e.name seen) (duplicate_element e.name)
    >> check_elements (insert e.name seen) elements

-- `RetryPolicy::validate` and `ExecutionPolicies::validate`.
unfoldable pub check_retry : RetryPolicy → Result PlanError (Unit {0})
check_retry policy = refuse_if (policy.max_attempts == 0) zero_max_attempts

unfoldable pub check_policies : ExecutionPolicies → Result PlanError (Unit {0})
unfolding check_retry
check_policies policies =
    check_retry policies.trial_retry >> check_retry policies.element_deployment_retry

-- The map from the targets of the axes so far to their names.
pub record AxisTarget : Type 0 where
  pub element : ℕ
  pub parameter : ℕ
  pub axis : ℕ

unfoldable pub axis_at : ℕ → ℕ → List AxisTarget → Option ℕ
axis_at e p [] = none
axis_at e p (t ∷ targets) =
    if (t.element == e) && (t.parameter == p) then some t.axis else axis_at e p targets

abbrev pub of_axis : Axis.Result → Result PlanError (Unit {0})
of_axis Axis.ok = ok tt
of_axis (Axis.err e) = err (invalid_axis e)

abbrev pub refuse_prior : Option ℕ → (ℕ → PlanError) → Result PlanError (Unit {0})
refuse_prior none e = ok tt
refuse_prior (some prior) e = err (e prior)

module _ (kind_of : ℕ → ValueKind) (fingerprint : ℕ → ℕ) where
  unfoldable pub check_kinds : ℕ → ValueKind → ℕ → List ℕ → Result PlanError (Unit {0})
  unfolding same_kind
  check_kinds axis expected index [] = ok tt
  check_kinds axis expected index (v ∷ vs) =
      refuse_if (not (same_kind (kind_of v) expected))
        (axis_value_kind_mismatch axis index expected (kind_of v))
      >> check_kinds axis expected (suc index) vs

  -- An axis against the plan's elements.
  unfoldable pub check_target : List Element → Axis ℕ → Result PlanError (Unit {0})
  unfolding find_element check_kinds
  check_target elements a = do
    let e = a.target.element
    let p = a.target.parameter
    element ← or_refuse (find_element e elements) (axis_target_element_not_found a.name e)
    param ←
        or_refuse (find_parameter p element.parameters) (axis_target_parameter_not_found a.name e p)
    refuse_if param.is_derived (derived_parameter_cannot_be_axis a.name e p)
    check_kinds a.name param.kind 0 a.values

  -- The turn of an axis.
  unfoldable pub check_axis :
      List Element → List ℕ → List AxisTarget → Axis ℕ → Result PlanError (Unit {0})
  unfolding mem check_target axis_at Axis.validate
  check_axis elements names targets a = do
    of_axis (Axis.validate fingerprint a)
    refuse_if (mem a.name names) (duplicate_axis_name a.name)
    check_target elements a
    refuse_prior (axis_at a.target.element a.target.parameter targets)
        (λ prior. duplicate_axis_target prior a.name a.target.element a.target.parameter)

  unfoldable pub check_axes :
      List Element → List ℕ → List AxisTarget → List (Axis ℕ) → Result PlanError (List AxisTarget)
  unfolding insert check_axis
  check_axes elements names targets [] = ok targets
  check_axes elements names targets (a ∷ axes) =
      check_axis elements names targets a
      >> check_axes elements (insert a.name names)
          (record { element = a.target.element; parameter = a.target.parameter; axis = a.name }
            ∷ targets)
          axes

  unfoldable pub check_bindings :
      List Element → List AxisTarget → List PlanBinding → Result PlanError (Unit {0})
  unfolding find_element axis_at
  check_bindings elements targets [] = ok tt
  check_bindings elements targets (b ∷ bindings) = do
    element ←
        or_refuse (find_element b.element elements) (binding_target_element_not_found b.element)
    param ←
        or_refuse (find_parameter b.parameter element.parameters)
          (binding_target_parameter_not_found b.element b.parameter)
    refuse_prior (axis_at b.element b.parameter targets)
        (binding_overlaps_axis b.element b.parameter)
    check_bindings elements targets bindings

  unfoldable pub validate : TestPlan → Result PlanError (Unit {0})
  unfolding check_elements check_policies check_axes check_bindings
  validate plan = do
    check_elements [] plan.elements
    check_policies plan.policies
    targets ← check_axes plan.elements [] [] plan.axes
    check_bindings plan.elements targets plan.bindings
