-- ===== src/Plan/Validation/Examples.antt =====
-- Plans of the tests in crates/paramodel-plan/src/plan.rs.
use hyperplane_rs.Prelude.{ℕ, ◌≡◌, ◌↔◌, refl, true, [], ◌∷◌}
use hyperplane_rs.Prelude.IdSet.{mem, insert}
use hyperplane_rs.Prelude.Results.{ok, err}
use hyperplane_rs.Plan.Elements.{ValueKind, integer, string, literal, TestPlan}
use hyperplane_rs.Plan.Elements.Samples.{plain, axis_on, plan_of}
use hyperplane_rs.Plan.Validation.{
  axis_value_kind_mismatch, duplicate_axis_target, binding_overlaps_axis, check_elements,
  check_policies, check_axes, check_bindings, validate,
}
use hyperplane_rs.Plan.Validation.WellFormed.{is_well_formed}
use hyperplane_rs.Plan.Validation.Accepts.{validate_plan_iff}

abbrev kind_of : ℕ → ValueKind
kind_of v = integer

abbrev hash_of : ℕ → ℕ
hash_of v = v

abbrev two_axes : TestPlan
two_axes = plan_of (plain 1 [] ∷ plain 2 [] ∷ []) (axis_on 1 1 ∷ axis_on 2 1 ∷ [])

unfoldable validator : Unit {0}
unfolding validate check_elements check_policies check_axes check_bindings mem insert
validator = tt

one_target_twice :
    validate kind_of hash_of
      (plan_of (plain 1 [] ∷ []) (axis_on 1 1 ∷ record (axis_on 1 1) { name = 9 } ∷ []))
    ≡ err (duplicate_axis_target 11 9 1 1)
unfolding validator
one_target_twice = refl

other_kind :
    validate (λ v. string) hash_of two_axes ≡ err (axis_value_kind_mismatch 11 0 integer string)
unfolding validator
other_kind = refl

bound_twice :
    validate kind_of hash_of
      (record two_axes { bindings = record { element = 2; parameter = 1; entry = literal 5 } ∷ [] })
    ≡ err (binding_overlaps_axis 2 1 21)
unfolding validator
bound_twice = refl

validate_plan_iff_example :
    (validate kind_of hash_of two_axes ≡ ok tt) ↔ (is_well_formed kind_of hash_of two_axes ≡ true)
validate_plan_iff_example = validate_plan_iff kind_of hash_of two_axes
