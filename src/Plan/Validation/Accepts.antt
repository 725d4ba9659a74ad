-- ===== src/Plan/Validation/Accepts.antt =====
-- `TestPlan::validate` accepts exactly the well formed plans.
use hyperplane_rs.Prelude.{
  ℕ, ◌≡◌, ◌↔◌, refl, sym, ap, ap₂, ◌∙◌, Bool, true, false, not, ◌&&◌, Option, List, [], ◌∷◌, all,
  Option-cases, inl, inr, arith,
}
use hyperplane_rs.Prelude.IdSet.{mem}
use hyperplane_rs.Prelude.Results.{ok, ◌>>=◌, Result-cases}
use hyperplane_rs.Plan.Axis.{Axis}
use hyperplane_rs.Plan.Elements.{
  ValueKind, Element, PlanBinding, TestPlan, find_element, find_parameter, names,
}
use hyperplane_rs.Plan.Validation.{
  binding_overlaps_axis, AxisTarget, axis_at, check_axes, check_bindings, validate,
}
use hyperplane_rs.Plan.Validation.WellFormed.{
  accepts, is_some, distinct, attempts_some, is_target, targets_distinct, parameter_of,
  parameter_at, axis_fits, axis_names, binding_fits, is_well_formed,
}
use hyperplane_rs.Plan.Validation.Checks.{
  accepts->>, accepts-refuse_prior, fresh, unclaimed, check_elements_lem, check_policies_lem,
  check_axes_lem, check_axes-targets,
}

module _ (kind_of : ℕ → ValueKind) (fingerprint : ℕ → ℕ) where
  check_bindings_lem :
      (elements : List Element) (targets : List AxisTarget) (axes : List (Axis ℕ))
      (bindings : List PlanBinding)
      → ((e p : ℕ) → is_some (axis_at e p targets) ≡ is_target e p axes)
      → accepts (check_bindings kind_of fingerprint elements targets bindings)
        ≡ all (binding_fits kind_of fingerprint elements axes) bindings
  unfolding check_bindings
  check_bindings_lem elements targets axes [] same = refl
  check_bindings_lem elements targets axes (b ∷ bindings) same =
      let rest = check_bindings_lem elements targets axes bindings same in
      let later : Bool =
        not (is_target b.element b.parameter axes)
        && all (binding_fits kind_of fingerprint elements axes) bindings in
      let asks : Option Element → Bool = λ o. is_some (parameter_of b.parameter o) && later in
      let goal : Bool =
        accepts (check_bindings kind_of fingerprint elements targets (b ∷ bindings)) in
      let done : (goal ≡ (is_some (parameter_at elements b.element b.parameter) && later)) =
        elim (Option-cases (find_element b.element elements)) [
          | inl gone ↦
              let refused : goal ≡ false = rw (gone, check_bindings) refl in
              refused ∙ sym (ap asks gone)
          | inr (e, is) ↦ elim (Option-cases (find_parameter b.parameter e.parameters)) [
            | inl gone ↦
                let refused : goal ≡ false = rw (is, gone, check_bindings) refl in
                refused ∙ sym (ap asks is ∙ ap (λ o. is_some o && later) gone)
            | inr (q, found) ↦
                let checked : goal ≡ later =
                  rw (is, found, check_bindings)
                    (accepts->> _ _
                      ∙ ap₂ (◌&&◌)
                          (accepts-refuse_prior (axis_at b.element b.parameter targets)
                              (binding_overlaps_axis b.element b.parameter)
                            ∙ ap not (same b.element b.parameter))
                          rest) in
                checked ∙ sym (ap asks is ∙ ap (λ o. is_some o && later) found)
          ]
        ] in
      done ∙ ground arith

  no_names : (xs : List ℕ) → fresh [] xs ≡ true
  unfolding mem
  no_names [] = refl
  no_names (x ∷ xs) = no_names xs

  no_targets : (axes : List (Axis ℕ)) → unclaimed [] axes ≡ true
  unfolding axis_at
  no_targets [] = refl
  no_targets (a ∷ axes) = no_targets axes

  drop_true : (d t p a b : Bool) → t ≡ true → ((d && t) && (p && (a && b))) ≡ (d && p && a && b)
  drop_true d t p a b h = ground arith

  check_plan_lem :
      (plan : TestPlan)
      → accepts (
          check_axes kind_of fingerprint plan.elements [] [] plan.axes >>= λ targets.
          check_bindings kind_of fingerprint plan.elements targets plan.bindings)
        ≡ ((all (axis_fits kind_of fingerprint plan.elements) plan.axes
              && distinct (axis_names plan.axes)
              && targets_distinct plan.axes)
            && all (binding_fits kind_of fingerprint plan.elements plan.axes) plan.bindings)
  unfolding axis_at
  check_plan_lem plan =
      let left = check_axes_lem kind_of fingerprint plan.elements [] [] plan.axes in
      elim (Result-cases (check_axes kind_of fingerprint plan.elements [] [] plan.axes)) [
        | inr (e, wrong) ↦
            let refused = rw wrong at left in
            rw wrong (ground (arith, no_names (axis_names plan.axes), no_targets plan.axes))
        | inl (out, right) ↦
            let fits = rw right at left in
            let bindings = check_bindings_lem plan.elements out plan.axes plan.bindings (λ e p.
              check_axes-targets kind_of fingerprint e p plan.elements [] [] out plan.axes right) in
            rw right
              (bindings ∙ ground (arith, no_names (axis_names plan.axes), no_targets plan.axes))
      ]

  validate_lem :
      (plan : TestPlan)
      → accepts (validate kind_of fingerprint plan) ≡ is_well_formed kind_of fingerprint plan
  unfolding validate
  validate_lem plan =
      accepts->> _ _
      ∙ ap₂ (◌&&◌) (check_elements_lem [] plan.elements)
          (accepts->> _ _ ∙ ap₂ (◌&&◌) (check_policies_lem plan.policies) (check_plan_lem plan))
      ∙ drop_true (distinct (names plan.elements)) _ (attempts_some plan.policies) _ _
          (no_names (names plan.elements))

  -- `TestPlan::validate` accepts a plan exactly when its elements have distinct names, both retry
  -- policies have an attempt, every axis is valid on its own and varies a parameter of the plan that
  -- is not derived, over values of its kind, the axes have distinct names and distinct targets, and
  -- every binding is of a parameter of the plan that no axis varies.
  pub validate_plan_iff :
      (plan : TestPlan)
      → (validate kind_of fingerprint plan ≡ ok tt)
        ↔ (is_well_formed kind_of fingerprint plan ≡ true)
  validate_plan_iff plan = elim (Result-cases (validate kind_of fingerprint plan)) [
    | inl (tt, right) ↦ (λ h. sym (validate_lem plan) ∙ ap accepts right, λ w. right)
    | inr (e, wrong) ↦ (
      λ h. let clash = sym wrong ∙ h in cc,
      λ w. let clash = sym (ap accepts wrong) ∙ validate_lem plan ∙ w in cc,
    )
  ]
