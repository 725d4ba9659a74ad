-- ===== src/Plan/Reorder/Examples.antt =====
-- Reordering the two axes of a plan.
use hyperplane_rs.Prelude.{ℕ, ◌≡◌, ◌⊎◌, refl, true, false, some, List, [], ◌∷◌}
use hyperplane_rs.Prelude.IdSet.{mem, insert}
use hyperplane_rs.Prelude.Results.{ok, err}
use hyperplane_rs.Plan.Axis.{Axis}
use hyperplane_rs.Plan.Elements.{TestPlan}
use hyperplane_rs.Plan.Elements.Samples.{plain, axis_on, plan_of}
use hyperplane_rs.Plan.Validation.WellFormed.{axis_names}
use hyperplane_rs.Plan.Reorder.{invalid_axis_order, axis_named, with_axes_reordered}
use hyperplane_rs.Plan.Reorder.Orders.{is_order, with_axes_reordered_cases}

abbrev two_axes : TestPlan
two_axes = plan_of (plain 1 [] ∷ plain 2 [] ∷ []) (axis_on 1 1 ∷ axis_on 2 1 ∷ [])

name_twice : with_axes_reordered two_axes (11 ∷ 11 ∷ []) 6 ≡ some (err invalid_axis_order)
unfolding with_axes_reordered mem insert
name_twice = refl

with_axes_reordered_cases_example :
    ((is_order two_axes.axes (21 ∷ 11 ∷ []) ≡ true)
      × (axes : List (Axis ℕ)) × (with_axes_reordered two_axes (21 ∷ 11 ∷ []) 6
          ≡ some (ok (record two_axes { id = 6; axes = axes })))
      × (axis_names axes ≡ 21 ∷ 11 ∷ [])
      × ((n : ℕ) → axis_named n axes ≡ axis_named n two_axes.axes))
    ⊎ ((is_order two_axes.axes (21 ∷ 11 ∷ []) ≡ false)
        × (with_axes_reordered two_axes (21 ∷ 11 ∷ []) 6 ≡ some (err invalid_axis_order)))
with_axes_reordered_cases_example = with_axes_reordered_cases two_axes (21 ∷ 11 ∷ []) 6
