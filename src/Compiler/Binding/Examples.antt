-- ===== src/Compiler/Binding/Examples.antt =====
-- The binding levels of small plans, a cycle of dependencies included.
use hyperplane_rs.Prelude.{ℕ, ◌≤◌, ◌≡◌, refl, true, List, [], ◌∷◌}
use hyperplane_rs.Prelude.IdSet.{mem, lookup, put}
use hyperplane_rs.Plan.Elements.{RelationshipType, shared, linear, lifeline, Element, TestPlan}
use hyperplane_rs.Plan.Elements.Samples.{plain, axis_on, plan_of}
use hyperplane_rs.Compiler.Binding.{
  level_of, compute, compute_effective_levels, same_group_for_elements,
}
use hyperplane_rs.Compiler.Binding.Upstream.{Upstream}
use hyperplane_rs.Compiler.Binding.Levels.{compute_effective_levels_greatest}

abbrev element : ℕ → RelationshipType → ℕ → Element
element name r target = plain name (record { target = target; relationship = r } ∷ [])

-- 1 has a shared dependency on 2, which has a linear one on 3, which has one on 1; 4 has a lifeline.
abbrev ring : List Element
ring = element 1 shared 2 ∷ element 2 linear 3 ∷ element 3 shared 1 ∷ element 4 lifeline 1 ∷ []

abbrev two_axes : TestPlan
two_axes = plan_of ring (axis_on 2 1 ∷ axis_on 2 2 ∷ axis_on 3 1 ∷ [])

own_levels_cumulate : (compute two_axes).own_levels ≡ (1, 0) ∷ (2, 2) ∷ (3, 3) ∷ (4, 3) ∷ []
unfolding compute put
own_levels_cumulate = refl

levels_go_round : (compute two_axes).effective_levels ≡ (1, 3) ∷ (2, 3) ∷ (3, 3) ∷ (4, 3) ∷ []
unfolding compute put lookup
levels_go_round = refl

same_group_in_ring : same_group_for_elements (compute two_axes) 1 3 ≡ true
unfolding compute put lookup same_group_for_elements
same_group_in_ring = refl

compute_effective_levels_greatest_example :
    ((y : ℕ)
      → Upstream ring 1 y
      → level_of y ((1, 0) ∷ (3, 5) ∷ [])
        ≤ level_of 1 (compute_effective_levels ring ((1, 0) ∷ (3, 5) ∷ [])))
    × ((y : ℕ) × Upstream ring 1 y
        × (level_of 1 (compute_effective_levels ring ((1, 0) ∷ (3, 5) ∷ []))
            ≡ level_of y ((1, 0) ∷ (3, 5) ∷ [])))
unfolding mem
compute_effective_levels_greatest_example =
    compute_effective_levels_greatest ring ((refl, (refl, (refl, (refl, tt)))))
      ((1, 0) ∷ (3, 5) ∷ []) 1
