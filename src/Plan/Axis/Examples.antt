-- ===== src/Plan/Axis/Examples.antt =====
-- Axes over numbers, each its own fingerprint.
use hyperplane_rs.Prelude.{ℕ, ◌≡◌, ◌≢◌, ◌↔◌, refl, false, Option, none, some, List, [], ◌∷◌}
use hyperplane_rs.Plan.Axis.{
  Axis, ok, err, axis_duplicate_value, axis_boundary_not_subset, contains, index_of,
  effective_boundary_values, validate,
}
use hyperplane_rs.Plan.Axis.Laws.{AreDistinct, Bounds, FirstAt, validate_iff, index_of-FirstAt}

abbrev itself : ℕ → ℕ
itself v = v

abbrev threads : List ℕ → Option (List ℕ) → Axis ℕ
threads values bounds = record {
  name = 8;
  target = record { element = 3; parameter = 8 };
  values = values;
  boundary_values = bounds;
}

duplicate : validate itself (threads (1 ∷ 2 ∷ 1 ∷ []) none) ≡ err (axis_duplicate_value 8)
unfolding validate
duplicate = refl

outside : validate itself (threads (1 ∷ 2 ∷ []) (some (3 ∷ []))) ≡ err (axis_boundary_not_subset 8)
unfolding validate
outside = refl

ends_of_four : effective_boundary_values itself (threads (1 ∷ 2 ∷ 4 ∷ []) none) ≡ 1 ∷ 4 ∷ []
unfolding effective_boundary_values
ends_of_four = refl

ends_of_one : effective_boundary_values itself (threads (1 ∷ []) none) ≡ 1 ∷ []
unfolding effective_boundary_values
ends_of_one = refl

abbrev two : Axis ℕ
two = threads (1 ∷ 2 ∷ []) (some (2 ∷ []))

validate_iff_example : (validate itself two ≡ ok) ↔ (
    (two.values ≢ [])
    × AreDistinct itself two.values
    × Bounds itself two.values two.boundary_values)
validate_iff_example = validate_iff itself two

index_of-FirstAt_example :
    ((i : ℕ) → (index_of itself two 2 ≡ some i) ↔ FirstAt itself 2 two.values i)
    × ((index_of itself two 2 ≡ none) ↔ (contains itself two 2 ≡ false))
index_of-FirstAt_example = index_of-FirstAt itself two 2
