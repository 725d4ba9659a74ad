-- ===== src/Plan/Reorder.antt =====
-- `TestPlan::axis` and `TestPlan::with_axes_reordered` of crates/paramodel-plan/src/plan.rs. The panic of
-- `expect` is `none`; an error has no text.
pub mod Orders
mod Examples
use hyperplane_rs.Prelude.{
  ℕ, ◌==◌, Bool, true, false, not, ◌&&◌, ◌||◌, Option, none, some, List, [], ◌∷◌, any, length,
  if◌then◌else◌, ◌>>=◌,
}
use hyperplane_rs.Prelude.IdSet.{mem, insert}
use hyperplane_rs.Prelude.Results.{Result, ok, err}
use hyperplane_rs.Plan.Axis.{Axis}
use hyperplane_rs.Plan.Elements.{TestPlan}

pub data OrderError : Type 0 where
  invalid_axis_order : OrderError

unfoldable pub axis_named : ℕ → List (Axis ℕ) → Option (Axis ℕ)
axis_named n [] = none
axis_named n (a ∷ axes) = if a.name == n then some a else axis_named n axes

-- The loop over the names of the order.
unfoldable pub order_accepted : List (Axis ℕ) → List ℕ → List ℕ → Bool
unfolding mem insert
order_accepted axes seen [] = true
order_accepted axes seen (n ∷ order) =
    let rest = order_accepted axes (insert n seen) order in
    if mem n seen then false else if any (λ a. a.name == n) axes then rest else false

unfoldable pub pick_axes : List (Axis ℕ) → List ℕ → Option (List (Axis ℕ))
unfolding axis_named
pick_axes axes [] = some []
pick_axes axes (n ∷ order) = do
  picked ← axis_named n axes
  rest ← pick_axes axes order
  some (picked ∷ rest)

unfoldable pub with_axes_reordered : TestPlan → List ℕ → ℕ → Option (Result OrderError TestPlan)
unfolding order_accepted pick_axes
with_axes_reordered plan order new_id =
    if not (length order == length plan.axes)
    then some (err invalid_axis_order)
    else if not (order_accepted plan.axes [] order)
    then some (err invalid_axis_order)
    else (do
      reordered ← pick_axes plan.axes order
      some (ok (record plan { id = new_id; axes = reordered })))
