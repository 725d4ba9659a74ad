-- ===== src/Compiler/Trials.antt =====
-- crates/paramodel-compiler/src/trial_element.rs: the elements that make up a trial.
pub mod Selection
mod Examples
use hyperplane_rs.Prelude.{
  ℕ, ◌==◌, ltb, Bool, true, false, not, ◌&&◌, ◌||◌, Option, none, some, List, [], ◌∷◌, any,
  if◌then◌else◌,
}
use hyperplane_rs.Prelude.IdSet.{mem, insert, remove, union}
use hyperplane_rs.Plan.Axis.{Axis}
use hyperplane_rs.Plan.Elements.{Dependency, Element, TestPlan}
use hyperplane_rs.Compiler.Binding.{BindingStateComputer, own_level, effective_level}

-- The names of the elements that pass a test.
unfoldable pub collect_names : (Element → Bool) → List Element → List ℕ
unfolding insert
collect_names p [] = []
collect_names p (e ∷ elements) =
    let rest = collect_names p elements in if p e then insert e.name rest else rest

unfoldable pub is_forced : Bool → Option Bool → Bool
is_forced b none = false
is_forced true (some m) = m
is_forced false (some m) = not m

unfoldable pub insert_targets : List Dependency → List ℕ → List ℕ
unfolding insert
insert_targets [] s = s
insert_targets (d ∷ deps) s = insert_targets deps (insert d.target s)

-- The targets of the elements that pass a test.
unfoldable pub targets_of : (Element → Bool) → List Element → List ℕ → List ℕ
unfolding insert_targets
targets_of p [] s = s
targets_of p (e ∷ elements) s =
    targets_of p elements (if p e then insert_targets e.dependencies s else s)

unfoldable pub has_trial_axis : BindingStateComputer → List (Axis ℕ) → Bool
unfolding own_level
has_trial_axis bsc axes = any (λ a. ltb 0 (own_level bsc a.target.element)) axes

unfoldable pub has_deps : List Dependency → Bool
has_deps [] = false
has_deps (d ∷ deps) = true

unfoldable pub candidate_pool : TestPlan → BindingStateComputer → List ℕ
unfolding collect_names has_trial_axis effective_level has_deps targets_of mem
candidate_pool plan bsc =
    if has_trial_axis bsc plan.axes
    then collect_names (λ e. ltb 0 (effective_level bsc e.name)) plan.elements
    else let incoming = targets_of (λ e. true) plan.elements [] in
      collect_names (λ e. has_deps e.dependencies || mem e.name incoming) plan.elements

-- `filter(|name| !depended_on.contains(name))`.
unfoldable pub without : List ℕ → List ℕ → List ℕ
unfolding mem
without set [] = []
without set (x ∷ xs) = let rest = without set xs in if mem x set then rest else x ∷ rest

unfoldable pub remove_all : List ℕ → List ℕ → List ℕ
unfolding remove
remove_all [] out = out
remove_all (f ∷ fs) out = remove_all fs (remove f out)

unfoldable pub identify_trial_elements : TestPlan → BindingStateComputer → List ℕ
unfolding collect_names is_forced candidate_pool targets_of without union remove_all mem
identify_trial_elements plan bsc =
    let forced_on = collect_names (λ e. is_forced true e.trial_element) plan.elements in
    let forced_off = collect_names (λ e. is_forced false e.trial_element) plan.elements in
    let pool = candidate_pool plan bsc in
    let depended_on = targets_of (λ e. mem e.name pool) plan.elements [] in
    remove_all forced_off (union (without depended_on pool) forced_on)
