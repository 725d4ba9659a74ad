-- ===== src/Compiler/Lifeline/Roots.antt =====
-- `lifeline_root_of` against the chains of lifeline dependencies.
use hyperplane_rs.Prelude.{ℕ, zero, suc, ◌<◌, ◌≡◌, true, Option, none, some, List}
use hyperplane_rs.Prelude.IdSet.{mem}
use hyperplane_rs.Plan.Elements.{Element, find_element}
use hyperplane_rs.Compiler.Lifeline.{lifelined_to}

-- `x` is an element of the plan with the lifeline target `next`.
abbrev pub Links : List Element → ℕ → Option ℕ → Type 0
Links elements x next =
    (e : Element) × (find_element x elements ≡ some e) × (lifelined_to e.dependencies ≡ next)

-- `k` lifeline dependencies lead from `x` to `root`, an element of the plan that has none.
abbrev pub Chain : List Element → ℕ → ℕ → ℕ → Type 0
Chain elements root zero x = (x ≡ root) × Links elements x none
Chain elements root (suc k) x = (y : ℕ) × Links elements x (some y) × Chain elements root k y

module _ (elements : List Element) where
  -- The elements that were seen stand farther from the root.
  abbrev Farther : ℕ → ℕ → List ℕ → Type 0
  Farther root k seen = (y : ℕ) → mem y seen ≡ true → (j : ℕ) × (k < j) × Chain elements root j y
