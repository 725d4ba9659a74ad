-- ===== src/Compiler/Lifeline/Examples.antt =====
-- A chain of lifelines, and a cycle.
use hyperplane_rs.Prelude.{ℕ, ◌≡◌, refl, none, some, List, [], ◌∷◌}
use hyperplane_rs.Prelude.IdSet.{mem, insert}
use hyperplane_rs.Plan.Elements.{shared, lifeline, Element}
use hyperplane_rs.Plan.Elements.Samples.{plain}
use hyperplane_rs.Compiler.Lifeline.{lifeline_root_of}

abbrev lives_by : ℕ → ℕ → Element
lives_by x y = plain x (
    record { target = 9; relationship = shared }
    ∷ record { target = y; relationship = lifeline }
    ∷ [])

abbrev chained : List Element
chained = lives_by 1 2 ∷ lives_by 2 3 ∷ plain 3 [] ∷ lives_by 4 5 ∷ lives_by 5 4 ∷ []

root_of_one : lifeline_root_of chained 1 ≡ some (some 3)
unfolding lifeline_root_of mem insert
root_of_one = refl

root_of_cycle : lifeline_root_of chained 4 ≡ some none
unfolding lifeline_root_of mem insert
root_of_cycle = refl
