-- ===== src/Compiler/Reduction/Examples.antt =====
-- The passes over dependencies at the diamond of `Plan.Samples`.
use hyperplane_rs.Prelude.{ℕ, ◌≡◌, ◌↔◌, refl, true, Option, none, some, List, [], ◌∷◌, map}
use hyperplane_rs.Prelude.IdSet.{mem}
use hyperplane_rs.Plan.Step.{AtomicStep, depends_on}
use hyperplane_rs.Plan.Graph.{ids}
use hyperplane_rs.Plan.Graph.Relax.{deps_at}
use hyperplane_rs.Plan.Samples.{program, diamond}
use hyperplane_rs.Plan.Graph.Examples.{diamond-IsDag}
use hyperplane_rs.Compiler.Reduction.{apply_transitive_reduction}
use hyperplane_rs.Compiler.Reduction.Search.{Leads}
use hyperplane_rs.Compiler.Reduction.Closure.{transitive_reduction_closure}

abbrev reduced : Option (List (AtomicStep ℕ)) → List (List ℕ)
reduced none = []
reduced (some steps) = map depends_on steps

-- The edge from 1 to 4 is dropped.
edge_from_one_dropped :
    reduced (apply_transitive_reduction diamond) ≡ [] ∷ (1 ∷ []) ∷ (1 ∷ []) ∷ (2 ∷ 3 ∷ []) ∷ []
unfolding program apply_transitive_reduction
edge_from_one_dropped = refl

transitive_reduction_closure_example :
    (out : List (AtomicStep ℕ)) × (apply_transitive_reduction diamond ≡ some out)
    × (ids out ≡ ids diamond)
    × ((x d : ℕ) → mem d (deps_at out x) ≡ true → mem d (deps_at diamond x) ≡ true)
    × ((a b : ℕ) → Leads out a b ↔ Leads diamond a b)
transitive_reduction_closure_example = transitive_reduction_closure diamond diamond-IsDag
