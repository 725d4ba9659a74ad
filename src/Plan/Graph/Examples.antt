-- ===== src/Plan/Graph/Examples.antt =====
-- The theorems at the diamond of `Plan.Samples`.
use hyperplane_rs.Prelude.{
  ℕ, ◌<◌, ◌==◌, ◌≡◌, refl, true, Bool-cases, inl, inr, some, List, [], ◌∷◌, All, length, arith,
}
use hyperplane_rs.Prelude.Results.{ok}
use hyperplane_rs.Prelude.IdSet.{mem}
use hyperplane_rs.Prelude.Distinct.{NoDup}
use hyperplane_rs.Plan.Step.{AtomicStep, id, depends_on}
use hyperplane_rs.Plan.Graph.{ids, validate, topological_sort}
use hyperplane_rs.Plan.Graph.Relax.{deps_at}
use hyperplane_rs.Plan.Graph.Dag.{IsDag}
use hyperplane_rs.Plan.Graph.Validate.{HasSingleDeps, validate-IsDag, validate_accepts}
use hyperplane_rs.Plan.Graph.Sort.{DepsFirst, IsFound, topological_sort-ok}
use hyperplane_rs.Plan.Samples.{program, diamond}

pub diamond_valid : validate diamond ≡ some (ok tt)
unfolding program
diamond_valid = refl

diamond_falls : (s d : ℕ) → mem d (deps_at diamond s) ≡ true → d < s
unfolding program
diamond_falls s d m = ground arith

diamond_known : (s d : ℕ) → mem d (deps_at diamond s) ≡ true → mem d (ids diamond) ≡ true
unfolding program
diamond_known s d m = ground arith

diamond_distinct : NoDup (ids diamond)
unfolding program
diamond_distinct = (refl, (refl, (refl, (refl, tt))))

All-HasSingleDeps :
    (steps : List (AtomicStep ℕ)) → All (λ s. NoDup (depends_on s)) steps → HasSingleDeps steps
All-HasSingleDeps [] h x = tt
All-HasSingleDeps (s ∷ steps) h x = elim (Bool-cases (x == id s)) [
  | inl t ↦ rw (t, deps_at) h.0
  | inr f ↦ rw (f, deps_at) (All-HasSingleDeps steps h.1 x)
]

diamond_single : HasSingleDeps diamond
unfolding program
diamond_single =
    All-HasSingleDeps diamond (tt, ((refl, tt), ((refl, tt), ((refl, (refl, (refl, tt))), tt))))

pub diamond-IsDag : IsDag diamond
diamond-IsDag = record {
  distinct = diamond_distinct;
  resolved = diamond_known;
  rank = λ s. s;
  falls = diamond_falls;
}

validate-IsDag_example : IsDag diamond
validate-IsDag_example = validate-IsDag diamond diamond_valid

validate_accepts_example : validate diamond ≡ some (ok tt)
validate_accepts_example = validate_accepts diamond diamond-IsDag diamond_single

topological_sort-ok_example :
    (order : List (AtomicStep ℕ)) × (topological_sort diamond ≡ some (ok order))
    × (length order ≡ length diamond)
    × NoDup (ids order)
    × All (IsFound diamond) order
    × DepsFirst [] order
topological_sort-ok_example = topological_sort-ok diamond diamond_valid
