-- ===== src/Plan/Samples.antt =====
-- Small plans: a diamond whose last step also names the first, a cycle, and a step that names a
-- dependency twice.
use hyperplane_rs.Prelude.{ℕ, ◌≡◌, refl, Option, none, some, List, [], ◌∷◌}
use hyperplane_rs.Prelude.Results.{Result, ok, err}
use hyperplane_rs.Prelude.IdSet.{mem, insert, remove, lookup, put}
use hyperplane_rs.Plan.Step.{AtomicStep, checkpoint, id, depends_on}
use hyperplane_rs.Plan.Graph.{
  ids, find_step, dangling_dependency, graph_has_cycle, validate, topological_sort, dependents,
  GraphError,
}

abbrev pub step : ℕ → List ℕ → AtomicStep ℕ
step k deps =
    checkpoint
      (record {
        id = k;
        depends_on = deps;
        trial_index = none;
        resource_requirements = record {
          peak_cpu_cores = 1;
          peak_memory_mb = 10;
          peak_storage_gb = 0;
          peak_network_gbps = 0;
          custom = [];
        };
      })
      0

abbrev pub diamond : List (AtomicStep ℕ)
diamond = step 1 [] ∷ step 2 (1 ∷ []) ∷ step 3 (1 ∷ []) ∷ step 4 (2 ∷ 3 ∷ 1 ∷ []) ∷ []

abbrev cycle : List (AtomicStep ℕ)
cycle = step 1 (2 ∷ []) ∷ step 2 (1 ∷ []) ∷ []

abbrev repeated : List (AtomicStep ℕ)
repeated = step 1 [] ∷ step 2 (1 ∷ 1 ∷ []) ∷ []

unfoldable pub program : Unit {0}
unfolding validate topological_sort dependents id depends_on mem insert remove lookup put
program = tt

abbrev sorted_ids : Option (Result GraphError (List (AtomicStep ℕ))) → List ℕ
sorted_ids (some (ok order)) = ids order
sorted_ids _ = []

cycle_rejected : validate cycle ≡ some (err graph_has_cycle)
unfolding program
cycle_rejected = refl

dangling_rejected : validate (step 1 (7 ∷ []) ∷ []) ≡ some (err (dangling_dependency 1 7))
unfolding program
dangling_rejected = refl

-- The graph is acyclic.
repeated_rejected : validate repeated ≡ some (err graph_has_cycle)
unfolding program
repeated_rejected = refl

diamond_sorted : sorted_ids (topological_sort diamond) ≡ 1 ∷ 3 ∷ 2 ∷ 4 ∷ []
unfolding program find_step
diamond_sorted = refl

diamond_dependents : ids (dependents 1 diamond) ≡ 2 ∷ 3 ∷ 4 ∷ []
unfolding program
diamond_dependents = refl
