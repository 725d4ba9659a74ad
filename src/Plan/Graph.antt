-- ===== src/Plan/Graph.antt =====
-- crates/paramodel-plan/src/execution.rs: `ExecutionGraph`, its validation and its traversals. A
-- graph is its list of steps. `validate` and `topological_sort` hold the same loop (`visit`), which
-- the one counts and the other collects. A stack has its top first. `none` is the end of the fuel.
pub mod Relax
pub mod Visit
mod Start
pub mod Dag
pub mod Validate
pub mod Sort
pub mod Examples
use hyperplane_rs.Prelude.{
  ℕ, zero, suc, ◌+◌, ◌-◌, ◌==◌, Bool, true, false, not, Option, none, some, List, [], ◌∷◌, ◌++◌,
  map, ltb, length, if◌then◌else◌,
}
use hyperplane_rs.Prelude.Results.{Result, ok, err, ◌>>=◌, ◌>>◌}
use hyperplane_rs.Prelude.IdSet.{mem, insert, lookup, put}
use hyperplane_rs.Plan.Step.{AtomicStep, id, depends_on}

pub data GraphError : Type 0 where
  duplicate_step_id : ℕ → GraphError
  dangling_dependency : ℕ → ℕ → GraphError
  graph_has_cycle : GraphError

-- The check of one step's dependencies.
unfoldable pub check_deps : ℕ → List ℕ → List ℕ → Result GraphError (Unit {0})
check_deps step [] seen = ok tt
check_deps step (d ∷ deps) seen =
    if mem d seen then check_deps step deps seen else err (dangling_dependency step d)

-- The steps without dependencies, pushed in the order of the ids.
unfoldable pub sources : List (ℕ × ℕ) → List ℕ → List ℕ
sources [] ready = ready
sources ((k, d) ∷ m) ready = sources m (if d == 0 then k ∷ ready else ready)

pub record Walk : Type 0 where
  pub indegree : List (ℕ × ℕ)
  pub ready : List ℕ

-- One more dependency of `n` is visited.
unfoldable pub decrease : ℕ → Walk → Walk
decrease n w = elim (lookup n w.indegree) [
  | none ↦ w
  | some d ↦ record {
    indegree = put n (d - 1) w.indegree;
    ready = if d - 1 == 0 then n ∷ w.ready else w.ready;
  }
]

-- `visited != self.steps.len()`.
unfoldable pub check_visited : ℕ → Option (List ℕ) → Option (Result GraphError (Unit {0}))
check_visited n none = none
check_visited n (some out) = some (if length out == n then ok tt else err graph_has_cycle)

module _ {F : Type 0} where
  abbrev pub ids : List (AtomicStep F) → List ℕ
  ids = map id

  -- `step`.
  unfoldable pub find_step : ℕ → List (AtomicStep F) → Option (AtomicStep F)
  find_step k [] = none
  find_step k (s ∷ steps) = if k == id s then some s else find_step k steps

  -- The two loops of checks in `validate`.
  unfoldable pub check_ids : List (AtomicStep F) → List ℕ → Result GraphError (List ℕ)
  check_ids [] seen = ok seen
  check_ids (s ∷ steps) seen =
      let rest = check_ids steps (insert (id s) seen) in
      if mem (id s) seen then err (duplicate_step_id (id s)) else rest

  unfoldable pub check_all_deps : List (AtomicStep F) → List ℕ → Result GraphError (Unit {0})
  unfolding check_deps
  check_all_deps [] seen = ok tt
  check_all_deps (s ∷ steps) seen =
      check_deps (id s) (depends_on s) seen >> check_all_deps steps seen

  -- The map of the numbers of dependencies.
  unfoldable pub indegrees : List (AtomicStep F) → List (ℕ × ℕ) → List (ℕ × ℕ)
  indegrees [] m = m
  indegrees (s ∷ steps) m = indegrees steps (put (id s) (length (depends_on s)) m)

  unfoldable pub relax : ℕ → List (AtomicStep F) → Walk → Walk
  unfolding decrease
  relax k [] w = w
  relax k (s ∷ steps) w = relax k steps (if mem k (depends_on s) then decrease (id s) w else w)

  -- The loop: the ids that are popped, the latest first.
  unfoldable pub visit : ℕ → List (AtomicStep F) → List (ℕ × ℕ) → List ℕ → List ℕ → Option (List ℕ)
  unfolding relax
  visit fuel steps indegree [] out = some out
  visit zero steps indegree (k ∷ ready) out = none
  visit (suc fuel) steps indegree (k ∷ ready) out =
      let w = relax k steps (record { indegree = indegree; ready = ready }) in
      visit fuel steps w.indegree w.ready (k ∷ out)

  unfoldable pub visit_all : List (AtomicStep F) → Option (List ℕ)
  unfolding visit indegrees sources
  visit_all steps =
      let indegree = indegrees steps [] in
      visit (length steps) steps indegree (sources indegree []) []

  unfoldable pub validate : List (AtomicStep F) → Option (Result GraphError (Unit {0}))
  unfolding check_ids check_all_deps visit_all check_visited
  validate steps = elim (check_ids steps [] >>= check_all_deps steps) [
    | err e ↦ some (err e)
    | ok _ ↦ check_visited (length steps) (visit_all steps)
  ]

  -- The steps behind popped ids, in the order of the pops.
  unfoldable pub in_order : List (AtomicStep F) → List ℕ → List (AtomicStep F) → List (AtomicStep F)
  in_order steps [] out = out
  in_order steps (k ∷ popped) out =
      in_order steps popped (elim (find_step k steps) [ none ↦ out | some s ↦ s ∷ out ])

  -- `out.len() != self.steps.len()`.
  unfoldable pub check_sorted : ℕ → List (AtomicStep F) → Result GraphError (List (AtomicStep F))
  check_sorted n out = if length out == n then ok out else err graph_has_cycle

  unfoldable pub sort_validated :
      List (AtomicStep F)
      → Result GraphError (Unit {0})
      → Option (Result GraphError (List (AtomicStep F)))
  unfolding visit_all in_order check_sorted
  sort_validated steps (err e) = some (err e)
  sort_validated steps (ok _) = elim (visit_all steps) [
    | none ↦ none
    | some popped ↦ some (check_sorted (length steps) (in_order steps popped []))
  ]

  unfoldable pub topological_sort :
      List (AtomicStep F) → Option (Result GraphError (List (AtomicStep F)))
  unfolding validate sort_validated
  topological_sort steps = elim (validate steps) [ none ↦ none | some r ↦ sort_validated steps r ]

  -- `dependencies`: the dependencies that the graph has.
  unfoldable pub found : List ℕ → List (AtomicStep F) → List (AtomicStep F)
  unfolding find_step
  found [] steps = []
  found (d ∷ deps) steps =
      let rest = found deps steps in elim (find_step d steps) [ none ↦ rest | some s ↦ s ∷ rest ]

  unfoldable pub dependencies : ℕ → List (AtomicStep F) → List (AtomicStep F)
  unfolding find_step found
  dependencies k steps = elim (find_step k steps) [
    | none ↦ []
    | some s ↦ found (depends_on s) steps
  ]

  unfoldable pub dependents : ℕ → List (AtomicStep F) → List (AtomicStep F)
  dependents k [] = []
  dependents k (s ∷ steps) =
      let rest = dependents k steps in if mem k (depends_on s) then s ∷ rest else rest
