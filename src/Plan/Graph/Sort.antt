-- ===== src/Plan/Graph/Sort.antt =====
-- `topological_sort` of a validated graph.
use hyperplane_rs.Prelude.{
  ℕ, ◌+◌, ◌==◌, ◌≡◌, refl, sym, ap, subst, true, false, some, List, [], ◌∷◌, length, all, All,
  Bool-cases, inl, inr, arith,
}
use hyperplane_rs.Prelude.Results.{ok}
use hyperplane_rs.Prelude.IdSet.{mem}
use hyperplane_rs.Prelude.Distinct.{NoDup}
use hyperplane_rs.Plan.Step.{AtomicStep, id, depends_on}
use hyperplane_rs.Plan.Graph.{
  ids, find_step, in_order, check_sorted, validate, topological_sort, sort_validated,
}
use hyperplane_rs.Plan.Graph.Relax.{deps_at}
use hyperplane_rs.Plan.Graph.Visit.{Ordered}
use hyperplane_rs.Plan.Graph.Start.{visit_all-Kahn}
use hyperplane_rs.Plan.Graph.Validate.{validate-Validated}

module _ {F : Type 0} where
  -- Every step follows its dependencies, where `seen` stands in front of the list.
  abbrev pub DepsFirst : List ℕ → List (AtomicStep F) → Type 0
  DepsFirst seen [] = Unit
  DepsFirst seen (s ∷ order) =
      (all (λ d. mem d seen) (depends_on s) ≡ true) × DepsFirst (id s ∷ seen) order

  -- A listed id has its step.
  pub find_listed :
      (steps : List (AtomicStep F)) (k : ℕ)
      → mem k (ids steps) ≡ true
      → (s : AtomicStep F) × (find_step k steps ≡ some s)
        × (id s ≡ k)
        × (depends_on s ≡ deps_at steps k)
  unfolding find_step mem
  find_listed [] k h = cc
  find_listed (s ∷ steps) k h = elim (Bool-cases (k == id s)) [
    | inl t ↦ (s, rw (t, find_step) refl, ground arith, ground arith)
    | inr f ↦
        let (r, e, i, d) = find_listed steps k (ground arith) in
        (r, rw (f, find_step) e, i, ground arith)
  ]

  in_order-DepsFirst :
      (steps : List (AtomicStep F)) (popped : List ℕ) (out : List (AtomicStep F))
      → Ordered steps popped
      → ((x : ℕ) → mem x popped ≡ true → mem x (ids steps) ≡ true)
      → DepsFirst popped out
      → DepsFirst [] (in_order steps popped out)
  unfolding in_order mem
  in_order-DepsFirst steps [] out o l h = h
  in_order-DepsFirst steps (k ∷ popped) out o l h =
      let (s, e, i, d) = find_listed steps k (l k (ground arith)) in
      rw (e, in_order)
        (in_order-DepsFirst steps popped (s ∷ out) o.1 (λ x m. l x (ground arith))
          (subst (λ ds. all (λ d. mem d popped) ds ≡ true) (sym d) o.0, rw i h))

  -- The ids of the list, read from its end, and those that are popped.
  abbrev pub IsFound : List (AtomicStep F) → AtomicStep F → Type 0
  IsFound steps s = find_step (id s) steps ≡ some s

  in_order-IsFound :
      (steps : List (AtomicStep F)) (popped : List ℕ) (out : List (AtomicStep F))
      → ((x : ℕ) → mem x popped ≡ true → mem x (ids steps) ≡ true)
      → All (IsFound steps) out
      → All (IsFound steps) (in_order steps popped out)
  unfolding in_order mem
  in_order-IsFound steps [] out l h = h
  in_order-IsFound steps (k ∷ popped) out l h =
      let (s, e, i, d) = find_listed steps k (l k (ground arith)) in
      rw (e, in_order)
        (in_order-IsFound steps popped (s ∷ out) (λ x m. l x (ground arith))
          (subst (λ j. find_step j steps ≡ some s) (sym i) e, h))

  length-in_order :
      (steps : List (AtomicStep F)) (popped : List ℕ) (out : List (AtomicStep F))
      → ((x : ℕ) → mem x popped ≡ true → mem x (ids steps) ≡ true)
      → length (in_order steps popped out) ≡ length popped + length out
  unfolding in_order mem
  length-in_order steps [] out l = omega arith
  length-in_order steps (k ∷ popped) out l =
      let (s, e, i, d) = find_listed steps k (l k (ground arith)) in
      rw (e, in_order)
        (omega (arith, length-in_order steps popped (s ∷ out) (λ x m. l x (ground arith))))

  in_order-NoDup :
      (steps : List (AtomicStep F)) (popped : List ℕ) (out : List (AtomicStep F))
      → ((x : ℕ) → mem x popped ≡ true → mem x (ids steps) ≡ true)
      → NoDup popped
      → NoDup (ids out)
      → ((x : ℕ) → mem x popped ≡ true → mem x (ids out) ≡ false)
      → NoDup (ids (in_order steps popped out))
  unfolding in_order mem
  in_order-NoDup steps [] out l n m f = m
  in_order-NoDup steps (k ∷ popped) out l n m f =
      let (s, e, i, d) = find_listed steps k (l k (ground arith)) in
      rw (e, in_order)
        (in_order-NoDup steps popped (s ∷ out) (λ x p. l x (ground arith)) n.1
          (ground (arith, f k), m) (λ x p. ground (arith, f x, n.0)))

  -- `topological_sort` of a graph that `validate` accepts succeeds with a rearrangement of its steps
  -- (as many, with distinct ids, each the graph's step of its id) in which every step stands behind
  -- all of its dependencies.
  pub topological_sort-ok :
      (steps : List (AtomicStep F))
      → validate steps ≡ some (ok tt)
      → (order : List (AtomicStep F)) × (topological_sort steps ≡ some (ok order))
        × (length order ≡ length steps)
        × NoDup (ids order)
        × All (IsFound steps) order
        × DepsFirst [] order
  unfolding topological_sort check_sorted
  topological_sort-ok steps h =
      let valid = validate-Validated steps h in
      let (end, v, last, inv) = visit_all-Kahn steps valid.distinct in
      let same : valid.end ≡ end = ground (arith, valid.visited) in
      let listed = λ (x : ℕ) (m : mem x end ≡ true).
        let l : mem x (ids steps) ≡ true = unfold mem in ground (arith, inv.listed x) in l in
      let long : length (in_order steps end []) ≡ length steps =
        omega (arith, length-in_order steps end [] listed, valid.complete, ap length same) in
      (
        in_order steps end [],
        rw (h, v, topological_sort, sort_validated) (ground arith),
        long,
        in_order-NoDup steps end [] listed inv.nodup_out tt (λ x m. unfold mem in refl),
        in_order-IsFound steps end [] listed tt,
        in_order-DepsFirst steps end [] inv.ordered listed tt,
      )
