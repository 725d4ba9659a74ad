-- ===== src/Plan/Graph/Start.antt =====
-- The maps and the stack before the loop of `validate`, and the loop from there.
use hyperplane_rs.Prelude.{
  ℕ, suc, ◌≤◌, ◌<◌, ◌==◌, ◌≡◌, refl, ap, Bool, true, ◌&&◌, ◌||◌, none, some, List, [], ◌∷◌, length,
  All, if◌then◌else◌, arith,
}
use hyperplane_rs.Prelude.IdSet.{mem, lookup, put, lookup-put}
use hyperplane_rs.Prelude.Distinct.{NoDup, Increasing, put-Increasing}
use hyperplane_rs.Plan.Step.{AtomicStep, id, depends_on}
use hyperplane_rs.Plan.Graph.{ids, indegrees, sources, visit_all}
use hyperplane_rs.Plan.Graph.Relax.{degree, is_some, deps_at}
use hyperplane_rs.Plan.Graph.Visit.{waiting, Kahn, visit-Kahn}

module _ {F : Type 0} where
  lookup-indegrees :
      (steps : List (AtomicStep F)) (m : List (ℕ × ℕ)) (x : ℕ)
      → NoDup (ids steps)
      → lookup x (indegrees steps m)
        ≡ (if mem x (ids steps) then some (length (deps_at steps x)) else lookup x m)
  unfolding indegrees mem
  lookup-indegrees [] m x distinct = refl
  lookup-indegrees (s ∷ steps) m x distinct = ground (
    arith,
    lookup-indegrees steps (put (id s) (length (depends_on s)) m) x distinct.1,
    lookup-put x (id s) (length (depends_on s)) m,
    distinct.0,
  )

  indegrees-Increasing :
      (steps : List (AtomicStep F)) (m : List (ℕ × ℕ))
      → Increasing m
      → Increasing (indegrees steps m)
  unfolding indegrees
  indegrees-Increasing [] m h = h
  indegrees-Increasing (s ∷ steps) m h =
      indegrees-Increasing steps (put (id s) (length (depends_on s)) m)
        (put-Increasing (id s) (length (depends_on s)) m h)

-- Whether a map gives the id the degree 0.
abbrev is_source : ℕ → List (ℕ × ℕ) → Bool
is_source x m = is_some (lookup x m) && (degree x m == 0)

absent_above : (x k : ℕ) (m : List (ℕ × ℕ)) → All (λ e. k < e.0) m → x ≤ k → lookup x m ≡ none
unfolding lookup
absent_above x k [] h le = refl
absent_above x k ((j, d) ∷ m) h le = ground (arith, absent_above x k m)

mem-sources :
    (x : ℕ) (m : List (ℕ × ℕ)) (ready : List ℕ)
    → Increasing m
    → mem x (sources m ready) ≡ (mem x ready || is_source x m)
unfolding sources lookup mem
mem-sources x [] ready h = ground arith
mem-sources x ((k, d) ∷ m) ready h =
    ground (arith, mem-sources x m (if d == 0 then k ∷ ready else ready), absent_above k k m)

sources-NoDup :
    (m : List (ℕ × ℕ)) (ready : List ℕ)
    → Increasing m
    → NoDup ready
    → ((x : ℕ) → mem x ready ≡ true → lookup x m ≡ none)
    → NoDup (sources m ready)
unfolding sources lookup mem
sources-NoDup [] ready h n f = n
sources-NoDup ((k, d) ∷ m) ready h n f =
    sources-NoDup m (if d == 0 then k ∷ ready else ready) h.1 (ground (arith, f k))
      (λ x r. ground (arith, f x, absent_above k k m))

pub length-map_ids : {F : Type 0} (steps : List (AtomicStep F)) → length (ids steps) ≡ length steps
length-map_ids [] = refl
length-map_ids (s ∷ steps) = ap suc (length-map_ids steps)

waiting_nil : (ds : List ℕ) → waiting [] ds ≡ length ds
unfolding mem
waiting_nil [] = refl
waiting_nil (d ∷ ds) = omega (arith, waiting_nil ds)

module _ {F : Type 0} (steps : List (AtomicStep F)) (distinct : NoDup (ids steps)) where
  abbrev m : List (ℕ × ℕ)
  m = indegrees steps []

  start-Kahn : Kahn steps m (sources m []) []
  unfolding mem lookup
  start-Kahn =
      let up = indegrees-Increasing steps [] tt in
      record {
        nodup_ready = sources-NoDup m [] up tt (λ x e. ground arith);
        nodup_out = tt;
        fresh = λ x r. refl;
        listed = λ x. ground (arith, mem-sources x m [] up, lookup-indegrees steps [] x distinct);
        held = λ x l. ground (arith, lookup-indegrees steps [] x distinct);
        least = λ x l.
            ground (arith, lookup-indegrees steps [] x distinct, waiting_nil (deps_at steps x));
        most = λ x n l.
            ground (arith, lookup-indegrees steps [] x distinct, waiting_nil (deps_at steps x));
        settled =
            λ x l. ground (arith, mem-sources x m [] up, lookup-indegrees steps [] x distinct);
        ordered = tt;
      }

  pub visit_all-Kahn :
      (end : List ℕ) × (visit_all steps ≡ some end) × (last : List (ℕ × ℕ)) × Kahn steps last [] end
  unfolding visit_all
  visit_all-Kahn =
      visit-Kahn steps distinct (length steps) m (sources m []) [] start-Kahn
        (omega (arith, length-map_ids steps))
