-- ===== src/Plan/Graph/Validate.antt =====
-- What `validate` accepts.
use hyperplane_rs.Prelude.{
  ℕ, zero, suc, ◌≤◌, ◌<◌, ◌≡◌, refl, ap, Bool, true, some, List, [], ◌∷◌, length, all, inl, inr,
  arith,
}
use hyperplane_rs.Prelude.Results.{Result-cases, ok}
use hyperplane_rs.Prelude.IdSet.{mem}
use hyperplane_rs.Prelude.Distinct.{NoDup, subset_of_length, length-le_of_subset}
use hyperplane_rs.Plan.Step.{AtomicStep}
use hyperplane_rs.Plan.Graph.{ids, check_ids, check_all_deps, visit_all, check_visited, validate}
use hyperplane_rs.Plan.Graph.Relax.{deps_at, listed_of_dep}
use hyperplane_rs.Plan.Graph.Visit.{waiting, Kahn}
use hyperplane_rs.Plan.Graph.Start.{visit_all-Kahn, length-map_ids}
use hyperplane_rs.Plan.Graph.Dag.{
  IsDag, Resolved, check_ids-ok, check_ids_total, check_all_deps-ok, place, place-Ordered,
}

count-eq : (n : ℕ) (end : List ℕ) → check_visited n (some end) ≡ some (ok tt) → length end ≡ n
unfolding check_visited
count-eq n end h = ground arith

all_of : (p : ℕ → Bool) (ds : List ℕ) → ((d : ℕ) → mem d ds ≡ true → p d ≡ true) → all p ds ≡ true
unfolding mem
all_of p [] h = refl
all_of p (d ∷ ds) h = ground (arith, h d, all_of p ds (λ e m. h e (ground arith)))

waiting_of_all : (out ds : List ℕ) → all (λ d. mem d out) ds ≡ true → waiting out ds ≡ 0
waiting_of_all out [] h = refl
waiting_of_all out (d ∷ ds) h = ground (arith, waiting_of_all out ds)

module _ {F : Type 0} where
  -- The facts behind a successful validation.
  pub record Validated (steps : List (AtomicStep F)) : Type 0 where
    pub distinct : NoDup (ids steps)
    pub resolved : Resolved steps (ids steps)
    pub end : List ℕ
    pub visited : visit_all steps ≡ some end
    pub complete : length end ≡ length steps

  pub validate-Validated :
      (steps : List (AtomicStep F)) → validate steps ≡ some (ok tt) → Validated steps
  unfolding validate
  validate-Validated steps h = elim (Result-cases (check_ids steps [])) [
    | inr (e, c) ↦ absurd (let g = rw (c, validate) at h in cc)
    | inl (all_ids, c) ↦ elim (Result-cases (check_all_deps steps all_ids)) [
      | inr (e, d) ↦ absurd (let g = rw (c, d, validate) at h in cc)
      | inl (_, d) ↦
          let (distinct, fresh, same) = check_ids-ok steps [] all_ids c in
          let (end, v, last, inv) = visit_all-Kahn steps distinct in
          let count : check_visited (length steps) (some end) ≡ some (ok tt) =
            rw (c, d, v, validate) at h in
          record {
            distinct = distinct;
            resolved = λ x k m.
                unfold mem in
                ground (arith, (check_all_deps-ok steps all_ids distinct).0 d x k m, same k);
            end = end;
            visited = v;
            complete = count-eq (length steps) end count;
          }
    ]
  ]

  -- A validated graph is acyclic: the order of the visit is a rank.
  pub Validated-IsDag : (steps : List (AtomicStep F)) → Validated steps → IsDag steps
  Validated-IsDag steps valid =
      let (end, v, last, inv) = visit_all-Kahn steps valid.distinct in
      let same : valid.end ≡ end = ground (arith, valid.visited) in
      let long : length (ids steps) ≤ length end =
        omega (arith, length-map_ids steps, valid.complete, ap length same) in
      let visited =
        subset_of_length end (ids steps) inv.nodup_out
          (λ x m. unfold mem in ground (arith, inv.listed x)) long in
      record {
        distinct = valid.distinct;
        resolved = valid.resolved;
        rank = λ x. place x end;
        falls = λ s d m.
            place-Ordered steps end s d inv.nodup_out inv.ordered
              (visited s (listed_of_dep steps s d m)) m;
      }

  -- What `validate` accepts has distinct ids, only dependencies that are steps of the graph, and no
  -- cycle: some rank falls along the dependencies.
  pub validate-IsDag : (steps : List (AtomicStep F)) → validate steps ≡ some (ok tt) → IsDag steps
  validate-IsDag steps h = Validated-IsDag steps (validate-Validated steps h)

  -- No dependency list names a step twice.
  abbrev pub HasSingleDeps : List (AtomicStep F) → Type 0
  HasSingleDeps steps = (s : ℕ) → NoDup (deps_at steps s)

  module _ (steps : List (AtomicStep F)) (dag : IsDag steps) (single : HasSingleDeps steps) where
    -- With an empty stack, an unvisited step would wait for one of lower rank.
    all_visited :
        (m : List (ℕ × ℕ)) (end : List ℕ)
        → Kahn steps m [] end
        → (n s : ℕ) → dag.rank s < n
        → mem s (ids steps) ≡ true
        → mem s end ≡ true
    unfolding mem
    all_visited m end inv zero s lt l = absurd (omega arith)
    all_visited m end inv (suc n) s lt l =
        let deps =
          all_of (λ d. mem d end) (deps_at steps s)
            (λ d e.
              all_visited m end inv n d (ground (arith, dag.falls s d)) (dag.resolved s d e)) in
        ground
          (arith, inv.settled s, inv.most s (single s), waiting_of_all end (deps_at steps s) deps)

    -- `validate` accepts every acyclic graph in which no step names a dependency twice.
    pub validate_accepts : validate steps ≡ some (ok tt)
    unfolding validate check_visited
    validate_accepts =
        let (all_ids, c) = check_ids_total steps [] dag.distinct (λ x m. unfold mem in refl) in
        let (_, _, same) = check_ids-ok steps [] all_ids c in
        let d =
          (check_all_deps-ok steps all_ids dag.distinct).1
            (λ s d m. unfold mem in ground (arith, dag.resolved s d, same d)) in
        let (end, v, last, inv) = visit_all-Kahn steps dag.distinct in
        let long =
          length-le_of_subset (ids steps) end dag.distinct
            (λ s l. all_visited last end inv (suc (dag.rank s)) s (omega arith) l) in
        let short =
          length-le_of_subset end (ids steps) inv.nodup_out
            (λ s e. unfold mem in ground (arith, inv.listed s)) in
        let same_length : length end ≡ length steps = omega (arith, length-map_ids steps) in
        rw (c, d, v, validate) (ground arith)
