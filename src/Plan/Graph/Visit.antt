-- ===== src/Plan/Graph/Visit.antt =====
-- The loop of `validate` and `topological_sort`: its invariant and its fuel.
use hyperplane_rs.Prelude.{
  ℕ, zero, suc, ◌+◌, ◌≤◌, ◌<◌, ◌==◌, ◌≡◌, refl, true, false, ◌||◌, some, List, [], ◌∷◌, length, all,
  Bool-cases, inl, inr, if◌then◌else◌, arith,
}
use hyperplane_rs.Prelude.IdSet.{mem, lookup}
use hyperplane_rs.Prelude.Distinct.{NoDup, length-le_of_subset}
use hyperplane_rs.Plan.Step.{AtomicStep}
use hyperplane_rs.Plan.Graph.{Walk, ids, relax, visit}
use hyperplane_rs.Plan.Graph.Relax.{
  degree, is_some, deps_at, listed_of_dep, degree-relax, held-relax, ready-relax, relax-NoDup,
}

-- How many of the dependencies are not visited.
abbrev pub waiting : List ℕ → List ℕ → ℕ
waiting out [] = 0
waiting out (d ∷ ds) = (if mem d out then 0 else 1) + waiting out ds

waiting_visit :
    (k : ℕ) (out ds : List ℕ)
    → mem k out ≡ false
    → waiting (k ∷ out) ds + (if mem k ds then 1 else 0) ≤ waiting out ds
unfolding mem
waiting_visit k out [] h = omega arith
waiting_visit k out (d ∷ ds) h = ground (arith, waiting_visit k out ds)

pub all_of_waiting : (out ds : List ℕ) → waiting out ds ≡ 0 → all (λ d. mem d out) ds ≡ true
all_of_waiting out [] h = refl
all_of_waiting out (d ∷ ds) h = ground (arith, all_of_waiting out ds)

-- In a list without repetition `k` waits at most once.
waiting_once :
    (k : ℕ) (out ds : List ℕ)
    → NoDup ds
    → waiting out ds ≤ waiting (k ∷ out) ds + (if mem k ds then 1 else 0)
unfolding mem
waiting_once k out [] n = omega arith
waiting_once k out (d ∷ ds) n = ground (arith, waiting_once k out ds)

waiting_of_mem :
    (k : ℕ) (out ds : List ℕ) → mem k out ≡ false → mem k ds ≡ true → 0 < waiting out ds
unfolding mem
waiting_of_mem k out [] h m = cc
waiting_of_mem k out (d ∷ ds) h m = ground (arith, waiting_of_mem k out ds)

module _ {F : Type 0} where
  -- Each visited id follows its dependencies; the latest stands first.
  abbrev pub Ordered : List (AtomicStep F) → List ℕ → Type 0
  Ordered steps [] = Unit
  Ordered steps (k ∷ out) = (all (λ d. mem d out) (deps_at steps k) ≡ true) × Ordered steps out

  pub record Kahn (steps : List (AtomicStep F)) (m : List (ℕ × ℕ)) (ready out : List ℕ)
      : Type 0 where
    pub nodup_ready : NoDup ready
    pub nodup_out : NoDup out
    pub fresh : (x : ℕ) → mem x ready ≡ true → mem x out ≡ false
    pub listed : (x : ℕ) → (mem x ready || mem x out) ≡ true → mem x (ids steps) ≡ true
    pub held : (x : ℕ) → mem x (ids steps) ≡ true → is_some (lookup x m) ≡ true
    pub least : (x : ℕ) → mem x (ids steps) ≡ true → waiting out (deps_at steps x) ≤ degree x m
    pub most :
        (x : ℕ)
        → NoDup (deps_at steps x)
        → mem x (ids steps) ≡ true
        → degree x m ≤ waiting out (deps_at steps x)
    pub settled :
        (x : ℕ) → mem x (ids steps) ≡ true → (degree x m == 0) ≡ (mem x ready || mem x out)
    pub ordered : Ordered steps out

  module _ (steps : List (AtomicStep F)) (distinct : NoDup (ids steps)) where
    module _ (m : List (ℕ × ℕ)) (k : ℕ) (rest out : List ℕ)
        (inv : Kahn steps m (k ∷ rest) out) where
      abbrev start : Walk
      start = record { indegree = m; ready = rest }

      abbrev walk : Walk
      walk = relax k steps start

      here : mem k (k ∷ rest) ≡ true
      unfolding mem
      here = ground arith

      unvisited : mem k out ≡ false
      unvisited = inv.fresh k here

      known : mem k (ids steps) ≡ true
      known = inv.listed k (ground (arith, here))

      closed : all (λ d. mem d out) (deps_at steps k) ≡ true
      closed =
          all_of_waiting out (deps_at steps k)
            (ground (arith, inv.least k, inv.settled k, here, known))

      -- What depends on `k` has an open dependency, and is on neither list.
      waits :
          (x : ℕ)
          → mem k (deps_at steps x) ≡ true
          → (mem x (ids steps) ≡ true)
            × (0 < degree x m)
            × (mem x (k ∷ rest) ≡ false)
            × (mem x out ≡ false)
      waits x d =
          let l = listed_of_dep steps x k d in
          let o = waiting_of_mem k out (deps_at steps x) unvisited d in
          let z = inv.least x l in
          let q = inv.settled x l in (l, omega arith, ground arith, ground arith)

      fresh_rest : (x : ℕ) → mem x rest ≡ true → (x == k) ≡ false
      unfolding mem
      fresh_rest x r = ground (arith, inv.nodup_ready.0)

      closed_self : mem k (deps_at steps k) ≡ false
      closed_self = elim (Bool-cases (mem k (deps_at steps k))) [
        | inl t ↦ ground (arith, waits k, here)
        | inr f ↦ f
      ]

      visit_one-Kahn : Kahn steps walk.indegree walk.ready (k ∷ out)
      unfolding mem
      visit_one-Kahn = record {
        nodup_ready =
            relax-NoDup k steps start distinct (inv.nodup_ready.1)
              (λ x r. ground (arith, waits x, fresh_rest x));
        nodup_out = (unvisited, inv.nodup_out);
        fresh = λ x r. ground (
          arith,
          ready-relax k steps start x distinct,
          waits x,
          inv.fresh x,
          fresh_rest x,
          closed_self,
        );
        listed =
            λ x. ground (arith, ready-relax k steps start x distinct, waits x, inv.listed x, known);
        held = λ x l. ground (arith, held-relax k steps start x, inv.held x);
        least = λ x l. ground (
          arith,
          degree-relax k steps start x distinct,
          waiting_visit k out (deps_at steps x) unvisited,
          inv.least x,
        );
        most = λ x n l. ground (
          arith,
          degree-relax k steps start x distinct,
          waiting_once k out (deps_at steps x) n,
          inv.most x n,
        );
        settled = λ x l. ground (
          arith,
          degree-relax k steps start x distinct,
          ready-relax k steps start x distinct,
          waits x,
          inv.settled x,
          inv.held x,
          known,
          closed_self,
        );
        ordered = (closed, inv.ordered);
      }

    -- With as much fuel as ids are left, the loop ends with an empty stack.
    pub visit-Kahn :
        (fuel : ℕ) (m : List (ℕ × ℕ)) (ready out : List ℕ)
        → Kahn steps m ready out
        → length (ids steps) ≤ fuel + length out
        → (end : List ℕ) × (visit fuel steps m ready out ≡ some end)
          × (last : List (ℕ × ℕ)) × Kahn steps last [] end
    unfolding visit
    visit-Kahn fuel m [] out inv f = (out, refl, m, inv)
    visit-Kahn zero m (k ∷ ready) out inv f =
        let more =
          length-le_of_subset (k ∷ out) (ids steps) (unvisited m k ready out inv, inv.nodup_out)
            (λ x e. unfold mem in ground (arith, inv.listed x, known m k ready out inv)) in
        absurd (omega arith)
    visit-Kahn (suc fuel) m (k ∷ ready) out inv f =
        let w = walk m k ready out inv in
        visit-Kahn fuel w.indegree w.ready (k ∷ out) (visit_one-Kahn m k ready out inv)
          (omega arith)
