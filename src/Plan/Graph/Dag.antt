-- ===== src/Plan/Graph/Dag.antt =====
-- `validate` against the definition of an acyclic plan.
use hyperplane_rs.Prelude.{
  ℕ, suc, ◌≤◌, ◌<◌, ◌==◌, ◌≡◌, ◌↔◌, refl, subst, true, false, ◌||◌, List, [], ◌∷◌, length, all,
  Bool-cases, inl, inr, if◌then◌else◌, arith,
}
use hyperplane_rs.Prelude.Results.{ok, err}
use hyperplane_rs.Prelude.IdSet.{mem, insert, mem-insert, all_at, failing}
use hyperplane_rs.Prelude.Distinct.{NoDup}
use hyperplane_rs.Plan.Step.{AtomicStep, id, depends_on}
use hyperplane_rs.Plan.Graph.{GraphError, ids, check_ids, check_deps, check_all_deps}
use hyperplane_rs.Plan.Graph.Relax.{deps_at, deps_at_absent}
use hyperplane_rs.Plan.Graph.Visit.{Ordered}

-- The place of an id in a visit, from the first on; 0 where it is not visited.
abbrev pub place : ℕ → List ℕ → ℕ
place x [] = 0
place x (k ∷ out) = if x == k then suc (length out) else place x out

place-le : (x : ℕ) (out : List ℕ) → place x out ≤ length out
place-le x [] = omega arith
place-le x (k ∷ out) = ground (arith, place-le x out)

check_deps-ok :
    (step : ℕ) (deps seen : List ℕ)
    → (check_deps step deps seen ≡ ok tt) ↔ (all (λ d. mem d seen) deps ≡ true)
unfolding check_deps
check_deps-ok step [] seen = (λ h. refl, λ h. refl)
check_deps-ok step (d ∷ deps) seen = elim (Bool-cases (mem d seen)) [
  | inl t ↦ rw t (check_deps-ok step deps seen)
  | inr f ↦ rw f (λ h. cc, λ h. cc)
]

check_deps-err :
    (step : ℕ) (deps seen : List ℕ)
    → all (λ d. mem d seen) deps ≡ false
    → (e : GraphError) × (check_deps step deps seen ≡ err e)
unfolding check_deps
check_deps-err step [] seen h = cc
check_deps-err step (d ∷ deps) seen h = elim (Bool-cases (mem d seen)) [
  | inl t ↦ rw t (check_deps-err step deps seen (rw t at h))
  | inr f ↦ rw f (_, refl)
]

module _ {F : Type 0} where
  -- What the ids passed so far and the steps say of each other.
  pub check_ids-ok :
      (steps : List (AtomicStep F)) (seen all_ids : List ℕ)
      → check_ids steps seen ≡ ok all_ids
      → NoDup (ids steps)
        × ((x : ℕ) → mem x (ids steps) ≡ true → mem x seen ≡ false)
        × ((x : ℕ) → mem x all_ids ≡ (mem x (ids steps) || mem x seen))
  unfolding check_ids mem
  check_ids-ok [] seen all_ids h = (tt, λ x m. cc, λ x. ground arith)
  check_ids-ok (s ∷ steps) seen all_ids h = elim (Bool-cases (mem (id s) seen)) [
    | inl t ↦ absurd (let g = rw (t, check_ids) at h in cc)
    | inr f ↦
        let (n, fresh, same) =
          check_ids-ok steps (insert (id s) seen) all_ids (rw (f, check_ids) at h) in
        (
          (
            elim (Bool-cases (mem (id s) (ids steps))) [
              | inl t ↦ ground (arith, fresh (id s), mem-insert (id s) (id s) seen)
              | inr g ↦ g
            ],
            n,
          ),
          λ x m. ground (arith, fresh x, mem-insert x (id s) seen),
          λ x. ground (arith, same x, mem-insert x (id s) seen),
        )
  ]

  pub check_ids_total :
      (steps : List (AtomicStep F)) (seen : List ℕ)
      → NoDup (ids steps)
      → ((x : ℕ) → mem x (ids steps) ≡ true → mem x seen ≡ false)
      → (all_ids : List ℕ) × (check_ids steps seen ≡ ok all_ids)
  unfolding check_ids mem
  check_ids_total [] seen n fresh = (seen, refl)
  check_ids_total (s ∷ steps) seen n fresh =
      let unseen : mem (id s) seen ≡ false = ground (arith, fresh (id s)) in
      rw (unseen, check_ids)
        (check_ids_total steps (insert (id s) seen) n.1
          (λ x m. ground (arith, fresh x, n.0, mem-insert x (id s) seen)))

  -- Every dependency of a step of the list is in `seen`.
  abbrev pub Resolved : List (AtomicStep F) → List ℕ → Type 0
  Resolved steps seen = (x d : ℕ) → mem d (deps_at steps x) ≡ true → mem d seen ≡ true

  pub check_all_deps-ok :
      (steps : List (AtomicStep F)) (seen : List ℕ)
      → NoDup (ids steps)
      → (check_all_deps steps seen ≡ ok tt) ↔ Resolved steps seen
  unfolding check_all_deps mem
  check_all_deps-ok [] seen n = (λ h x d m. cc, λ h. refl)
  check_all_deps-ok (s ∷ steps) seen n = elim (Bool-cases (all (λ d. mem d seen) (depends_on s))) [
    | inl t ↦
        let rest = check_all_deps-ok steps seen n.1 in
        rw ((check_deps-ok (id s) (depends_on s) seen).1 t) (
          λ h x d m. ground (arith, rest.0 h x d, all_at (λ d. mem d seen) (depends_on s) d),
          λ h. rest.1 (λ x d m. ground (arith, h x d, n.0, deps_at_absent steps x)),
        )
    | inr f ↦
        let (d, m, bad) = failing (λ d. mem d seen) (depends_on s) f in
        rw ((check_deps-err (id s) (depends_on s) seen f).1)
          (λ h. cc, λ h. absurd (ground (arith, h (id s) d)))
  ]

  -- Ids are distinct, dependencies are steps of the plan, and some rank falls along them.
  pub record IsDag (steps : List (AtomicStep F)) : Type 0 where
    pub distinct : NoDup (ids steps)
    pub resolved : (s d : ℕ) → mem d (deps_at steps s) ≡ true → mem d (ids steps) ≡ true
    pub rank : ℕ → ℕ
    pub falls : (s d : ℕ) → mem d (deps_at steps s) ≡ true → rank d < rank s

  pub dep-Ordered :
      (steps : List (AtomicStep F)) (out : List ℕ) (s d : ℕ)
      → Ordered steps out
      → mem s out ≡ true
      → mem d (deps_at steps s) ≡ true
      → mem d out ≡ true
  unfolding mem
  dep-Ordered steps [] s d o m h = cc
  dep-Ordered steps (k ∷ out) s d o m h = elim (Bool-cases (s == k)) [
    | inl e ↦
        let e' : s ≡ k = ground arith in
        ground (
          arith,
          all_at (λ d. mem d out) (deps_at steps k) d o.0
              (subst (λ i. mem d (deps_at steps i) ≡ true) e' h),
        )
    | inr e ↦ ground (arith, dep-Ordered steps out s d o.1)
  ]

  pub place-Ordered :
      (steps : List (AtomicStep F)) (out : List ℕ) (s d : ℕ)
      → NoDup out
      → Ordered steps out
      → mem s out ≡ true
      → mem d (deps_at steps s) ≡ true
      → place d out < place s out
  unfolding mem
  place-Ordered steps [] s d n o m h = cc
  place-Ordered steps (k ∷ out) s d n o m h = elim (Bool-cases (s == k)) [
    | inl e ↦
        let e' : s ≡ k = ground arith in
        let later =
          all_at (λ d. mem d out) (deps_at steps k) d o.0
            (subst (λ i. mem d (deps_at steps i) ≡ true) e' h) in
        ground (arith, place-le d out, n.0)
    | inr e ↦
        let before = place-Ordered steps out s d n.1 o.1 (ground arith) h in
        let later = dep-Ordered steps out s d o.1 (ground arith) h in ground (arith, n.0)
  ]
