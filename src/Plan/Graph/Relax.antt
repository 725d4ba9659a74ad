-- ===== src/Plan/Graph/Relax.antt =====
-- One turn of the loop of `validate`: what `relax` does to the degrees and to the stack.
use hyperplane_rs.Prelude.{
  ℕ, ◌-◌, ◌==◌, ◌≡◌, refl, Bool, true, false, ◌&&◌, ◌||◌, Option, none, some, List, [], ◌∷◌,
  Bool-cases, inl, inr, if◌then◌else◌, arith,
}
use hyperplane_rs.Prelude.IdSet.{mem, lookup, lookup-put}
use hyperplane_rs.Prelude.Distinct.{NoDup}
use hyperplane_rs.Plan.Step.{AtomicStep, id, depends_on}
use hyperplane_rs.Plan.Graph.{Walk, ids, decrease, relax}

-- The degree that a map gives an id; 0 where it gives none.
abbrev pub or_zero : Option ℕ → ℕ
or_zero none = 0
or_zero (some n) = n

abbrev pub is_some : Option ℕ → Bool
is_some none = false
is_some (some n) = true

abbrev pub degree : ℕ → List (ℕ × ℕ) → ℕ
degree x m = or_zero (lookup x m)

degree-decrease :
    (x n : ℕ) (w : Walk)
    → degree x (decrease n w).indegree
      ≡ (if x == n then degree x w.indegree - 1 else degree x w.indegree)
unfolding decrease
degree-decrease x n w =
    ground (arith, lookup-put x n (or_zero (lookup n w.indegree) - 1) w.indegree)

held-decrease :
    (x n : ℕ) (w : Walk)
    → is_some (lookup x (decrease n w).indegree) ≡ is_some (lookup x w.indegree)
unfolding decrease
held-decrease x n w = ground (arith, lookup-put x n (or_zero (lookup n w.indegree) - 1) w.indegree)

ready-decrease :
    (x n : ℕ) (w : Walk)
    → mem x (decrease n w).ready ≡ (
        mem x w.ready
        || ((x == n) && is_some (lookup n w.indegree) && (degree n w.indegree - 1 == 0)))
unfolding decrease mem
ready-decrease x n w = ground arith

decrease-NoDup :
    (n : ℕ) (w : Walk) → NoDup w.ready → mem n w.ready ≡ false → NoDup (decrease n w).ready
unfolding decrease
decrease-NoDup n w nodup fresh = ground arith

module _ {F : Type 0} where
  -- The dependencies of the step with an id.
  abbrev pub deps_at : List (AtomicStep F) → ℕ → List ℕ
  deps_at [] x = []
  deps_at (s ∷ steps) x = if x == id s then depends_on s else deps_at steps x

  pub deps_at_absent :
      (steps : List (AtomicStep F)) (x : ℕ) → mem x (ids steps) ≡ false → deps_at steps x ≡ []
  unfolding mem
  deps_at_absent [] x h = refl
  deps_at_absent (s ∷ steps) x h = ground (arith, deps_at_absent steps x)

  pub listed_of_dep :
      (steps : List (AtomicStep F)) (x d : ℕ)
      → mem d (deps_at steps x) ≡ true
      → mem x (ids steps) ≡ true
  unfolding mem
  listed_of_dep [] x d h = cc
  listed_of_dep (s ∷ steps) x d h = ground (arith, listed_of_dep steps x d)

  pub degree-relax :
      (k : ℕ) (steps : List (AtomicStep F)) (w : Walk) (x : ℕ)
      → NoDup (ids steps)
      → degree x (relax k steps w).indegree
        ≡ (if mem k (deps_at steps x) then degree x w.indegree - 1 else degree x w.indegree)
  unfolding relax mem
  degree-relax k [] w x distinct = refl
  degree-relax k (s ∷ steps) w x distinct = elim (Bool-cases (mem k (depends_on s))) [
    | inl t ↦
        rw (t, relax)
          (ground (
            arith,
            degree-relax k steps (decrease (id s) w) x distinct.1,
            degree-decrease x (id s) w,
            deps_at_absent steps x,
          ))
    | inr f ↦
        rw (f, relax) (ground (arith, degree-relax k steps w x distinct.1, deps_at_absent steps x))
  ]

  pub held-relax :
      (k : ℕ) (steps : List (AtomicStep F)) (w : Walk) (x : ℕ)
      → is_some (lookup x (relax k steps w).indegree) ≡ is_some (lookup x w.indegree)
  unfolding relax
  held-relax k [] w x = refl
  held-relax k (s ∷ steps) w x = elim (Bool-cases (mem k (depends_on s))) [
    | inl t ↦
        rw (t, relax)
          (ground (arith, held-relax k steps (decrease (id s) w) x, held-decrease x (id s) w))
    | inr f ↦ rw (f, relax) (held-relax k steps w x)
  ]

  pub ready-relax :
      (k : ℕ) (steps : List (AtomicStep F)) (w : Walk) (x : ℕ)
      → NoDup (ids steps)
      → mem x (relax k steps w).ready ≡ (
          mem x w.ready
          || (mem k (deps_at steps x)
              && is_some (lookup x w.indegree)
              && (degree x w.indegree - 1 == 0)))
  unfolding relax mem
  ready-relax k [] w x distinct = ground arith
  ready-relax k (s ∷ steps) w x distinct = elim (Bool-cases (mem k (depends_on s))) [
    | inl t ↦
        rw (t, relax)
          (ground (
            arith,
            ready-relax k steps (decrease (id s) w) x distinct.1,
            ready-decrease x (id s) w,
            degree-decrease x (id s) w,
            held-decrease x (id s) w,
            deps_at_absent steps x,
          ))
    | inr f ↦
        rw (f, relax) (ground (arith, ready-relax k steps w x distinct.1, deps_at_absent steps x))
  ]

  -- No id is pushed twice, if none that depends on `k` is on the stack.
  pub relax-NoDup :
      (k : ℕ) (steps : List (AtomicStep F)) (w : Walk)
      → NoDup (ids steps)
      → NoDup w.ready
      → ((x : ℕ) → mem x w.ready ≡ true → mem k (deps_at steps x) ≡ false)
      → NoDup (relax k steps w).ready
  unfolding relax mem
  relax-NoDup k [] w distinct n h = n
  relax-NoDup k (s ∷ steps) w distinct n h = elim (Bool-cases (mem k (depends_on s))) [
    | inl t ↦
        rw (t, relax)
          (relax-NoDup k steps (decrease (id s) w) distinct.1
            (decrease-NoDup (id s) w n (ground (arith, h (id s))))
            (λ x m.
              ground (arith, h x, ready-decrease x (id s) w, deps_at_absent steps x, distinct.0)))
    | inr f ↦
        rw (f, relax)
          (relax-NoDup k steps w distinct.1 n (λ x m. ground (arith, h x, deps_at_absent steps x)))
  ]
