-- ===== src/Compiler/Reduction/Closure.antt =====
-- `apply_transitive_reduction` and the paths of the graph.
use hyperplane_rs.Prelude.{
  ℕ, zero, suc, ◌+◌, ◌<◌, ◌==◌, ◌≡◌, ◌↔◌, refl, sym, subst, ◌∙◌, Bool, true, false, not, ◌&&◌, ◌||◌,
  some, List, [], ◌∷◌, ◌++◌, Bool-cases, inl, inr, arith,
}
use hyperplane_rs.Prelude.IdSet.{mem}
use hyperplane_rs.Prelude.Distinct.{NoDup}
use hyperplane_rs.Plan.Step.{AtomicStep}
use hyperplane_rs.Plan.Graph.{ids}
use hyperplane_rs.Plan.Graph.Relax.{deps_at}
use hyperplane_rs.Plan.Graph.Dag.{IsDag}
use hyperplane_rs.Compiler.Edges.{
  remove_dependency, ids-remove_dependency, deps_at-remove_dependency,
}
use hyperplane_rs.Compiler.Reduction.{
  outgoing, redundant_of, redundant_all, drop_edges, apply_transitive_reduction,
}
use hyperplane_rs.Compiler.Reduction.Search.{Leads, edge, more, trans, is_redundant-lem}

abbrev pub has_pair : ℕ → ℕ → List (ℕ × ℕ) → Bool
has_pair a b [] = false
has_pair a b ((n, s) ∷ pairs) = ((a == n) && (b == s)) || has_pair a b pairs

has_pair-append :
    (a b : ℕ) (ps qs : List (ℕ × ℕ))
    → has_pair a b (ps ++ qs) ≡ (has_pair a b ps || has_pair a b qs)
has_pair-append a b [] qs = refl
has_pair-append a b (p ∷ ps) qs = ground (arith, has_pair-append a b ps qs)

module _ {F : Type 0} where
  -- A path from `a` to `b` through another successor of `a`.
  abbrev Detour : List (AtomicStep F) → ℕ → ℕ → Type 0
  Detour steps a b = (x : ℕ) × (mem a (deps_at steps x) ≡ true) × Leads steps x b

  module _ (steps : List (AtomicStep F)) (distinct : NoDup (ids steps)) where
    -- Every collected edge has a detour.
    abbrev AllDetours : List (ℕ × ℕ) → Type 0
    AllDetours pairs = (a b : ℕ) → has_pair a b pairs ≡ true → Detour steps a b

    cons-AllDetours :
        (n s : ℕ) (pairs : List (ℕ × ℕ))
        → Detour steps n s
        → AllDetours pairs
        → AllDetours ((n, s) ∷ pairs)
    cons-AllDetours n s pairs d h a b m = elim (Bool-cases (has_pair a b pairs)) [
      | inl t ↦ h a b t
      | inr f ↦
          let x : a ≡ n = ground arith in
          let y : b ≡ s = ground arith in
          subst (λ i. Detour steps i b) (sym x) (subst (λ j. Detour steps n j) (sym y) d)
    ]

    redundant_of-AllDetours :
        (n : ℕ) (succs : List ℕ)
        → (pairs : List (ℕ × ℕ)) × (redundant_of steps n succs ≡ some pairs) × AllDetours pairs
    unfolding redundant_of
    redundant_of-AllDetours n [] = ([], refl, λ a b m. absurd (ground arith))
    redundant_of-AllDetours n (s ∷ succs) =
        let (r, e, d) = is_redundant-lem steps distinct n s in
        let (pairs, p, h) = redundant_of-AllDetours n succs in
        elim (Bool-cases r) [
          | inl t ↦ ((n, s) ∷ pairs, rw (e, p, t) refl, cons-AllDetours n s pairs (d t) h)
          | inr f ↦ (pairs, rw (e, p, f) refl, h)
        ]

    redundant_all-AllDetours :
        (ns : List ℕ)
        → (pairs : List (ℕ × ℕ)) × (redundant_all steps ns ≡ some pairs) × AllDetours pairs
    unfolding redundant_all
    redundant_all-AllDetours [] = ([], refl, λ a b m. absurd (ground arith))
    redundant_all-AllDetours (n ∷ ns) =
        let (here, e, d) = redundant_of-AllDetours n (outgoing n steps) in
        let (rest, p, h) = redundant_all-AllDetours ns in
        (
          here ++ rest,
          rw (e, p) refl,
          λ a b m. elim (Bool-cases (has_pair a b here)) [
            | inl t ↦ d a b t
            | inr f ↦ h a b (ground (arith, has_pair-append a b here rest))
          ],
        )

  ids-drop_edges :
      (pairs : List (ℕ × ℕ)) (steps : List (AtomicStep F))
      → ids (drop_edges pairs steps) ≡ ids steps
  unfolding drop_edges
  ids-drop_edges [] steps = refl
  ids-drop_edges ((n, s) ∷ pairs) steps =
      ids-drop_edges pairs (remove_dependency s n steps) ∙ ids-remove_dependency s n steps

  deps_at-drop_edges :
      (pairs : List (ℕ × ℕ)) (steps : List (AtomicStep F)) (x d : ℕ)
      → mem d (deps_at (drop_edges pairs steps) x)
        ≡ (mem d (deps_at steps x) && not (has_pair d x pairs))
  unfolding drop_edges
  deps_at-drop_edges [] steps x d = ground arith
  deps_at-drop_edges ((n, s) ∷ pairs) steps x d = ground (
    arith,
    deps_at-drop_edges pairs (remove_dependency s n steps) x d,
    deps_at-remove_dependency s n steps x d,
  )

  module _ (steps out : List (AtomicStep F)) (dag : IsDag steps) where
    pub Leads-rank : {a b : ℕ} → Leads steps a b → dag.rank a < dag.rank b
    Leads-rank {a} {b} (edge e) = dag.falls b a e
    Leads-rank {a} {b = c} (more {b} l e) = omega (arith, Leads-rank l, dag.falls c b e)

    module _ (pairs : List (ℕ × ℕ)) (detours : AllDetours steps dag.distinct pairs)
        (dropped : (x d : ℕ)
          → mem d (deps_at out x) ≡ (mem d (deps_at steps x) && not (has_pair d x pairs))) where
      -- By induction on the span of the ranks.
      drop_edges-Leads :
          (n : ℕ) {a b : ℕ} → Leads steps a b → dag.rank b < dag.rank a + n → Leads out a b
      drop_edges-Leads zero l h = absurd (omega (arith, Leads-rank l))
      drop_edges-Leads (suc n) {a} {b} (edge e) h = elim (Bool-cases (has_pair a b pairs)) [
        | inr f ↦ edge (ground (arith, dropped b a))
        | inl t ↦
            let (x, first, rest) = detours a b t in
            trans (drop_edges-Leads n (edge first) (omega (arith, Leads-rank rest)))
              (drop_edges-Leads n rest (omega (arith, dag.falls x a first)))
      ]
      drop_edges-Leads (suc n) {a} {b = c} (more {b} l e) h =
          trans (drop_edges-Leads n l (omega (arith, dag.falls c b e)))
            (drop_edges-Leads n (edge e) (omega (arith, Leads-rank l)))

      Leads-drop_edges : {a b : ℕ} → Leads out a b → Leads steps a b
      Leads-drop_edges {a} {b} (edge e) = edge (ground (arith, dropped b a))
      Leads-drop_edges {a} {b = c} (more {b} l e) =
          more (Leads-drop_edges l) (ground (arith, dropped c b))

  -- On an acyclic graph `apply_transitive_reduction` returns, keeps the steps' ids, adds no
  -- dependency, and keeps which steps lead to which through dependencies.
  pub transitive_reduction_closure :
      (steps : List (AtomicStep F))
      → IsDag steps
      → (out : List (AtomicStep F)) × (apply_transitive_reduction steps ≡ some out)
        × (ids out ≡ ids steps)
        × ((x d : ℕ) → mem d (deps_at out x) ≡ true → mem d (deps_at steps x) ≡ true)
        × ((a b : ℕ) → Leads out a b ↔ Leads steps a b)
  unfolding apply_transitive_reduction
  transitive_reduction_closure steps dag =
      let (pairs, e, detours) = redundant_all-AllDetours steps dag.distinct (ids steps) in
      let out = drop_edges pairs steps in
      let dropped = deps_at-drop_edges pairs steps in
      (
        out,
        rw e refl,
        ids-drop_edges pairs steps,
        λ x d m. ground (arith, dropped x d),
        λ a b. (
          λ l. Leads-drop_edges steps out dag pairs detours dropped l,
          λ l.
              drop_edges-Leads steps out dag pairs detours dropped (suc (dag.rank b)) l
                (omega arith),
        ),
      )
