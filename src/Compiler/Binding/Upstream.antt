-- ===== src/Compiler/Binding/Upstream.antt =====
-- The paths along the dependencies that propagate levels.
use hyperplane_rs.Prelude.{
  ℕ, suc, ◌≤◌, ◌==◌, ◌≡◌, refl, sym, subst, Bool, true, List, [], ◌∷◌, length, length-map,
  Bool-cases, inl, inr, arith,
}
use hyperplane_rs.Prelude.IdSet.{mem}
use hyperplane_rs.Prelude.Distinct.{NoDup, length-le_of_subset}
use hyperplane_rs.Plan.Elements.{Element, names}
use hyperplane_rs.Compiler.Binding.Passes.{deps_named, pulls_in}

-- `x` has a dependency on `y` that propagates levels.
abbrev pub pulls : List Element → ℕ → ℕ → Bool
pulls elements x y = pulls_in (deps_named elements x) y

-- `y` is `x`, or stands behind such dependencies of it.
pub data Upstream (elements : List Element) (x : ℕ) : ℕ → Type 0 where
  here : Upstream elements x x
  on : {w y : ℕ} → Upstream elements x w → pulls elements w y ≡ true → Upstream elements x y

-- A path with its elements, the last one first.
pub data Trail (elements : List Element) (x : ℕ) : List ℕ → ℕ → Type 0 where
  start : Trail elements x (x ∷ []) x
  step :
      {w y : ℕ} {ws : List ℕ}
      → Trail elements x ws w
      → pulls elements w y ≡ true
      → Trail elements x (y ∷ ws) y

pulls_listed :
    (elements : List Element) (x y : ℕ) → pulls elements x y ≡ true → mem x (names elements) ≡ true
unfolding mem
pulls_listed [] x y h = cc
pulls_listed (e ∷ elements) x y h = elim (Bool-cases (x == e.name)) [
  | inl t ↦ ground arith
  | inr f ↦
      let later : pulls elements x y ≡ true = rw (f, pulls, deps_named) at h in
      ground (arith, pulls_listed elements x y later)
]

module _ (elements : List Element) where
  pub trans_front :
      {x z y : ℕ} → pulls elements x z ≡ true → Upstream elements z y → Upstream elements x y
  trans_front p here = on here p
  trans_front p (on u q) = on (trans_front p u) q

  -- A path without repetition.
  abbrev pub Simple : ℕ → ℕ → Type 0
  Simple x y = (ws : List ℕ) × Trail elements x ws y × NoDup ws

  cut :
      {x w : ℕ} {ws : List ℕ}
      → Trail elements x ws w
      → NoDup ws
      → (y : ℕ) → mem y ws ≡ true
      → Simple x y
  unfolding mem
  cut {x} start n y m =
      let same : y ≡ x = ground arith in subst (λ i. Simple x i) (sym same) (x ∷ [], start, n)
  cut {x} {w} {ws = v ∷ ws} (step t p) n y m = elim (Bool-cases (y == w)) [
    | inl e ↦
        let same : y ≡ w = ground arith in subst (λ i. Simple x i) (sym same) (w ∷ ws, step t p, n)
    | inr f ↦ cut t n.1 y (ground arith)
  ]

  pub Upstream-Simple : {x y : ℕ} → Upstream elements x y → Simple x y
  unfolding mem
  Upstream-Simple {x} here = (x ∷ [], start, (refl, tt))
  Upstream-Simple {x} {y} (on u p) =
      let (ws, t, n) = Upstream-Simple u in
      elim (Bool-cases (mem y ws)) [ inl m ↦ cut t n y m | inr f ↦ (y ∷ ws, step t p, (f, n)) ]

  -- All but the last element of a path have dependencies.
  followed :
      {x w : ℕ} {ws : List ℕ}
      → Trail elements x ws w
      → (y : ℕ) → pulls elements w y ≡ true
      → (z : ℕ) → mem z ws ≡ true
      → mem z (names elements) ≡ true
  unfolding mem
  followed {x} start y p z m =
      let same : z ≡ x = ground arith in
      subst (λ i. mem i (names elements) ≡ true) (sym same) (pulls_listed elements x y p)
  followed {w} (step t q) y p z m = elim (Bool-cases (z == w)) [
    | inl e ↦
        let same : z ≡ w = ground arith in
        subst (λ i. mem i (names elements) ≡ true) (sym same) (pulls_listed elements w y p)
    | inr f ↦ followed t w q z (ground arith)
  ]

  pub length-Trail :
      {x y : ℕ} {ws : List ℕ} → Trail elements x ws y → NoDup ws → length ws ≤ suc (length elements)
  length-Trail start n = omega arith
  length-Trail {y} {ws = v ∷ ws} (step t p) n = omega (
    arith,
    length-le_of_subset ws (names elements) n.1 (followed t y p),
    length-map elements (λ e. e.name),
  )
