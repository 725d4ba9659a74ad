-- ===== src/Plan/Axis/Laws.antt =====
-- What `validate`, `contains` and `index_of` promise, in terms of the values' fingerprints.
use hyperplane_rs.Prelude.{
  ℕ, zero, suc, ◌≡◌, ◌≢◌, ◌↔◌, ◌⊎◌, inl, inr, refl, true, false, Option, none, some, List, [], ◌∷◌,
  All, Bool-cases, arith,
}
use hyperplane_rs.Plan.Axis.{
  Axis, ok, has_fingerprint, contains, position, index_of, has_duplicate, any_outside,
  validate_boundary, validate_values, validate,
}

module _ {V : Type 0} (fingerprint : V → ℕ) where
  -- Some value of the list has the fingerprint.
  abbrev pub Occurs : ℕ → List V → Type 0
  Occurs fp [] = ⊥
  Occurs fp (v ∷ vs) = (fingerprint v ≡ fp) ⊎ Occurs fp vs

  -- No fingerprint occurs twice.
  abbrev pub AreDistinct : List V → Type 0
  AreDistinct [] = Unit
  AreDistinct (v ∷ vs) = (¬ Occurs (fingerprint v) vs) × AreDistinct vs

  abbrev pub Bounds : List V → Option (List V) → Type 0
  Bounds values none = Unit
  Bounds values (some bvs) = All (λ bv. Occurs (fingerprint bv) values) bvs

  pub has_fingerprint-Occurs :
      (fp : ℕ) (vs : List V) → (has_fingerprint fingerprint fp vs ≡ true) ↔ Occurs fp vs
  unfolding has_fingerprint
  has_fingerprint-Occurs fp [] = (λ e. cc, λ h. absurd h)
  has_fingerprint-Occurs fp (v ∷ vs) =
      let (there, back) = has_fingerprint-Occurs fp vs in
      (λ e. ground (arith, there), λ h. ground (arith, back))

  has_duplicate-AreDistinct :
      (vs : List V) → (has_duplicate fingerprint vs ≡ false) ↔ AreDistinct vs
  unfolding has_duplicate
  has_duplicate-AreDistinct [] = (λ _. tt, λ _. refl)
  has_duplicate-AreDistinct (v ∷ vs) =
      let (there, back) = has_fingerprint-Occurs (fingerprint v) vs in
      let rest = has_duplicate-AreDistinct vs in
      (
        λ e. (λ o. ground (arith, back o), rest.0 (ground arith)),
        λ h. elim (Bool-cases (has_fingerprint fingerprint (fingerprint v) vs)) [
          | inl t ↦ absurd (h.0 (there t))
          | inr f ↦ rw f (rest.1 h.1)
        ],
      )

  any_outside-Occurs :
      (values bvs : List V)
      → (any_outside fingerprint values bvs ≡ false)
        ↔ All (λ bv. Occurs (fingerprint bv) values) bvs
  unfolding any_outside
  any_outside-Occurs values [] = (λ _. tt, λ _. refl)
  any_outside-Occurs values (bv ∷ bvs) =
      let (there, back) = has_fingerprint-Occurs (fingerprint bv) values in
      let rest = any_outside-Occurs values bvs in
      (λ e. (there (ground arith), rest.0 (ground arith)), λ h. rw (back h.0) (rest.1 h.1))

  validate_boundary-Bounds :
      (a : Axis V) (bvs : Option (List V))
      → (validate_boundary fingerprint a bvs ≡ ok) ↔ Bounds a.values bvs
  unfolding validate_boundary
  validate_boundary-Bounds a none = (λ _. tt, λ _. refl)
  validate_boundary-Bounds a (some bvs) =
      let (there, back) = any_outside-Occurs a.values bvs in
      (λ e. there (ground arith), λ h. rw (back h))

  validate_values-ok :
      (a : Axis V) (vs : List V)
      → (validate_values fingerprint a vs ≡ ok)
        ↔ ((vs ≢ []) × AreDistinct vs × Bounds a.values a.boundary_values)
  unfolding validate_values
  validate_values-ok a [] = (λ h. absurd (ground arith), λ h. absurd (h.0 refl))
  validate_values-ok a (v ∷ vs) =
      let (distinct, ok_distinct) = has_duplicate-AreDistinct (v ∷ vs) in
      let (bounds, ok_bounds) = validate_boundary-Bounds a a.boundary_values in
      (
        λ e. (λ x. cc, distinct (ground arith), bounds (ground arith)),
        λ h. rw (ok_distinct h.1) (ok_bounds h.2),
      )

  -- `validate` accepts an axis exactly when it has a value, no two of its values have the same
  -- fingerprint, and each boundary value, if there are any, has the fingerprint of some value.
  pub validate_iff :
      (a : Axis V)
      → (validate fingerprint a ≡ ok)
        ↔ ((a.values ≢ []) × AreDistinct a.values × Bounds a.values a.boundary_values)
  unfolding validate
  validate_iff a = validate_values-ok a a.values

  -- The fingerprint stands at the position, and at none before it.
  abbrev pub FirstAt : ℕ → List V → ℕ → Type 0
  FirstAt fp [] i = ⊥
  FirstAt fp (v ∷ vs) zero = fingerprint v ≡ fp
  FirstAt fp (v ∷ vs) (suc i) = (fingerprint v ≢ fp) × FirstAt fp vs i

  position-FirstAt :
      (fp : ℕ) (vs : List V) (i : ℕ) → (position fingerprint fp vs ≡ some i) ↔ FirstAt fp vs i
  unfolding position
  position-FirstAt fp [] i = (λ e. cc, λ h. absurd h)
  position-FirstAt fp (v ∷ vs) zero = (λ e. ground arith, λ h. ground arith)
  position-FirstAt fp (v ∷ vs) (suc i) =
      let (there, back) = position-FirstAt fp vs i in
      (λ e. (ground arith, there (ground arith)), λ h. ground (arith, back h.1))

  position-none :
      (fp : ℕ) (vs : List V)
      → (position fingerprint fp vs ≡ none) ↔ (has_fingerprint fingerprint fp vs ≡ false)
  unfolding position has_fingerprint
  position-none fp [] = (λ _. refl, λ _. refl)
  position-none fp (v ∷ vs) =
      let (there, back) = position-none fp vs in
      (λ e. ground (arith, there), λ e. ground (arith, back))

  -- `index_of` gives a position exactly when the value's fingerprint stands there and at no
  -- position before it, and gives none exactly when `contains` is false.
  pub index_of-FirstAt :
      (a : Axis V) (value : V)
      → ((i : ℕ) → (index_of fingerprint a value ≡ some i) ↔ FirstAt (fingerprint value) a.values i)
        × ((index_of fingerprint a value ≡ none) ↔ (contains fingerprint a value ≡ false))
  unfolding index_of contains
  index_of-FirstAt a value = (
    λ i. position-FirstAt (fingerprint value) a.values i,
    position-none (fingerprint value) a.values,
  )
