-- ===== src/Plan/Axis.antt =====
-- crates/paramodel-plan/src/axis.rs. A value is known to an axis by its content fingerprint only,
-- so the type of values and the fingerprint (a hash computed by a library) are parameters. The
-- description, the labels and the tags of an axis are carried along and never read here.
pub mod Laws
mod Examples
use mathlib.Core.Option
use mathlib.Core.List.{get_last?}
use hyperplane_rs.Prelude.{
  ℕ, zero, suc, Bool, false, not, ◌||◌, Option, none, some, List, [], ◌∷◌, length, any, ◌==◌,
  if◌then◌else◌,
}

pub record ElementParameterRef : Type 0 where
  pub element : ℕ
  pub parameter : ℕ

pub record Axis (V : Type 0) : Type 0 where
  pub name : ℕ
  pub target : ElementParameterRef
  pub values : List V
  pub boundary_values : Option (List V)

pub data PlanError : Type 0 where
  axis_values_empty axis_duplicate_value axis_boundary_not_subset : (axis : ℕ) → PlanError

pub data Result : Type 0 where
  ok : Result
  err : PlanError → Result

module _ {V : Type 0} where
  unfoldable pub cardinality : Axis V → ℕ
  cardinality a = length a.values

module _ {V : Type 0} (fingerprint : V → ℕ) where
  -- `any(|v| v.fingerprint() == fp)` over a list.
  unfoldable pub has_fingerprint : ℕ → List V → Bool
  has_fingerprint fp vs = any (λ v. fingerprint v == fp) vs

  unfoldable pub contains : Axis V → V → Bool
  unfolding has_fingerprint
  contains a value = has_fingerprint (fingerprint value) a.values

  -- `position`.
  unfoldable pub position : ℕ → List V → Option ℕ
  position fp [] = none
  position fp (v ∷ vs) = if fingerprint v == fp then some zero else Option.map suc (position fp vs)

  unfoldable pub index_of : Axis V → V → Option ℕ
  unfolding position
  index_of a value = position (fingerprint value) a.values

  -- The two ends of the value list, once if they have the same fingerprint.
  unfoldable pub ends : List V → List V
  ends [] = []
  ends (first ∷ vs) = elim (get_last? (first ∷ vs)) [
    | none ↦ first ∷ []
    | some last ↦
        if not (fingerprint last == fingerprint first) then first ∷ last ∷ [] else first ∷ []
  ]

  unfoldable pub effective_boundary_values : Axis V → List V
  unfolding ends
  effective_boundary_values a = elim a.boundary_values [ some bvs ↦ bvs | none ↦ ends a.values ]

  -- The double loop: whether two positions hold the same fingerprint.
  unfoldable pub has_duplicate : List V → Bool
  unfolding has_fingerprint
  has_duplicate [] = false
  has_duplicate (v ∷ vs) = has_fingerprint (fingerprint v) vs || has_duplicate vs

  -- The boundary loop: whether some boundary value is not among the values.
  unfoldable pub any_outside : List V → List V → Bool
  unfolding has_fingerprint
  any_outside values [] = false
  any_outside values (bv ∷ bvs) =
      not (has_fingerprint (fingerprint bv) values) || any_outside values bvs

  unfoldable pub validate_boundary : Axis V → Option (List V) → Result
  unfolding any_outside
  validate_boundary a none = ok
  validate_boundary a (some bvs) =
      if any_outside a.values bvs then err (axis_boundary_not_subset a.name) else ok

  unfoldable pub validate_values : Axis V → List V → Result
  unfolding has_duplicate validate_boundary
  validate_values a [] = err (axis_values_empty a.name)
  validate_values a (v ∷ vs) =
      if has_duplicate (v ∷ vs)
      then err (axis_duplicate_value a.name)
      else validate_boundary a a.boundary_values

  unfoldable pub validate : Axis V → Result
  unfolding validate_values
  validate a = validate_values a a.values
