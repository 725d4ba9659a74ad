-- ===== src/Plan/Validation/WellFormed.antt =====
-- What a plan must be for `TestPlan::validate` to accept it.
use hyperplane_rs.Prelude.{
  ℕ, ◌==◌, Bool, true, false, not, ◌&&◌, Option, none, some, List, [], ◌∷◌, all, any, map, ltb,
}
use hyperplane_rs.Prelude.IdSet.{mem}
use hyperplane_rs.Prelude.Results.{Result, ok, err}
use hyperplane_rs.Plan.Axis
use hyperplane_rs.Plan.Axis.{Axis}
use hyperplane_rs.Plan.Elements.{
  ValueKind, Parameter, Element, PlanBinding, ExecutionPolicies, TestPlan, find_element,
  find_parameter, names,
}
use hyperplane_rs.Plan.Validation.{PlanError, same_kind, of_axis}

abbrev pub accepts {ℓ} : {A : Type ℓ} → Result PlanError A → Bool
accepts (ok a) = true
accepts (err e) = false

abbrev pub is_some {ℓ} : {A : Type ℓ} → Option A → Bool
is_some none = false
is_some (some a) = true

-- No name stands twice.
abbrev pub distinct : List ℕ → Bool
distinct [] = true
distinct (x ∷ xs) = not (mem x xs) && distinct xs

-- Every retry policy has an attempt.
abbrev pub attempts_some : ExecutionPolicies → Bool
attempts_some policies =
    ltb 0 policies.trial_retry.max_attempts && ltb 0 policies.element_deployment_retry.max_attempts

-- Some axis has the target.
abbrev pub is_target : ℕ → ℕ → List (Axis ℕ) → Bool
is_target e p = any (λ a. (a.target.element == e) && (a.target.parameter == p))

-- No two axes have one target.
abbrev pub targets_distinct : List (Axis ℕ) → Bool
targets_distinct [] = true
targets_distinct (a ∷ axes) =
    not (is_target a.target.element a.target.parameter axes) && targets_distinct axes

abbrev pub parameter_of : ℕ → Option Element → Option Parameter
parameter_of p none = none
parameter_of p (some e) = find_parameter p e.parameters

-- The parameter that a coordinate names.
abbrev pub parameter_at : List Element → ℕ → ℕ → Option Parameter
parameter_at elements e p = parameter_of p (find_element e elements)

abbrev pub axis_names : List (Axis ℕ) → List ℕ
axis_names = map (λ a. a.name)

module _ (kind_of : ℕ → ValueKind) (fingerprint : ℕ → ℕ) where
  -- The target of an axis is a parameter that is not derived, and the values are of its kind.
  abbrev pub takes : Option Parameter → List ℕ → Bool
  takes none values = false
  takes (some q) values = not q.is_derived && all (λ v. same_kind (kind_of v) q.kind) values

  -- What `validate` asks of an axis on its own.
  abbrev pub axis_fits : List Element → Axis ℕ → Bool
  axis_fits elements a =
      accepts (of_axis (Axis.validate fingerprint a))
      && takes (parameter_at elements a.target.element a.target.parameter) a.values

  -- A binding names a parameter that no axis varies.
  abbrev pub binding_fits : List Element → List (Axis ℕ) → PlanBinding → Bool
  binding_fits elements axes b =
      is_some (parameter_at elements b.element b.parameter)
      && not (is_target b.element b.parameter axes)

  -- The conditions on a plan, as tests over it.
  abbrev pub is_well_formed : TestPlan → Bool
  is_well_formed plan =
      distinct (names plan.elements)
      && attempts_some plan.policies
      && (all (axis_fits plan.elements) plan.axes
          && distinct (axis_names plan.axes)
          && targets_distinct plan.axes)
      && all (binding_fits plan.elements plan.axes) plan.bindings
