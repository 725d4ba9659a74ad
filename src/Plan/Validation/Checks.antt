-- ===== src/Plan/Validation/Checks.antt =====
-- The checks of `TestPlan::validate` on elements, policies and axes.
use hyperplane_rs.Prelude.{
  ℕ, suc, ◌==◌, ◌≡◌, refl, sym, ap, ap₂, ◌∙◌, Bool, true, false, not, ◌&&◌, ◌||◌, Option, none,
  some, List, [], ◌∷◌, all, ltb, Option-cases, inl, inr, arith,
}
use hyperplane_rs.Prelude.IdSet.{mem, insert, mem-insert}
use hyperplane_rs.Prelude.Results.{Result, ok, err, ◌>>◌, ok-injective}
use hyperplane_rs.Plan.Axis
use hyperplane_rs.Plan.Axis.{Axis}
use hyperplane_rs.Plan.Elements.{
  ValueKind, Element, RetryPolicy, ExecutionPolicies, find_element, find_parameter, names,
}
use hyperplane_rs.Plan.Validation.{
  PlanError, zero_max_attempts, duplicate_axis_target, same_kind, refuse_if, check_elements,
  check_retry, check_policies, AxisTarget, axis_at, of_axis, refuse_prior, check_kinds,
  check_target, check_axis, check_axes,
}
use hyperplane_rs.Plan.Validation.WellFormed.{
  accepts, is_some, distinct, attempts_some, is_target, targets_distinct, parameter_of,
  parameter_at, takes, axis_fits, axis_names,
}

pub accepts->> {ℓ} :
    {A : Type ℓ} (m : Result PlanError (Unit {0})) (k : Result PlanError A)
    → accepts (m >> k) ≡ (accepts m && accepts k)
accepts->> (ok a) k = refl
accepts->> (err e) k = refl

pub then-ok {ℓ} :
    {A : Type ℓ} (m : Result PlanError (Unit {0})) (k : Result PlanError A) (a : A)
    → (m >> k) ≡ ok a
    → k ≡ ok a
then-ok (ok u) k a h = h
then-ok (err e) k a h = cc

pub accepts-refuse_if : (b : Bool) (e : PlanError) → accepts (refuse_if b e) ≡ not b
accepts-refuse_if true e = refl
accepts-refuse_if false e = refl

pub accepts-refuse_prior :
    (o : Option ℕ) (e : ℕ → PlanError) → accepts (refuse_prior o e) ≡ not (is_some o)
accepts-refuse_prior none e = refl
accepts-refuse_prior (some x) e = refl

abbrev pub fresh : List ℕ → List ℕ → Bool
fresh seen = all (λ x. not (mem x seen))

fresh-insert :
    (x : ℕ) (seen xs : List ℕ) → fresh (insert x seen) xs ≡ (not (mem x xs) && fresh seen xs)
unfolding mem
fresh-insert x seen [] = refl
fresh-insert x seen (y ∷ xs) = ground (arith, fresh-insert x seen xs, mem-insert y x seen)

pub check_elements_lem :
    (seen : List ℕ) (elements : List Element)
    → accepts (check_elements seen elements)
      ≡ (distinct (names elements) && fresh seen (names elements))
unfolding check_elements
check_elements_lem seen [] = refl
check_elements_lem seen (e ∷ elements) =
    accepts->> _ _
    ∙ ap₂ (◌&&◌) (accepts-refuse_if (mem e.name seen) _)
        (check_elements_lem (insert e.name seen) elements)
    ∙ ground (arith, fresh-insert e.name seen (names elements))

check_retry_lem : (policy : RetryPolicy) → accepts (check_retry policy) ≡ ltb 0 policy.max_attempts
unfolding check_retry
check_retry_lem policy =
    accepts-refuse_if (policy.max_attempts == 0) zero_max_attempts ∙ ground arith

pub check_policies_lem :
    (policies : ExecutionPolicies) → accepts (check_policies policies) ≡ attempts_some policies
unfolding check_policies
check_policies_lem policies =
    accepts->> (check_retry policies.trial_retry) (check_retry policies.element_deployment_retry)
    ∙ ap₂ (◌&&◌) (check_retry_lem policies.trial_retry)
        (check_retry_lem policies.element_deployment_retry)

abbrev pub unclaimed : List AxisTarget → List (Axis ℕ) → Bool
unclaimed targets = all (λ a. not (is_some (axis_at a.target.element a.target.parameter targets)))

unclaimed_cons :
    (t : AxisTarget) (targets : List AxisTarget) (axes : List (Axis ℕ))
    → unclaimed (t ∷ targets) axes
      ≡ (not (is_target t.element t.parameter axes) && unclaimed targets axes)
unfolding axis_at
unclaimed_cons t targets [] = refl
unclaimed_cons t targets (a ∷ axes) = ground (arith, unclaimed_cons t targets axes)

regroup : (v m t o : Bool) → (v && (not m && (t && not o))) ≡ ((v && t) && not m && not o)
regroup v m t o = ground arith

next_turn :
    (fit m o fits d fi i f td ci it c : Bool)
    → fi ≡ (not i && f)
    → ci ≡ (not it && c)
    → ((fit && not m && not o) && (fits && (d && fi) && (td && ci)))
      ≡ ((fit && fits) && ((not i && d) && (not m && f)) && ((not it && td) && (not o && c)))
next_turn fit m o fits d fi i f td ci it c h k = ground arith

module _ (kind_of : ℕ → ValueKind) (fingerprint : ℕ → ℕ) where
  check_kinds_lem :
      (axis : ℕ) (kind : ValueKind) (index : ℕ) (vs : List ℕ)
      → accepts (check_kinds kind_of fingerprint axis kind index vs)
        ≡ all (λ v. same_kind (kind_of v) kind) vs
  unfolding check_kinds
  check_kinds_lem axis kind index [] = refl
  check_kinds_lem axis kind index (v ∷ vs) =
      accepts->> _ _
      ∙ ap₂ (◌&&◌) (accepts-refuse_if (not (same_kind (kind_of v) kind)) _)
          (check_kinds_lem axis kind (suc index) vs)
      ∙ ground arith

  check_target_lem :
      (elements : List Element) (a : Axis ℕ)
      → accepts (check_target kind_of fingerprint elements a)
        ≡ takes kind_of fingerprint
            (parameter_at elements a.target.element a.target.parameter)
            a.values
  unfolding check_target
  check_target_lem elements a =
      let p = a.target.parameter in
      let asks : Option Element → Bool =
        λ o. takes kind_of fingerprint (parameter_of p o) a.values in
      elim (Option-cases (find_element a.target.element elements)) [
        | inl gone ↦
            let refused : accepts (check_target kind_of fingerprint elements a) ≡ false =
              rw (gone, check_target) refl in
            refused ∙ sym (ap asks gone)
        | inr (e, is) ↦ elim (Option-cases (find_parameter p e.parameters)) [
          | inl gone ↦
              let refused : accepts (check_target kind_of fingerprint elements a) ≡ false =
                rw (is, gone, check_target) refl in
              refused ∙ sym (ap asks is ∙ ap (λ o. takes kind_of fingerprint o a.values) gone)
          | inr (q, found) ↦
              let checked : accepts (check_target kind_of fingerprint elements a)
                  ≡ takes kind_of fingerprint (some q) a.values =
                rw (is, found, check_target)
                  (accepts->> _ _
                    ∙ ap₂ (◌&&◌) (accepts-refuse_if q.is_derived _)
                        (check_kinds_lem a.name q.kind 0 a.values)) in
              checked ∙ sym (ap asks is ∙ ap (λ o. takes kind_of fingerprint o a.values) found)
        ]
      ]

  check_axis_lem :
      (elements : List Element) (seen : List ℕ) (targets : List AxisTarget) (a : Axis ℕ)
      → accepts (check_axis kind_of fingerprint elements seen targets a) ≡ (
          axis_fits kind_of fingerprint elements a
          && not (mem a.name seen)
          && not (is_some (axis_at a.target.element a.target.parameter targets)))
  unfolding check_axis
  check_axis_lem elements seen targets a =
      let e = a.target.element in
      let p = a.target.parameter in
      accepts->> _ _
      ∙ ap (λ b. accepts (of_axis (Axis.validate fingerprint a)) && b)
          (accepts->> _ _
            ∙ ap₂ (◌&&◌) (accepts-refuse_if (mem a.name seen) _) (
                accepts->> _ _
                ∙ ap₂ (◌&&◌) (check_target_lem elements a) (
                    accepts-refuse_prior (axis_at e p targets)
                      (λ prior. duplicate_axis_target prior a.name e p))))
      ∙ regroup (accepts (of_axis (Axis.validate fingerprint a))) (mem a.name seen)
          (takes kind_of fingerprint (parameter_at elements e p) a.values)
          (is_some (axis_at e p targets))

  abbrev pub axes_left : List Element → List ℕ → List AxisTarget → List (Axis ℕ) → Bool
  axes_left elements seen targets axes =
      all (axis_fits kind_of fingerprint elements) axes
      && (distinct (axis_names axes) && fresh seen (axis_names axes))
      && (targets_distinct axes && unclaimed targets axes)

  abbrev pub target_of : Axis ℕ → AxisTarget
  target_of a = record { element = a.target.element; parameter = a.target.parameter; axis = a.name }

  pub check_axes_lem :
      (elements : List Element) (seen : List ℕ) (targets : List AxisTarget) (axes : List (Axis ℕ))
      → accepts (check_axes kind_of fingerprint elements seen targets axes)
        ≡ axes_left elements seen targets axes
  unfolding check_axes
  check_axes_lem elements seen targets [] = refl
  check_axes_lem elements seen targets (a ∷ axes) =
      accepts->> _ _
      ∙ ap₂ (◌&&◌) (check_axis_lem elements seen targets a)
          (check_axes_lem elements (insert a.name seen) (target_of a ∷ targets) axes)
      ∙ next_turn (axis_fits kind_of fingerprint elements a) (mem a.name seen)
          (is_some (axis_at a.target.element a.target.parameter targets))
          (all (axis_fits kind_of fingerprint elements) axes) (distinct (axis_names axes))
          (fresh (insert a.name seen) (axis_names axes)) (mem a.name (axis_names axes))
          (fresh seen (axis_names axes)) (targets_distinct axes)
          (unclaimed (target_of a ∷ targets) axes)
          (is_target a.target.element a.target.parameter axes) (unclaimed targets axes)
          (fresh-insert a.name seen (axis_names axes)) (unclaimed_cons (target_of a) targets axes)

  pub check_axes-targets :
      (e p : ℕ) (elements : List Element) (seen : List ℕ) (targets out : List AxisTarget)
      (axes : List (Axis ℕ))
      → check_axes kind_of fingerprint elements seen targets axes ≡ ok out
      → is_some (axis_at e p out) ≡ (is_some (axis_at e p targets) || is_target e p axes)
  unfolding check_axes axis_at
  check_axes-targets e p elements seen targets out [] h =
      let same : targets ≡ out = ok-injective h in rw (← same) (ground arith)
  check_axes-targets e p elements seen targets out (a ∷ axes) h =
      let rest =
        check_axes-targets e p elements (insert a.name seen) (target_of a ∷ targets) out axes
          (then-ok (check_axis kind_of fingerprint elements seen targets a) _ out h) in
      rest ∙ ground arith
