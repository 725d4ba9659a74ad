-- ===== src/Compiler/Coalescing/Agreement.antt =====
-- `current_activate_id` and `current_teardown_id` name the steps that `apply_coalescing` keeps.
use hyperplane_rs.Prelude.{
  ℕ, ◌<◌, ◌==◌, ◌≡◌, refl, sym, ap, ap₂, ◌∙◌, Bool, true, false, not, ◌&&◌, some, List, [], ◌∷◌,
  All, Bool-cases, inl, inr, arith,
}
use hyperplane_rs.Prelude.IdSet.{mem, lookup}
use hyperplane_rs.Prelude.Distinct.{NoDup}
use hyperplane_rs.Prelude.Results.{ok, ok-injective, Result-cases}
use hyperplane_rs.Plan.Elements.{TestPlan, names}
use hyperplane_rs.Plan.Step.{AtomicStep, id, depends_on}
use hyperplane_rs.Plan.Graph.{ids}
use hyperplane_rs.Enumerator.{MixedRadixEnumerator}
use hyperplane_rs.Compiler.Binding.{BindingStateComputer}
use hyperplane_rs.Compiler.Edges.{set_deps_lem}
use hyperplane_rs.Compiler.Ids.{StepIds}
use hyperplane_rs.Compiler.Lifeline.{drop_steps}
use hyperplane_rs.Compiler.Coalescing.{
  Coalesced, coalesce_elements, folded_deps, deps_or_none, erase, gather_extra, absorb, fold_steps,
  none_removed, apply_coalescing, current_activate_id, current_teardown_id,
}
use hyperplane_rs.Compiler.Coalescing.Turn.{DistinctIds}
use hyperplane_rs.Compiler.Coalescing.Elements.{
  coalesce_elements-deploy, coalesce_elements-teardown,
}

is_nil_lem : (xs : List ℕ) (a : ℕ) → none_removed xs ≡ true → mem a xs ≡ false
unfolding none_removed mem
is_nil_lem [] a h = refl
is_nil_lem (x ∷ xs) a h = cc

module _ {F : Type 0} where
  mem-ids-drop_steps :
      (p : ℕ → Bool) (a : ℕ) (steps : List (AtomicStep F))
      → mem a (ids (drop_steps p steps)) ≡ (mem a (ids steps) && not (p a))
  unfolding drop_steps mem
  mem-ids-drop_steps p a [] = refl
  mem-ids-drop_steps p a (s ∷ steps) =
      ground (arith, mem-ids-drop_steps p a steps, λ (e : a ≡ id s). ap p e)

  ids-absorb :
      (remap : List (ℕ × ℕ)) (steps : List (AtomicStep F)) (extra : List (ℕ × List ℕ))
      → ids (absorb remap steps extra) ≡ ids steps
  unfolding absorb
  ids-absorb remap [] extra = refl
  ids-absorb remap (s ∷ steps) extra =
      ap₂ (◌∷◌)
        (set_deps_lem (folded_deps remap (id s) (depends_on s) (deps_or_none (lookup (id s) extra)))
          s).0
        (ids-absorb remap steps (erase (id s) extra))

  fold_steps-ids :
      (c : Coalesced) (steps out : List (AtomicStep F)) (a : ℕ)
      → fold_steps c steps ≡ ok out
      → mem a (ids out) ≡ (mem a (ids steps) && not (mem a c.to_remove))
  unfolding fold_steps
  fold_steps-ids c steps out a h = elim (Result-cases (gather_extra c steps [])) [
    | inr (x, wrong) ↦ absurd (let clash = rw (wrong, fold_steps) at h in cc)
    | inl (extra, right) ↦
        let kept = drop_steps (λ k. mem k c.to_remove) steps in
        let done : absorb c.remap kept extra ≡ out = ok-injective (rw (right, fold_steps) at h) in
        ap (λ o. mem a (ids o)) (sym done)
        ∙ ap (mem a) (ids-absorb c.remap kept extra)
        ∙ mem-ids-drop_steps (λ k. mem k c.to_remove) a steps
  ]

  -- What is left of the steps, from the folding that precedes it.
  apply_coalescing-ids :
      (plan : TestPlan) (m : StepIds) (enumerator : MixedRadixEnumerator)
      (bsc : BindingStateComputer) (trial_elements : List ℕ) (steps out : List (AtomicStep F))
      → 0 < enumerator.trial_count
      → apply_coalescing plan m enumerator enumerator.trial_count bsc trial_elements steps ≡ ok out
      → (c : Coalesced) × (coalesce_elements m enumerator enumerator.trial_count bsc trial_elements
            plan.elements
            (record { remap = []; to_remove = [] })
          ≡ ok c)
        × ((a : ℕ) → mem a (ids out) ≡ (mem a (ids steps) && not (mem a c.to_remove)))
  unfolding apply_coalescing
  apply_coalescing-ids plan m enumerator bsc trial_elements steps out pos h =
      let n = enumerator.trial_count in
      let some_trial : (enumerator.trial_count == 0) ≡ false = ground arith in
      elim (Result-cases (
        coalesce_elements m enumerator n bsc trial_elements plan.elements
          (record { remap = []; to_remove = [] }))) [
            | inr (x, wrong) ↦
                absurd (let clash = rw (some_trial, wrong, apply_coalescing) at h in cc)
            | inl (c, right) ↦ elim (Bool-cases (none_removed c.to_remove)) [
              | inl nothing ↦
                  let same : steps ≡ out =
                    ok-injective (rw (some_trial, right, nothing, apply_coalescing) at h) in
                  (
                    c,
                    right,
                    λ a. rw (is_nil_lem c.to_remove a nothing) (rw (← same) (ground arith)),
                  )
              | inr more ↦ (
                c,
                right,
                λ a.
                    fold_steps-ids c steps out a
                      (rw (some_trial, right, more, apply_coalescing) at h),
              )
            ]
          ]

module _ {F : Type 0} (plan : TestPlan) (m : StepIds) (distinct : DistinctIds m)
    (enumerator : MixedRadixEnumerator) (positive : 0 < enumerator.trial_count)
    (strides : All (λ x. 0 < x) enumerator.strides) (bsc : BindingStateComputer)
    (trial_elements : List ℕ) where
  -- With distinct element names and step ids, a trial and no stride 0: where `apply_coalescing`
  -- succeeds, `current_activate_id` and `current_teardown_id` succeed for each element of the plan
  -- and each trial of which both steps have ids, and each of these steps is left exactly if it was
  -- there and its id is the one that they give.
  pub apply_coalescing-current :
      (steps out : List (AtomicStep F))
      → NoDup (names plan.elements)
      → apply_coalescing plan m enumerator enumerator.trial_count bsc trial_elements steps ≡ ok out
      → (x s a b : ℕ) → mem x (names plan.elements) ≡ true
      → s < enumerator.trial_count
      → m.deploy_id_of x s ≡ some a
      → m.teardown_id_of x s ≡ some b
      → ((k : ℕ) × (current_activate_id x s trial_elements bsc enumerator m.deploy_id_of
            ≡ ok (some k))
          × (mem a (ids out) ≡ (mem a (ids steps) && (a == k))))
        × ((k : ℕ) × (current_teardown_id x s trial_elements bsc enumerator enumerator.trial_count
                m.teardown_id_of
              ≡ ok (some k))
            × (mem b (ids out) ≡ (mem b (ids steps) && (b == k))))
  unfolding mem
  apply_coalescing-current steps out nodup h x s a b there lt deploys tears =
      let (c, folded, left) =
        apply_coalescing-ids plan m enumerator bsc trial_elements steps out positive h in
      let start : Coalesced = record { remap = []; to_remove = [] } in
      let of_deploy = left a in
      let of_teardown = left b in
      let (k, activate, f) =
        coalesce_elements-deploy m distinct enumerator positive strides bsc trial_elements
          plan.elements x s a start c nodup there folded lt deploys in
      let (j, teardown, g) =
        coalesce_elements-teardown m distinct enumerator positive strides bsc trial_elements
          plan.elements x s b start c nodup there folded lt tears in
      ((k, activate, ground arith), (j, teardown, ground arith))
