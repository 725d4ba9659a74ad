-- ===== src/Compiler/Coalescing/Elements.antt =====
-- The turns of all elements in `apply_coalescing`, against the live steps of one.
use hyperplane_rs.Prelude.{
  ℕ, ◌≢◌, ◌<◌, ◌==◌, ◌≡◌, ap, subst, ◌∙◌, true, false, some, List, [], ◌∷◌, All, Bool-cases, inl,
  inr, arith,
}
use hyperplane_rs.Prelude.IdSet.{mem}
use hyperplane_rs.Prelude.Distinct.{NoDup}
use hyperplane_rs.Prelude.Results.{ok, Result-cases}
use hyperplane_rs.Plan.Elements.{Element, names}
use hyperplane_rs.Enumerator.{MixedRadixEnumerator}
use hyperplane_rs.Compiler.Binding.{BindingStateComputer}
use hyperplane_rs.Compiler.Ids.{StepIds}
use hyperplane_rs.Compiler.Coalescing.{
  Coalesced, coalesce_element, coalesce_elements, current_activate_id, current_teardown_id,
}
use hyperplane_rs.Compiler.Coalescing.Folding.{is_id}
use hyperplane_rs.Compiler.Coalescing.Group.{Folded, Kept, Folded-Kept, Kept-Folded}
use hyperplane_rs.Compiler.Coalescing.Turn.{
  DistinctIds, not_id, coalesce_element-Kept, coalesce_element-deploy, coalesce_element-teardown,
}

module _ (m : StepIds) (distinct : DistinctIds m) (enumerator : MixedRadixEnumerator)
    (positive : 0 < enumerator.trial_count) (strides : All (λ x. 0 < x) enumerator.strides)
    (bsc : BindingStateComputer) (trial_elements : List ℕ) where
  abbrev n : ℕ
  n = enumerator.trial_count

  coalesce_elements-Kept :
      (elements : List Element) (x a : ℕ) (c c' : Coalesced)
      → coalesce_elements m enumerator n bsc trial_elements elements c ≡ ok c'
      → mem x (names elements) ≡ false
      → ((y s : ℕ) → y ≢ x → is_id a (m.deploy_id_of y s) ≡ false)
      → ((y s : ℕ) → y ≢ x → is_id a (m.teardown_id_of y s) ≡ false)
      → Kept a c c'
  unfolding coalesce_elements mem
  coalesce_elements-Kept [] x a c c' h away d t = let same : ok c ≡ ok c' = h in ground arith
  coalesce_elements-Kept (e ∷ elements) x a c c' h away d t =
      let other : e.name ≢ x = ground arith in
      elim (Result-cases (coalesce_element m enumerator n bsc trial_elements e c)) [
        | inr (y, wrong) ↦ absurd (let clash = rw (wrong, coalesce_elements) at h in cc)
        | inl (c1, right) ↦
            let here =
              coalesce_element-Kept m distinct enumerator positive strides bsc trial_elements e a c
                c1 right (λ s. d e.name s other) (λ s. t e.name s other) in
            let later =
              coalesce_elements-Kept elements x a c1 c' (rw (right, coalesce_elements) at h)
                (ground arith) d t in
            ground arith
      ]

  -- What the turn of the element makes of an id of it stays.
  coalesce_elements_lem :
      (x a : ℕ) (P : ℕ → Type 0)
      → ((y s : ℕ) → y ≢ x → is_id a (m.deploy_id_of y s) ≡ false)
      → ((y s : ℕ) → y ≢ x → is_id a (m.teardown_id_of y s) ≡ false)
      → ((e : Element) (c c' : Coalesced)
          → e.name ≡ x
          → coalesce_element m enumerator n bsc trial_elements e c ≡ ok c'
          → (k : ℕ) × P k × Folded a k c c')
      → (elements : List Element) (c c' : Coalesced) → NoDup (names elements)
      → mem x (names elements) ≡ true
      → coalesce_elements m enumerator n bsc trial_elements elements c ≡ ok c'
      → (k : ℕ) × P k × Folded a k c c'
  unfolding coalesce_elements mem
  coalesce_elements_lem x a P d t one [] c c' distinct_names there h = cc
  coalesce_elements_lem x a P d t one (e ∷ elements) c c' distinct_names there h =
      elim (Result-cases (coalesce_element m enumerator n bsc trial_elements e c)) [
        | inr (y, wrong) ↦ absurd (let clash = rw (wrong, coalesce_elements) at h in cc)
        | inl (c1, right) ↦
            let rest = rw (right, coalesce_elements) at h in
            elim (Bool-cases (x == e.name)) [
              | inl same ↦
                  let is : e.name ≡ x = ground arith in
                  let gone : mem x (names elements) ≡ false = rw (← is) distinct_names.0 in
                  let (k, p, here) = one e c c1 is right in
                  (
                    k,
                    p,
                    Folded-Kept a k c c1 c' here
                        (coalesce_elements-Kept elements x a c1 c' rest gone d t),
                  )
              | inr f ↦
                  let other : e.name ≢ x = ground arith in
                  let here =
                    coalesce_element-Kept m distinct enumerator positive strides bsc trial_elements
                      e a c c1 right (λ s. d e.name s other) (λ s. t e.name s other) in
                  let (k, p, later) =
                    coalesce_elements_lem x a P d t one elements c1 c' distinct_names.1
                      (ground arith) rest in
                  (k, p, Kept-Folded a k c c1 c' here later)
            ]
      ]

  pub coalesce_elements-deploy :
      (elements : List Element) (x s a : ℕ) (c c' : Coalesced)
      → NoDup (names elements)
      → mem x (names elements) ≡ true
      → coalesce_elements m enumerator n bsc trial_elements elements c ≡ ok c'
      → s < n
      → m.deploy_id_of x s ≡ some a
      → (k : ℕ) × (current_activate_id x s trial_elements bsc enumerator m.deploy_id_of
          ≡ ok (some k))
        × Folded a k c c'
  coalesce_elements-deploy elements x s a c c' nodup there h lt is =
      coalesce_elements_lem x a
        (λ k. current_activate_id x s trial_elements bsc enumerator m.deploy_id_of ≡ ok (some k))
        (λ y u other.
          not_id a (m.deploy_id_of y u) (λ hit. other (distinct.deploys y u x s a hit is).0))
        (λ y u other. not_id a (m.teardown_id_of y u) (distinct.apart x s y u a is))
        (λ e c0 c1 same right.
          subst
            (λ y.
              (k : ℕ) × (current_activate_id y s trial_elements bsc enumerator m.deploy_id_of
                ≡ ok (some k))
              × Folded a k c0 c1)
            same
            (coalesce_element-deploy m distinct enumerator positive strides bsc trial_elements e s a
              c0 c1 right lt (ap (λ y. m.deploy_id_of y s) same ∙ is)))
        elements c c' nodup there h

  pub coalesce_elements-teardown :
      (elements : List Element) (x s a : ℕ) (c c' : Coalesced)
      → NoDup (names elements)
      → mem x (names elements) ≡ true
      → coalesce_elements m enumerator n bsc trial_elements elements c ≡ ok c'
      → s < n
      → m.teardown_id_of x s ≡ some a
      → (k : ℕ) × (current_teardown_id x s trial_elements bsc enumerator n m.teardown_id_of
          ≡ ok (some k))
        × Folded a k c c'
  coalesce_elements-teardown elements x s a c c' nodup there h lt is =
      coalesce_elements_lem x a
        (λ k.
          current_teardown_id x s trial_elements bsc enumerator n m.teardown_id_of ≡ ok (some k))
        (λ y u other. not_id a (m.deploy_id_of y u) (λ hit. distinct.apart y u x s a hit is))
        (λ y u other.
          not_id a (m.teardown_id_of y u) (λ hit. other (distinct.teardowns y u x s a hit is).0))
        (λ e c0 c1 same right.
          subst
            (λ y.
              (k : ℕ) × (current_teardown_id y s trial_elements bsc enumerator n m.teardown_id_of
                ≡ ok (some k))
              × Folded a k c0 c1)
            same
            (coalesce_element-teardown m distinct enumerator positive strides bsc trial_elements e s
              a c0 c1 right lt (ap (λ y. m.teardown_id_of y s) same ∙ is)))
        elements c c' nodup there h
