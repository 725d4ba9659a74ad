-- ===== src/Compiler/Coalescing/Turn.antt =====
-- The turn of one element in `apply_coalescing`, against the live steps of the element.
use native.Mathlib.Nat.{div-one}
use hyperplane_rs.Prelude.{
  ℕ, zero, suc, ◌+◌, ◌-◌, ◌*◌, ◌/◌, ◌<◌, ◌==◌, ◌≡◌, refl, sym, ap, ◌∙◌, false, Option, some, List,
  [], ◌∷◌, All, get_elem?, leb, Bool-cases, Option-cases, inl, inr, arith, leb→le,
}
use hyperplane_rs.Prelude.IdSet.{mem}
use hyperplane_rs.Prelude.Results.{ok, Result-cases}
use hyperplane_rs.Plan.Elements.{Element}
use hyperplane_rs.Enumerator.{MixedRadixEnumerator}
use hyperplane_rs.Compiler.Binding.{BindingStateComputer, effective_level}
use hyperplane_rs.Compiler.Ids.{StepIds}
use hyperplane_rs.Compiler.Coalescing.{
  Coalesced, group_size_at, last_of, coalesce_element, current_activate_id, current_teardown_id,
}
use hyperplane_rs.Compiler.Coalescing.Folding.{is_id}
use hyperplane_rs.Compiler.Coalescing.Group.{Folded, Kept, is_id→≡}
use hyperplane_rs.Compiler.Coalescing.Groups.{
  fold_groups-Kept, fold_groups-deploy, fold_groups-teardown,
}

-- No id stands for two of an element, a trial and a kind of step.
pub record DistinctIds (m : StepIds) : Type 0 where
  pub deploys :
      (e t e' t' a : ℕ)
      → m.deploy_id_of e t ≡ some a
      → m.deploy_id_of e' t' ≡ some a
      → (e ≡ e') × (t ≡ t')
  pub teardowns :
      (e t e' t' a : ℕ)
      → m.teardown_id_of e t ≡ some a
      → m.teardown_id_of e' t' ≡ some a
      → (e ≡ e') × (t ≡ t')
  pub apart : (e t e' t' a : ℕ) → m.deploy_id_of e t ≡ some a → m.teardown_id_of e' t' ≡ some a → ⊥

pub not_id : (x : ℕ) (o : Option ℕ) → (o ≡ some x → ⊥) → is_id x o ≡ false
not_id x o h = elim (Bool-cases (is_id x o)) [ inl t ↦ absurd (h (is_id→≡ x o t)) | inr f ↦ f ]

get_elem?-pos : (xs : List ℕ) (i v : ℕ) → All (λ x. 0 < x) xs → get_elem? xs i ≡ some v → 0 < v
get_elem?-pos [] i v p h = cc
get_elem?-pos (x ∷ xs) zero v p h = ground arith
get_elem?-pos (x ∷ xs) (suc i) v p h = get_elem?-pos xs i v p.1 h

module _ (m : StepIds) (distinct : DistinctIds m) (enumerator : MixedRadixEnumerator)
    (positive : 0 < enumerator.trial_count) (strides : All (λ x. 0 < x) enumerator.strides)
    (bsc : BindingStateComputer) (trial_elements : List ℕ) where
  group_size_pos : (level g : ℕ) → group_size_at enumerator level ≡ ok g → 0 < g
  unfolding group_size_at
  group_size_pos level g h = elim (Option-cases (get_elem? enumerator.strides (level - 1))) [
    | inl gone ↦ ground arith
    | inr (v, is) ↦ ground (arith, get_elem?-pos enumerator.strides (level - 1) v strides is)
  ]

  abbrev n : ℕ
  n = enumerator.trial_count

  -- The live steps, by the size of the group.
  current_activate_id_lem :
      (e s g : ℕ)
      → mem e trial_elements ≡ false
      → group_size_at enumerator (effective_level bsc e) ≡ ok g
      → 0 < g
      → current_activate_id e s trial_elements bsc enumerator m.deploy_id_of
        ≡ ok (m.deploy_id_of e (s / g * g))
  unfolding current_activate_id
  current_activate_id_lem e s g shared size pos =
      let not_zero : (g == 0) ≡ false = ground arith in
      rw (shared, size, not_zero, current_activate_id) refl

  current_teardown_id_lem :
      (e s g : ℕ)
      → mem e trial_elements ≡ false
      → group_size_at enumerator (effective_level bsc e) ≡ ok g
      → 0 < g
      → current_teardown_id e s trial_elements bsc enumerator n m.teardown_id_of
        ≡ ok (m.teardown_id_of e (last_of n g (s / g * g)))
  unfolding current_teardown_id
  current_teardown_id_lem e s g shared size pos =
      let not_zero : (g == 0) ≡ false = ground arith in
      rw (shared, size, not_zero, current_teardown_id) refl

  single : (s g : ℕ) → g ≡ 1 → s / g * g ≡ s
  single s g one = ap (λ q. s / q * q) one ∙ omega (arith, div-one s)

  single_last : (s g : ℕ) → g ≡ 1 → s < n → last_of n g (s / g * g) ≡ s
  unfolding last_of
  single_last s g one lt = omega (arith, single s g one)

  from_start : (s g : ℕ) → 0 + (s - 0) / g * g ≡ s / g * g
  from_start s g = let same : s - 0 ≡ s = omega arith in omega (arith, ap (λ q. q / g * g) same)

  -- An id that is of another element stays as it is.
  pub coalesce_element-Kept :
      (e : Element) (a : ℕ) (c c' : Coalesced)
      → coalesce_element m enumerator n bsc trial_elements e c ≡ ok c'
      → ((s : ℕ) → is_id a (m.deploy_id_of e.name s) ≡ false)
      → ((s : ℕ) → is_id a (m.teardown_id_of e.name s) ≡ false)
      → Kept a c c'
  unfolding coalesce_element
  coalesce_element-Kept e a c c' h d t = elim (Bool-cases (mem e.name trial_elements)) [
    | inl is_trial ↦ let same = rw (is_trial, coalesce_element) at h in ground arith
    | inr shared ↦ elim (Result-cases (group_size_at enumerator (effective_level bsc e.name))) [
      | inr (x, wrong) ↦ absurd (let clash = rw (shared, wrong, coalesce_element) at h in cc)
      | inl (g, size) ↦ elim (Bool-cases (leb g 1)) [
        | inl one ↦ let same = rw (shared, size, one, coalesce_element) at h in ground arith
        | inr more ↦
            fold_groups-Kept m n g e.name (group_size_pos _ g size) n 0 a c c'
              (rw (shared, size, more, coalesce_element) at h) (λ s le. d s) (λ s le. t s)
      ]
    ]
  ]

  pub coalesce_element-deploy :
      (e : Element) (s a : ℕ) (c c' : Coalesced)
      → coalesce_element m enumerator n bsc trial_elements e c ≡ ok c'
      → s < n
      → m.deploy_id_of e.name s ≡ some a
      → (k : ℕ) × (current_activate_id e.name s trial_elements bsc enumerator m.deploy_id_of
          ≡ ok (some k))
        × Folded a k c c'
  unfolding coalesce_element current_activate_id
  coalesce_element-deploy e s a c c' h lt is = elim (Bool-cases (mem e.name trial_elements)) [
    | inl is_trial ↦
        let same = rw (is_trial, coalesce_element) at h in
        (a, rw (is_trial, is, current_activate_id) refl, ground arith)
    | inr shared ↦ elim (Result-cases (group_size_at enumerator (effective_level bsc e.name))) [
      | inr (x, wrong) ↦ absurd (let clash = rw (shared, wrong, coalesce_element) at h in cc)
      | inl (g, size) ↦
          let pos : 0 < g = group_size_pos _ g size in
          elim (Bool-cases (leb g 1)) [
            | inl one ↦
                let same = rw (shared, size, one, coalesce_element) at h in
                (
                  a,
                  current_activate_id_lem e.name s g shared size pos
                      ∙ ap (λ q. ok (m.deploy_id_of e.name q))
                          (single s g (omega (arith, leb→le g 1 one)))
                      ∙ ap ok is,
                  ground arith,
                )
            | inr more ↦
                let (k, d, folded) =
                  fold_groups-deploy m n g e.name pos n 0 s a c c'
                    (rw (shared, size, more, coalesce_element) at h) (omega arith) lt
                    (record {
                      is_there = is;
                      only = λ t at_t. (distinct.deploys e.name t e.name s a at_t is).1;
                    })
                    (λ u.
                      not_id a (m.teardown_id_of e.name u)
                        (distinct.apart e.name s e.name u a is)) in
                (
                  k,
                  current_activate_id_lem e.name s g shared size pos
                      ∙ ap (λ q. ok (m.deploy_id_of e.name q)) (sym (from_start s g))
                      ∙ ap ok d,
                  folded,
                )
          ]
    ]
  ]

  pub coalesce_element-teardown :
      (e : Element) (s a : ℕ) (c c' : Coalesced)
      → coalesce_element m enumerator n bsc trial_elements e c ≡ ok c'
      → s < n
      → m.teardown_id_of e.name s ≡ some a
      → (k : ℕ) × (current_teardown_id e.name s trial_elements bsc enumerator n m.teardown_id_of
          ≡ ok (some k))
        × Folded a k c c'
  unfolding coalesce_element current_teardown_id
  coalesce_element-teardown e s a c c' h lt is = elim (Bool-cases (mem e.name trial_elements)) [
    | inl is_trial ↦
        let same = rw (is_trial, coalesce_element) at h in
        (a, rw (is_trial, is, current_teardown_id) refl, ground arith)
    | inr shared ↦ elim (Result-cases (group_size_at enumerator (effective_level bsc e.name))) [
      | inr (x, wrong) ↦ absurd (let clash = rw (shared, wrong, coalesce_element) at h in cc)
      | inl (g, size) ↦
          let pos : 0 < g = group_size_pos _ g size in
          elim (Bool-cases (leb g 1)) [
            | inl one ↦
                let same = rw (shared, size, one, coalesce_element) at h in
                (
                  a,
                  current_teardown_id_lem e.name s g shared size pos
                      ∙ ap (λ q. ok (m.teardown_id_of e.name q))
                          (single_last s g (omega (arith, leb→le g 1 one)) lt)
                      ∙ ap ok is,
                  ground arith,
                )
            | inr more ↦
                let (k, d, folded) =
                  fold_groups-teardown m n g e.name pos n 0 s a c c'
                    (rw (shared, size, more, coalesce_element) at h) (omega arith) lt
                    (record {
                      is_there = is;
                      only = λ t at_t. (distinct.teardowns e.name t e.name s a at_t is).1;
                    })
                    (λ u.
                      not_id a (m.deploy_id_of e.name u)
                        (λ d. distinct.apart e.name u e.name s a d is)) in
                (
                  k,
                  current_teardown_id_lem e.name s g shared size pos
                      ∙ ap (λ q. ok (m.teardown_id_of e.name (last_of n g q)))
                          (sym (from_start s g))
                      ∙ ap ok d,
                  folded,
                )
          ]
    ]
  ]
