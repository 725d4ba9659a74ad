-- ===== src/Compiler/Coalescing/Groups.antt =====
-- The `while` loop of `apply_coalescing` over the groups of an element.
use native.Mathlib.Nat.{div-eq-sub-div, div-eq_of_lt}
use native.Mathlib.Decide.{dec_lt}
use hyperplane_rs.Prelude.{
  ℕ, zero, suc, ◌+◌, ◌-◌, ◌*◌, ◌/◌, ◌≤◌, ◌<◌, ◌≡◌, sym, ap, ◌∙◌, false, Option, some, ltb,
  Bool-cases, inl, inr, arith, lt→ltb, ltb→lt,
}
use hyperplane_rs.Prelude.Results.{ok, Result-cases}
use hyperplane_rs.Compiler.Ids.{StepIds}
use hyperplane_rs.Compiler.Coalescing.{Coalesced, fold_group, last_of, fold_groups}
use hyperplane_rs.Compiler.Coalescing.Folding.{is_id, hits-range, hits_none}
use hyperplane_rs.Compiler.Coalescing.Group.{
  Folded, Kept, StandsAt, Folded-Kept, Kept-Folded, elsewhere, fold_group-Kept, fold_group-deploy,
  fold_group-teardown,
}

-- The position in the groups.
group_start : (t s g : ℕ) → 0 < g → t + g ≤ s → t + (s - t) / g * g ≡ t + g + (s - (t + g)) / g * g
group_start t s g pos h =
    let less : (s - t) / g ≡ (s - t - g) / g + 1 = div-eq-sub-div pos (omega arith) in
    let same : s - t - g ≡ s - (t + g) = omega arith in
    omega (arith, ap (λ q. q * g) less, ap (λ q. q / g * g) same)

next_group :
    (t t' s g : ℕ) (ids : ℕ → Option ℕ) (k : ℕ)
    → 0 < g
    → t' ≡ t + g
    → t + g ≤ s
    → ids (t' + (s - t') / g * g) ≡ some k
    → ids (t + (s - t) / g * g) ≡ some k
next_group t t' s g ids k pos same le h =
    ap ids (group_start t s g pos le ∙ ap (λ q. q + (s - q) / g * g) (sym same)) ∙ h

group_start_first : (t s g : ℕ) → t ≤ s → s < t + g → t + (s - t) / g * g ≡ t
group_start_first t s g le lt =
    let none_before : (s - t) / g ≡ 0 = div-eq_of_lt (omega arith) in
    omega (arith, ap (λ q. q * g) none_before)

module _ (m : StepIds) (n g e : ℕ) (pos : 0 < g) where
  -- A turn of the loop.
  turn :
      (fuel t : ℕ) (c c' : Coalesced)
      → t < n
      → fold_groups (suc fuel) m n g e t c ≡ ok c'
      → (c1 : Coalesced) × (fold_group m e t (last_of n g t) c ≡ ok c1)
        × (fold_groups fuel m n g e (last_of n g t + 1) c1 ≡ ok c')
  unfolding fold_groups
  turn fuel t c c' lt h = elim (Result-cases (fold_group m e t (last_of n g t) c)) [
    | inl (c1, right) ↦ (c1, right, rw (lt→ltb t n lt, right, fold_groups) at h)
    | inr (x, wrong) ↦ absurd (let clash = rw (lt→ltb t n lt, wrong, fold_groups) at h in cc)
  ]

  not_started : (t : ℕ) (c c' : Coalesced) → t < n → fold_groups zero m n g e t c ≡ ok c' → ⊥
  unfolding fold_groups
  not_started t c c' lt h = let clash = rw (lt→ltb t n lt, fold_groups) at h in cc

  past-Kept :
      (fuel t a : ℕ) (c c' : Coalesced)
      → ltb t n ≡ false
      → fold_groups fuel m n g e t c ≡ ok c'
      → Kept a c c'
  unfolding fold_groups
  past-Kept zero t a c c' f h = let same = rw (f, fold_groups) at h in ground arith
  past-Kept (suc fuel) t a c c' f h = let same = rw (f, fold_groups) at h in ground arith

  -- An id that the element has at no trial from `t` on stays as it is.
  pub fold_groups-Kept :
      (fuel t a : ℕ) (c c' : Coalesced)
      → fold_groups fuel m n g e t c ≡ ok c'
      → ((s : ℕ) → t ≤ s → is_id a (m.deploy_id_of e s) ≡ false)
      → ((s : ℕ) → t ≤ s → is_id a (m.teardown_id_of e s) ≡ false)
      → Kept a c c'
  unfolding last_of
  fold_groups-Kept zero t a c c' h no_deploy no_teardown = elim (Bool-cases (ltb t n)) [
    | inl lt ↦ absurd (not_started t c c' (ltb→lt t n lt) h)
    | inr f ↦ past-Kept zero t a c c' f h
  ]
  fold_groups-Kept (suc fuel) t a c c' h no_deploy no_teardown = elim (Bool-cases (ltb t n)) [
    | inr f ↦ past-Kept (suc fuel) t a c c' f h
    | inl lt ↦
        let last = last_of n g t in
        let below : t < n = ltb→lt t n lt in
        let (c1, one, rest) = turn fuel t c c' below h in
        let here =
          fold_group-Kept m e t last c c1 a one
            (hits_none m.deploy_id_of e a (last - t) (t + 1) (λ s le. no_deploy s (omega arith)))
            (hits_none m.teardown_id_of e a (last - t) t no_teardown) in
        let later =
          fold_groups-Kept fuel (last + 1) a c1 c' rest (λ s le. no_deploy s (omega arith))
            (λ s le. no_teardown s (omega arith)) in
        ground arith
  ]

  -- A deploy step is folded onto that of the first trial of its group.
  pub fold_groups-deploy :
      (fuel t s a : ℕ) (c c' : Coalesced)
      → fold_groups fuel m n g e t c ≡ ok c'
      → t ≤ s
      → s < n
      → StandsAt m.deploy_id_of e s a
      → ((u : ℕ) → is_id a (m.teardown_id_of e u) ≡ false)
      → (k : ℕ) × (m.deploy_id_of e (t + (s - t) / g * g) ≡ some k) × Folded a k c c'
  unfolding last_of
  fold_groups-deploy zero t s a c c' h lo hi there alien =
      absurd (not_started t c c' (omega arith) h)
  fold_groups-deploy (suc fuel) t s a c c' h lo hi there alien =
      let last = last_of n g t in
      let (c1, one, rest) = turn fuel t c c' (omega arith) h in
      elim (dec_lt last s) [
        | no p ↦
            let (k, d, here) =
              fold_group-deploy m e t last c c1 s a one lo (omega arith) there alien in
            let later =
              fold_groups-Kept fuel (last + 1) a c1 c' rest
                (λ u le. elsewhere m.deploy_id_of e s a u there (omega arith)) (λ u le. alien u) in
            (k, rw (group_start_first t s g lo (omega arith)) d, Folded-Kept a k c c1 c' here later)
        | yes p ↦
            let miss =
              hits-range m.deploy_id_of e s a (last - t) (t + 1) there.is_there there.only in
            let here =
              fold_group-Kept m e t last c c1 a one (miss ∙ ground arith)
                (hits_none m.teardown_id_of e a (last - t) t (λ u le. alien u)) in
            let (k, d, later) =
              fold_groups-deploy fuel (last + 1) s a c1 c' rest (omega arith) hi there alien in
            (
              k,
              next_group t (last + 1) s g (m.deploy_id_of e) k pos (omega arith) (omega arith) d,
              Kept-Folded a k c c1 c' here later,
            )
      ]

  -- A teardown step is folded onto that of the last trial of its group.
  pub fold_groups-teardown :
      (fuel t s a : ℕ) (c c' : Coalesced)
      → fold_groups fuel m n g e t c ≡ ok c'
      → t ≤ s
      → s < n
      → StandsAt m.teardown_id_of e s a
      → ((u : ℕ) → is_id a (m.deploy_id_of e u) ≡ false)
      → (k : ℕ) × (m.teardown_id_of e (last_of n g (t + (s - t) / g * g)) ≡ some k)
        × Folded a k c c'
  unfolding last_of
  fold_groups-teardown zero t s a c c' h lo hi there alien =
      absurd (not_started t c c' (omega arith) h)
  fold_groups-teardown (suc fuel) t s a c c' h lo hi there alien =
      let last = last_of n g t in
      let (c1, one, rest) = turn fuel t c c' (omega arith) h in
      elim (dec_lt last s) [
        | no p ↦
            let (k, d, here) =
              fold_group-teardown m e t last c c1 s a one lo (omega arith) there alien in
            let later =
              fold_groups-Kept fuel (last + 1) a c1 c' rest (λ u le. alien u)
                (λ u le. elsewhere m.teardown_id_of e s a u there (omega arith)) in
            (
              k,
              ap (λ q. m.teardown_id_of e (last_of n g q))
                    (group_start_first t s g lo (omega arith))
                  ∙ d,
              Folded-Kept a k c c1 c' here later,
            )
        | yes p ↦
            let miss = hits-range m.teardown_id_of e s a (last - t) t there.is_there there.only in
            let here =
              fold_group-Kept m e t last c c1 a one
                (hits_none m.deploy_id_of e a (last - t) (t + 1) (λ u le. alien u))
                (miss ∙ ground arith) in
            let (k, d, later) =
              fold_groups-teardown fuel (last + 1) s a c1 c' rest (omega arith) hi there alien in
            let at_group = λ (q : ℕ). m.teardown_id_of e (last_of n g q) in
            (
              k,
              next_group t (last + 1) s g at_group k pos (omega arith) (omega arith) d,
              Kept-Folded a k c c1 c' here later,
            )
      ]
