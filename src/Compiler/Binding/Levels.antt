-- ===== src/Compiler/Binding/Levels.antt =====
-- `compute_effective_levels` and the own levels upstream of an element.
use hyperplane_rs.Prelude.{
  ℕ, zero, suc, ◌≤◌, ◌≡◌, refl, ◌∙◌, true, false, List, [], ◌∷◌, length, Bool-cases, inl, inr,
  arith,
}
use hyperplane_rs.Prelude.Distinct.{NoDup}
use hyperplane_rs.Plan.Elements.{Element, names}
use hyperplane_rs.Compiler.Binding.{level_of, pass, settle_levels, compute_effective_levels}
use hyperplane_rs.Compiler.Binding.Passes.{
  deps_named, best_of-ge, best_of-ge_target, best_of_cases, next_level, level_of-pass_start,
  changed-pass_start,
}
use hyperplane_rs.Compiler.Binding.Upstream.{
  Upstream, here, Trail, start, step, pulls, trans_front, Upstream-Simple, length-Trail,
}

module _ (elements : List Element) (distinct : NoDup (names elements)) where
  -- The levels of `levels` stand in `own` upstream.
  abbrev IsFrom : List (ℕ × ℕ) → List (ℕ × ℕ) → Type 0
  IsFrom own levels =
      (x : ℕ) → (y : ℕ) × Upstream elements x y × (level_of x levels ≡ level_of y own)

  abbrev passed : List (ℕ × ℕ) → List (ℕ × ℕ)
  passed m = (pass m elements (record { out = m; changed = false })).out

  pass-IsFrom : (own m : List (ℕ × ℕ)) → IsFrom own m → IsFrom own (passed m)
  pass-IsFrom own m h x =
      let next = level_of-pass_start m elements x distinct in
      elim (best_of_cases m (deps_named elements x) (level_of x m)) [
        | inl e ↦ let (y, u, v) = h x in (y, u, next ∙ e ∙ v)
        | inr (z, p, e) ↦ let (y, u, v) = h z in (y, trans_front elements p u, next ∙ e ∙ v)
      ]

  settle_levels-IsFrom :
      (n : ℕ) (own m : List (ℕ × ℕ)) → IsFrom own m → IsFrom own (settle_levels n elements m)
  unfolding settle_levels
  settle_levels-IsFrom zero own m h = h
  settle_levels-IsFrom (suc n) own m h =
      let p = pass m elements (record { out = m; changed = false }) in
      elim (Bool-cases p.changed) [
        | inl t ↦ rw t (settle_levels-IsFrom n own (passed m) (pass-IsFrom own m h))
        | inr f ↦ rw f (pass-IsFrom own m h)
      ]

  pass-ge : (m : List (ℕ × ℕ)) (x : ℕ) → level_of x m ≤ level_of x (passed m)
  pass-ge m x = omega (
    arith,
    level_of-pass_start m elements x distinct,
    best_of-ge m (deps_named elements x) (level_of x m),
  )

  pass-ge_target :
      (m : List (ℕ × ℕ)) (x y : ℕ)
      → pulls elements x y ≡ true
      → level_of y m ≤ level_of x (passed m)
  pass-ge_target m x y p = omega (
    arith,
    level_of-pass_start m elements x distinct,
    best_of-ge_target m (deps_named elements x) (level_of x m) y p,
  )

  -- Where a pass changes nothing, the levels fall along the paths.
  stable :
      (m : List (ℕ × ℕ))
      → ((x : ℕ) → next_level elements m x ≡ level_of x m)
      → {x y : ℕ} {ws : List ℕ} → Trail elements x ws y
      → level_of y m ≤ level_of x m
  stable m h start = omega arith
  stable m h {x} {y} (step {w} t p) =
      omega
        (arith, stable m h t, h w, best_of-ge_target m (deps_named elements w) (level_of w m) y p)

  settle_levels-ge :
      (n : ℕ) (m : List (ℕ × ℕ)) {x y : ℕ} {ws : List ℕ}
      → Trail elements x ws y
      → length ws ≤ suc n
      → level_of y m ≤ level_of x (settle_levels n elements m)
  unfolding settle_levels
  settle_levels-ge zero m start h = omega arith
  settle_levels-ge zero m (step start p) h = absurd (omega arith)
  settle_levels-ge zero m (step (step t q) p) h = absurd (omega arith)
  settle_levels-ge (suc n) m {x} start h =
      let p = pass m elements (record { out = m; changed = false }) in
      elim (Bool-cases p.changed) [
        | inr f ↦ rw f (pass-ge m x)
        | inl c ↦
            let again : Trail elements x (x ∷ []) x = start in
            rw c (omega (arith, pass-ge m x, settle_levels-ge n (passed m) again (omega arith)))
      ]
  settle_levels-ge (suc n) m {x} {y} (step {w} t e) h =
      let p = pass m elements (record { out = m; changed = false }) in
      elim (Bool-cases p.changed) [
        | inr f ↦
            rw f (omega (arith, pass-ge m x, stable m (changed-pass_start m elements f) (step t e)))
        | inl c ↦
            rw c
              (omega (arith, pass-ge_target m w y e, settle_levels-ge n (passed m) t (omega arith)))
      ]

  -- Where the elements have distinct names, the effective level of an element is the greatest of
  -- the own levels upstream of it, also where the dependencies form a cycle: none of them is greater
  -- after the guarded number of passes, and one of them is equal.
  pub compute_effective_levels_greatest :
      (own : List (ℕ × ℕ)) (x : ℕ)
      → ((y : ℕ)
          → Upstream elements x y
          → level_of y own ≤ level_of x (compute_effective_levels elements own))
        × ((y : ℕ) × Upstream elements x y
            × (level_of x (compute_effective_levels elements own) ≡ level_of y own))
  unfolding compute_effective_levels
  compute_effective_levels_greatest own x = (
    λ y u.
        let (ws, t, n) = Upstream-Simple elements u in
        settle_levels-ge (suc (length elements)) own t (omega (arith, length-Trail elements t n)),
    settle_levels-IsFrom (suc (length elements)) own own (λ z. (z, here, refl)) x,
  )
