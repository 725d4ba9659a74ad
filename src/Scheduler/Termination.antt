-- ===== src/Scheduler/Termination.antt =====
-- The fuel of the loop of `mark_failed`.
use native.Mathlib.Nat.{le_refl}
use mathlib.Core.List.{reverse}
use hyperplane_rs.Prelude.{
  ℕ, zero, suc, ◌+◌, ◌≤◌, ◌≡◌, refl, true, some, List, [], ◌∷◌, ◌++◌, inl, inr, length,
  length-append, length-reverse, if◌then◌else◌, Bool-cases, arith,
}
use hyperplane_rs.Prelude.IdSet.{mem, remove}
use hyperplane_rs.Scheduler.State.{InnerState}
use hyperplane_rs.Scheduler.Operations.{
  list_at, weight, cascade_fuel, skip_one, cascade, failing, mark_failed,
}
use hyperplane_rs.Scheduler.Invariant.{is_open}

weight-remove :
    (m : List (ℕ × List ℕ)) (c : ℕ) (xs : List ℕ)
    → weight m (remove c xs) + (if mem c xs then length (list_at c m) else 0) ≤ weight m xs
unfolding weight remove mem
weight-remove m c [] = omega arith
weight-remove m c (x ∷ xs) = ground (arith, weight-remove m c xs)

module _ {F : Type 0} where
  skip_one-fuel :
      (c : ℕ) (rest : List ℕ) (st : InnerState F)
      → is_open st c ≡ true
      → suc (cascade_fuel (reverse (list_at c st.dependents) ++ rest) (skip_one c st))
        ≤ cascade_fuel (c ∷ rest) st
  unfolding cascade_fuel skip_one
  skip_one-fuel c rest st t = ground (
    arith,
    length-append (reverse (list_at c st.dependents)) rest,
    length-reverse (list_at c st.dependents),
    weight-remove st.dependents c st.pending,
    weight-remove st.dependents c st.ready,
  )

  cascade_total :
      (fuel : ℕ) (stack : List ℕ) (st : InnerState F) (acc : List ℕ)
      → cascade_fuel stack st ≤ fuel
      → (r : InnerState F × List ℕ) × (cascade fuel stack st acc ≡ some r)
  unfolding cascade
  cascade_total fuel [] st acc h = ((st, acc), refl)
  cascade_total zero (c ∷ rest) st acc h = absurd (unfold cascade_fuel in omega arith)
  cascade_total (suc fuel) (c ∷ rest) st acc h = elim (Bool-cases (is_open st c)) [
    | inl t ↦
        rw (t, cascade)
          (cascade_total fuel (reverse (list_at c st.dependents) ++ rest) (skip_one c st)
            (acc ++ c ∷ []) (omega (arith, skip_one-fuel c rest st t)))
    | inr f ↦ rw (f, cascade) (cascade_total fuel rest st acc (unfold cascade_fuel in omega arith))
  ]

  -- `mark_failed` returns for every step and every state: its loop ends within the fuel that the
  -- model gives it.
  pub mark_failed_total :
      (step : ℕ) (st : InnerState F) → (r : InnerState F × List ℕ) × (mark_failed step st ≡ some r)
  unfolding mark_failed
  mark_failed_total step st =
      let stack = reverse (list_at step st.dependents) in
      cascade_total (cascade_fuel stack (failing step st)) stack (failing step st) [] (le_refl _)
