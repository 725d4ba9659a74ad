-- ===== src/Scheduler/Cascade.antt =====
-- What `mark_failed` skips, and what that leaves behind.
use mathlib.Core.List.{reverse}
use hyperplane_rs.Prelude.{
  ℕ, zero, suc, ◌≡◌, inl, inr, refl, subst₂, true, false, ◌||◌, some, List, [], ◌∷◌, ◌++◌, ◌==◌,
  if◌then◌else◌, Bool-cases, arith,
}
use hyperplane_rs.Prelude.IdSet.{mem, mem-insert, mem-remove, mem-append}
use hyperplane_rs.Scheduler.State.{InnerState}
use hyperplane_rs.Scheduler.Operations.{list_at, skip_one, cascade, failing, mark_failed}
use hyperplane_rs.Scheduler.Invariant.{is_open}

module _ {F : Type 0} where
  -- The sets of skipped steps before and after, and the steps that the loop reports.
  record Reported (before st : InnerState F) (acc : List ℕ) : Type 0 where
    opened : (j : ℕ) → mem j acc ≡ true → is_open before j ≡ true
    skips : (j : ℕ) → mem j st.skipped ≡ (mem j before.skipped || mem j acc)
    shrinks : (j : ℕ) → is_open st j ≡ true → is_open before j ≡ true
    same_failed : st.failed ≡ before.failed
    same_completed : st.completed ≡ before.completed

  skip_one-Reported :
      (before st : InnerState F) (acc : List ℕ) (c : ℕ)
      → is_open st c ≡ true
      → Reported before st acc
      → Reported before (skip_one c st) (acc ++ c ∷ [])
  unfolding skip_one mem
  skip_one-Reported before st acc c o r = record {
    opened = λ j. ground (arith, mem-append j acc (c ∷ []), r.opened j, r.shrinks c);
    skips = λ j. ground (arith, mem-append j acc (c ∷ []), mem-insert j c st.skipped, r.skips j);
    shrinks = λ j. ground (arith, mem-remove j c st.pending, mem-remove j c st.ready, r.shrinks j);
    same_failed = r.same_failed;
    same_completed = r.same_completed;
  }

  cascade-Reported :
      (fuel : ℕ) (stack : List ℕ) (before st : InnerState F) (acc : List ℕ) (after : InnerState F)
      (out : List ℕ)
      → Reported before st acc
      → cascade fuel stack st acc ≡ some (after, out)
      → Reported before after out
  unfolding cascade
  cascade-Reported fuel [] before st acc after out r e =
      let same : st ≡ after = cc in
      let listed : acc ≡ out = cc in subst₂ (Reported before) same listed r
  cascade-Reported zero (c ∷ stack) before st acc after out r e = absurd (ground arith)
  cascade-Reported (suc fuel) (c ∷ stack) before st acc after out r e =
      elim (Bool-cases (is_open st c)) [
        | inl t ↦
            cascade-Reported fuel (reverse (list_at c st.dependents) ++ stack) before
              (skip_one c st) (acc ++ c ∷ []) after out (skip_one-Reported before st acc c t r)
              (rw (t, cascade) at e)
        | inr f ↦ cascade-Reported fuel stack before st acc after out r (rw (f, cascade) at e)
      ]

  -- `mark_failed` reports exactly the steps that it skips: each was pending or ready before and is
  -- not the failed step, the skipped steps afterwards are those of before and the reported ones, the
  -- failed ones are those of before and the step, and no step becomes pending or ready.
  pub mark_failed-reports :
      (x : ℕ) (st after : InnerState F) (out : List ℕ)
      → mark_failed x st ≡ some (after, out)
      → ((j : ℕ) → mem j out ≡ true → (is_open st j ≡ true) × ((j == x) ≡ false))
        × ((j : ℕ) → mem j after.skipped ≡ (mem j st.skipped || mem j out))
        × ((j : ℕ) → mem j after.failed ≡ (if j == x then true else mem j st.failed))
        × ((j : ℕ) → is_open after j ≡ true → is_open st j ≡ true)
  unfolding mark_failed mem
  mark_failed-reports x st after out e =
      let stack = reverse (list_at x st.dependents) in
      let r =
        cascade-Reported _ stack (failing x st) (failing x st) [] after out
          (record {
            opened = λ j m. absurd (ground arith);
            skips = λ j. ground arith;
            shrinks = λ j m. m;
            same_failed = refl;
            same_completed = refl;
          })
          e in
      (
        λ j m. ground (arith, r.opened j, mem-remove j x st.pending, mem-remove j x st.ready),
        λ j. r.skips j,
        λ j. ground (arith, r.same_failed, mem-insert j x st.failed),
        λ j m. ground (arith, r.shrinks j, mem-remove j x st.pending, mem-remove j x st.ready),
      )
