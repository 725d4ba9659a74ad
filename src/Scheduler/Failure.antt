-- ===== src/Scheduler/Failure.antt =====
-- `mark_failed` under the invariant, with the steps that the cascade has still to visit.
use mathlib.Core.List.{reverse}
use hyperplane_rs.Prelude.{
  ℕ, zero, suc, ◌≡◌, ◌≢◌, inl, inr, ap, subst, true, false, ◌||◌, some, List, [], ◌∷◌, ◌++◌, all,
  ◌==◌, if◌then◌else◌, Bool-cases, arith,
}
use hyperplane_rs.Prelude.IdSet.{
  mem, insert, remove, mem-insert, mem-remove, mem-union, mem-append, mem_of_all_grown, all_mono,
  mem-reverse,
}
use hyperplane_rs.Scheduler.State.{InnerState, SchedulerStatistics}
use hyperplane_rs.Scheduler.Operations.{list_at, skip_one, cascade, mark_failed}
use hyperplane_rs.Scheduler.Invariant.{Inv, deps_of, is_settled, is_open}

module _ {F : Type 0} (ids : List ℕ) (plan : ℕ → List ℕ) where
  abbrev fail : ℕ → SchedulerStatistics → InnerState F → InnerState F
  fail x stats st = record st {
    running = remove x st.running;
    ready = remove x st.ready;
    pending = remove x st.pending;
    failed = insert x st.failed;
    stats = stats;
  }

  fail-Inv :
      (x : ℕ) (stats : SchedulerStatistics) (st : InnerState F) (stack : List ℕ)
      → ((s : ℕ) → mem s stack ≡ mem s (list_at x st.dependents))
      → Inv ids plan [] [] st
      → Inv ids plan stack stack (fail x stats st)
  unfolding mem
  fail-Inv x stats st stack same inv = record {
    planned = inv.planned;
    forward = inv.forward;
    backward = inv.backward;
    roots = λ s. ground (arith, mem-remove s x st.ready, mem-remove s x st.pending, inv.roots s);
    cleared = λ s. ground (arith, mem-remove s x st.ready, inv.cleared s);
    waits = λ s. ground (arith, mem-remove s x st.ready, mem-remove s x st.pending, inv.waits s);
    unfailed = λ s d. ground (
      arith,
      mem-remove s x st.ready,
      mem-remove s x st.pending,
      mem-insert d x st.failed,
      inv.unfailed s d,
      inv.forward s x,
      same s,
    );
    covered = λ s. ground (
      arith,
      mem-remove s x st.ready,
      mem-remove s x st.pending,
      mem-remove s x st.running,
      mem-insert s x st.failed,
      inv.covered s,
    );
  }

  -- `ready` after a step of the cascade: the short circuit of `||` leaves no open step behind,
  -- since a step with dependencies is never both pending and ready.
  skip_one-ready :
      (c s : ℕ) (w u : List ℕ) (st : InnerState F)
      → Inv ids plan w u st
      → deps_of st c ≢ []
      → mem s (skip_one c st).ready ≡ (if s == c then false else mem s st.ready)
  unfolding skip_one
  skip_one-ready c s w u st inv ne = elim (Bool-cases (mem c st.pending)) [
    | inl p ↦ elim (Bool-cases (mem c st.ready)) [
      | inl r ↦ absurd (ne (inv.roots c r p))
      | inr absent ↦ rw p (ground (arith, absent))
    ]
    | inr n ↦ rw n (mem-remove s c st.ready)
  ]

  skip_one-Inv :
      (c : ℕ) (rest stack : List ℕ) (st : InnerState F)
      → ((s : ℕ) → mem s stack ≡ (mem s (list_at c st.dependents) || mem s rest))
      → deps_of st c ≢ []
      → Inv ids plan (c ∷ rest) (c ∷ rest) st
      → Inv ids plan stack stack (skip_one c st)
  unfolding mem skip_one
  skip_one-Inv c rest stack st more ne inv = record {
    planned = inv.planned;
    forward = inv.forward;
    backward = inv.backward;
    roots = λ s. ground (arith, ready s, mem-remove s c st.pending, inv.roots s);
    cleared = λ s h.
        all_mono (is_settled st) (is_settled after) (deps_of st s)
          (λ d e. ground (arith, settled d)) (ground (arith, ready s, inv.cleared s));
    waits = λ s h n. elim (Bool-cases (all (is_settled after) (deps_of st s))) [
      | inr f ↦ inl f
      | inl t ↦ inr (
          ground (
            arith,
            ready s,
            mem-remove s c st.pending,
            inv.waits s,
            inv.forward s c,
            more s,
            mem_of_all_grown (is_settled st) (is_settled after) c (deps_of st s)
                (λ d e. ground (arith, settled d)),
          ))
    ];
    unfailed = λ s d. ground (arith, ready s, mem-remove s c st.pending, more s, inv.unfailed s d);
    covered = λ s. ground (arith, ready s, mem-remove s c st.pending, settled s, inv.covered s);
  }
    where
      after : InnerState F
      after = skip_one c st

      ready : (s : ℕ) → mem s after.ready ≡ (if s == c then false else mem s st.ready)
      ready s = skip_one-ready c s (c ∷ rest) (c ∷ rest) st inv ne

      settled : (d : ℕ) → is_settled after d ≡ (if d == c then true else is_settled st d)
      settled d = ground (
        arith,
        mem-union d st.completed (insert c st.skipped),
        mem-insert d c st.skipped,
        mem-union d st.completed st.skipped,
      )

  -- The steps on the stack of the cascade have dependencies.
  abbrev HaveDeps : List ℕ → InnerState F → Type 0
  HaveDeps stack st = (s : ℕ) → mem s stack ≡ true → deps_of st s ≢ []

  dependents-HaveDeps :
      (x : ℕ) (w u : List ℕ) (st : InnerState F)
      → Inv ids plan w u st
      → HaveDeps (list_at x st.dependents) st
  unfolding mem
  dependents-HaveDeps x w u st inv s m e = ground (arith, inv.backward s x, ap (mem x) e)

  drop-Inv :
      (c : ℕ) (rest : List ℕ) (st : InnerState F)
      → is_open st c ≡ false
      → Inv ids plan (c ∷ rest) (c ∷ rest) st
      → Inv ids plan rest rest st
  unfolding mem
  drop-Inv c rest st closed inv = record {
    planned = inv.planned;
    forward = inv.forward;
    backward = inv.backward;
    roots = inv.roots;
    cleared = inv.cleared;
    waits = λ s. ground (arith, inv.waits s);
    unfailed = λ s d. ground (arith, inv.unfailed s d);
    covered = inv.covered;
  }

  more_stack :
      (c : ℕ) (rest : List ℕ) (st : InnerState F) (s : ℕ)
      → mem s (reverse (list_at c st.dependents) ++ rest)
        ≡ (mem s (list_at c st.dependents) || mem s rest)
  more_stack c rest st s = rw (
    mem-append s (reverse (list_at c st.dependents)) rest,
    mem-reverse s (list_at c st.dependents),
  )

  cascade-Inv :
      (fuel : ℕ) (stack : List ℕ) (st : InnerState F) (acc : List ℕ) {after : InnerState F}
      {out : List ℕ}
      → HaveDeps stack st
      → Inv ids plan stack stack st
      → cascade fuel stack st acc ≡ some (after, out)
      → Inv ids plan [] [] after
  unfolding cascade mem
  cascade-Inv fuel [] st acc {after} deps inv e =
      let same : st ≡ after = cc in subst (Inv ids plan [] []) same inv
  cascade-Inv zero (c ∷ rest) st acc deps inv e = absurd (ground arith)
  cascade-Inv (suc fuel) (c ∷ rest) st acc deps inv e = elim (Bool-cases (is_open st c)) [
    | inl t ↦
        let stack = reverse (list_at c st.dependents) ++ rest in
        let old = dependents-HaveDeps c (c ∷ rest) (c ∷ rest) st inv in
        cascade-Inv fuel stack (skip_one c st) (acc ++ c ∷ [])
          (λ s m. elim (Bool-cases (mem s (list_at c st.dependents))) [
            | inl new ↦ old s new
            | inr kept ↦ deps s (ground (arith, more_stack c rest st s))
          ])
          (skip_one-Inv c rest stack st (more_stack c rest st) (deps c (ground arith)) inv)
          (rw (t, cascade) at e)
    | inr f ↦
        cascade-Inv fuel rest st acc (λ s m. deps s (ground arith)) (drop-Inv c rest st f inv)
          (rw (f, cascade) at e)
  ]

  -- `mark_failed` keeps the invariant.
  pub mark_failed-Inv :
      (x : ℕ) (st : InnerState F) {after : InnerState F} {out : List ℕ}
      → Inv ids plan [] [] st
      → mark_failed x st ≡ some (after, out)
      → Inv ids plan [] [] after
  unfolding mark_failed
  mark_failed-Inv x st inv e =
      let stack = reverse (list_at x st.dependents) in
      let same = λ (s : ℕ). mem-reverse s (list_at x st.dependents) in
      let old = dependents-HaveDeps x [] [] st inv in
      cascade-Inv _ stack (fail x _ st) [] (λ s m. old s (ground (arith, same s)))
        (fail-Inv x _ st stack same inv) e
