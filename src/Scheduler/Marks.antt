-- ===== src/Scheduler/Marks.antt =====
-- `mark_completed` and `mark_skipped` under the invariant.
use hyperplane_rs.Prelude.{
  ℕ, ◌≡◌, inl, inr, true, List, [], all, ◌==◌, if◌then◌else◌, Bool-cases, arith,
}
use hyperplane_rs.Prelude.IdSet.{
  mem, insert, remove, union, mem-insert, mem-remove, mem-union, mem_of_all_grown, all_mono,
}
use hyperplane_rs.Scheduler.State.{InnerState, SchedulerStatistics}
use hyperplane_rs.Scheduler.Operations.{list_at, mark_completed, mark_skipped}
use hyperplane_rs.Scheduler.Invariant.{Inv, deps_of, is_settled, promote-Inv}

module _ {F : Type 0} (ids : List ℕ) (plan : ℕ → List ℕ) where
  abbrev settle : ℕ → List ℕ → List ℕ → SchedulerStatistics → InnerState F → InnerState F
  settle x c s stats st = record st {
    running = remove x st.running;
    ready = remove x st.ready;
    pending = remove x st.pending;
    completed = c;
    skipped = s;
    stats = stats;
  }

  settle-Inv :
      (x : ℕ) (c k : List ℕ) (stats : SchedulerStatistics) (st : InnerState F)
      → ((d : ℕ) → mem d (union c k) ≡ (if d == x then true else is_settled st d))
      → Inv ids plan [] [] st
      → Inv ids plan (list_at x st.dependents) [] (settle x c k stats st)
  unfolding mem
  settle-Inv x c k stats st grown inv = record {
    planned = inv.planned;
    forward = inv.forward;
    backward = inv.backward;
    roots = λ s. ground (arith, mem-remove s x st.ready, mem-remove s x st.pending, inv.roots s);
    cleared = λ s h.
        all_mono (is_settled st) (λ d. mem d (union c k)) (deps_of st s)
          (λ d e. ground (arith, grown d)) (ground (arith, mem-remove s x st.ready, inv.cleared s));
    waits = λ s h n. elim (Bool-cases (all (λ d. mem d (union c k)) (deps_of st s))) [
      | inr f ↦ inl f
      | inl t ↦ inr (
          ground (
            arith,
            mem-remove s x st.ready,
            mem-remove s x st.pending,
            inv.waits s,
            inv.forward s x,
            mem_of_all_grown (is_settled st) (λ d. mem d (union c k)) x (deps_of st s)
                (λ d e. ground (arith, grown d)),
          ))
    ];
    unfailed =
        λ s d. ground (arith, mem-remove s x st.ready, mem-remove s x st.pending, inv.unfailed s d);
    covered = λ s. ground (
      arith,
      mem-remove s x st.ready,
      mem-remove s x st.pending,
      mem-remove s x st.running,
      grown s,
      inv.covered s,
    );
  }

  -- `mark_completed` keeps the invariant.
  pub mark_completed-Inv :
      (x : ℕ) (st : InnerState F) → Inv ids plan [] [] st → Inv ids plan [] [] (mark_completed x st)
  unfolding mark_completed
  mark_completed-Inv x st inv = promote-Inv ids plan (list_at x st.dependents) _ (
      settle-Inv x (insert x st.completed) st.skipped _ st
        (λ d. ground (
          arith,
          mem-union d (insert x st.completed) st.skipped,
          mem-insert d x st.completed,
          mem-union d st.completed st.skipped,
        ))
        inv)

  -- `mark_skipped` keeps the invariant.
  pub mark_skipped-Inv :
      (x : ℕ) (st : InnerState F) → Inv ids plan [] [] st → Inv ids plan [] [] (mark_skipped x st)
  unfolding mark_skipped
  mark_skipped-Inv x st inv = promote-Inv ids plan (list_at x st.dependents) _ (
      settle-Inv x st.completed (insert x st.skipped) _ st
        (λ d. ground (
          arith,
          mem-union d st.completed (insert x st.skipped),
          mem-insert d x st.skipped,
          mem-union d st.completed st.skipped,
        ))
        inv)
