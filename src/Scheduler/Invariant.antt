-- ===== src/Scheduler/Invariant.antt =====
-- What holds of the scheduler's state between two calls, whatever the calls are.
use hyperplane_rs.Prelude.{
  ℕ, ◌≡◌, ◌⊎◌, inl, inr, Bool, true, false, ◌||◌, ◌&&◌, List, [], ◌∷◌, all, Bool-cases, arith,
}
use hyperplane_rs.Prelude.IdSet.{mem, insert, remove, union, mem-insert, mem-remove}
use hyperplane_rs.Scheduler.State.{InnerState}
use hyperplane_rs.Scheduler.Operations.{list_at, promote}

module _ {F : Type 0} where
  abbrev pub deps_of : InnerState F → ℕ → List ℕ
  deps_of st s = list_at s st.deps

  -- A step that is settled: completed or skipped.
  abbrev pub is_settled : InnerState F → ℕ → Bool
  is_settled st d = mem d (union st.completed st.skipped)

  -- A step that is not dispatched and not cancelled.
  abbrev pub is_open : InnerState F → ℕ → Bool
  is_open st s = mem s st.pending || mem s st.ready

  -- The invariant, with two lists of steps that a loop has still to look at: those of `waiting` may
  -- be pending with all dependencies settled, those of `failing` may be open behind a failure. `ids`
  -- are the steps of the plan and `plan` gives their dependencies.
  pub record Inv (ids : List ℕ) (plan : ℕ → List ℕ) (waiting failing : List ℕ) (st : InnerState F)
      : Type 0 where
    pub planned : (s : ℕ) → list_at s st.deps ≡ plan s
    pub forward :
        (s d : ℕ) → mem d (list_at s st.deps) ≡ true → mem s (list_at d st.dependents) ≡ true
    pub backward :
        (s d : ℕ) → mem s (list_at d st.dependents) ≡ true → mem d (list_at s st.deps) ≡ true
    pub roots : (s : ℕ) → mem s st.ready ≡ true → mem s st.pending ≡ true → deps_of st s ≡ []
    pub cleared : (s : ℕ) → mem s st.ready ≡ true → all (is_settled st) (deps_of st s) ≡ true
    pub waits :
        (s : ℕ)
        → mem s st.pending ≡ true
        → mem s st.ready ≡ false
        → (all (is_settled st) (deps_of st s) ≡ false) ⊎ (mem s waiting ≡ true)
    pub unfailed :
        (s d : ℕ)
        → is_open st s ≡ true
        → mem d (deps_of st s) ≡ true
        → mem d st.failed ≡ true
        → mem s failing ≡ true
    pub covered :
        (s : ℕ)
        → mem s ids ≡ true
        → is_open st s || mem s st.running || is_settled st s || mem s st.failed ≡ true

  module _ (ids : List ℕ) (plan : ℕ → List ℕ) where
    promote_one-Inv :
        (d : ℕ) (ds : List ℕ) (st : InnerState F)
        → (mem d st.pending && all (is_settled st) (deps_of st d)) ≡ true
        → Inv ids plan (d ∷ ds) [] st
        → Inv ids plan ds []
            (record st { pending = remove d st.pending; ready = insert d st.ready })
    unfolding mem
    promote_one-Inv d ds st t inv = record {
      planned = inv.planned;
      forward = inv.forward;
      backward = inv.backward;
      roots = λ s. ground (arith, mem-insert s d st.ready, mem-remove s d st.pending, inv.roots s);
      cleared = λ s. ground (arith, mem-insert s d st.ready, inv.cleared s);
      waits = λ s. ground (arith, mem-insert s d st.ready, mem-remove s d st.pending, inv.waits s);
      unfailed = λ s x.
          ground (arith, mem-insert s d st.ready, mem-remove s d st.pending, inv.unfailed s x);
      covered =
          λ s. ground (arith, mem-insert s d st.ready, mem-remove s d st.pending, inv.covered s);
    }

    promote_none-Inv :
        (d : ℕ) (ds : List ℕ) (st : InnerState F)
        → (mem d st.pending && all (is_settled st) (deps_of st d)) ≡ false
        → Inv ids plan (d ∷ ds) [] st
        → Inv ids plan ds [] st
    unfolding mem
    promote_none-Inv d ds st t inv = record {
      planned = inv.planned;
      forward = inv.forward;
      backward = inv.backward;
      roots = inv.roots;
      cleared = inv.cleared;
      waits = λ s. ground (arith, inv.waits s);
      unfailed = inv.unfailed;
      covered = inv.covered;
    }

    pub promote-Inv :
        (ds : List ℕ) (st : InnerState F)
        → Inv ids plan ds [] st
        → Inv ids plan [] [] (promote (union st.completed st.skipped) ds st)
    unfolding promote
    promote-Inv [] st inv = inv
    promote-Inv (d ∷ ds) st inv =
        elim (Bool-cases (mem d st.pending && all (is_settled st) (deps_of st d))) [
          | inl t ↦ rw t (promote-Inv ds _ (promote_one-Inv d ds st t inv))
          | inr f ↦ rw f (promote-Inv ds st (promote_none-Inv d ds st f inv))
        ]
