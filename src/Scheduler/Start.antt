-- ===== src/Scheduler/Start.antt =====
-- `initialise` and the invariant.
use hyperplane_rs.Prelude.{
  ℕ, ◌≡◌, inl, refl, Bool, true, false, ◌||◌, ◌&&◌, List, [], ◌∷◌, ◌++◌, map, all, ◌==◌,
  if◌then◌else◌, arith,
}
use hyperplane_rs.Prelude.IdSet.{
  mem, insert, mem-insert, mem-union, mem-append, lookup, put, lookup-put,
}
use hyperplane_rs.Scheduler.State.{PlanStep, InnerState, default}
use hyperplane_rs.Scheduler.Operations.{
  list_at, is_nil, add_dependents, register, register_all, roots, initialise,
}
use hyperplane_rs.Scheduler.Invariant.{Inv, is_settled}

list_at-put :
    (j k : ℕ) (v : List ℕ) (m : List (ℕ × List ℕ))
    → list_at j (put k v m) ≡ (if j == k then v else list_at j m)
unfolding list_at
list_at-put j k v m = ground (arith, lookup-put j k v m)

-- The dependents of `d` after the step `id` with its dependencies is registered.
mem-add_dependents :
    (s d id : ℕ) (ds : List ℕ) (m : List (ℕ × List ℕ))
    → mem s (list_at d (add_dependents id ds m)) ≡ (mem s (list_at d m) || (s == id && mem d ds))
unfolding add_dependents mem
mem-add_dependents s d id [] m = ground arith
mem-add_dependents s d id (x ∷ ds) m = ground (
  arith,
  mem-add_dependents s d id ds (put x (list_at x m ++ id ∷ []) m),
  list_at-put d x (list_at x m ++ id ∷ []) m,
  mem-append s (list_at x m) (id ∷ []),
)

pub nil_of_is_nil : (l : List ℕ) → is_nil l ≡ true → l ≡ []
nil_of_is_nil [] h = refl
nil_of_is_nil (x ∷ l) h = absurd (ground arith)

-- A list with a member fails a test that nothing passes.
all_fails :
    (p : ℕ → Bool) (l : List ℕ) → ((d : ℕ) → p d ≡ false) → is_nil l ≡ false → all p l ≡ false
all_fails p [] h e = absurd (ground arith)
all_fails p (x ∷ l) h e = ground (arith, h x)

module _ {F : Type 0} where
  abbrev pub step_ids : List (PlanStep F) → List ℕ
  step_ids = map (λ step. step.id)

  -- The dependencies that the plan gives a step.
  abbrev pub plan_deps : List (PlanStep F) → ℕ → List ℕ
  plan_deps [] j = []
  plan_deps (step ∷ steps) j = if j == step.id then step.depends_on else plan_deps steps j

  abbrev pub HasDistinctIds : List (PlanStep F) → Type 0
  HasDistinctIds [] = Unit
  HasDistinctIds (step ∷ steps) = (mem step.id (step_ids steps) ≡ false) × HasDistinctIds steps

  plan_deps_absent :
      (steps : List (PlanStep F)) (j : ℕ) → mem j (step_ids steps) ≡ false → plan_deps steps j ≡ []
  unfolding mem
  plan_deps_absent [] j h = refl
  plan_deps_absent (step ∷ steps) j h = ground (arith, plan_deps_absent steps j)

  -- What `register_all` adds to a state that knows none of the steps.
  registered :
      (steps : List (PlanStep F)) (st : InnerState F) (j : ℕ)
      → HasDistinctIds steps
      → list_at j (register_all steps st).deps
        ≡ (if mem j (step_ids steps) then plan_deps steps j else list_at j st.deps)
  unfolding register_all mem
  registered [] st j d = refl
  registered (step ∷ steps) st j d = ground (
    arith,
    registered steps (register step st) j d.1,
    list_at-put j step.id step.depends_on st.deps,
  )

  pub registered_pending :
      (steps : List (PlanStep F)) (st : InnerState F) (j : ℕ)
      → mem j (register_all steps st).pending ≡ (mem j st.pending || mem j (step_ids steps))
  unfolding register_all mem
  registered_pending [] st j = ground arith
  registered_pending (step ∷ steps) st j =
      ground (arith, registered_pending steps (register step st) j, mem-insert j step.id st.pending)

  -- The fields that `register_all` leaves alone.
  pub registered_rest :
      (steps : List (PlanStep F)) (st : InnerState F)
      → ((register_all steps st).completed ≡ st.completed)
        × ((register_all steps st).skipped ≡ st.skipped)
        × ((register_all steps st).failed ≡ st.failed)
        × ((register_all steps st).ready ≡ st.ready)
  unfolding register_all
  registered_rest [] st = (refl, refl, refl, refl)
  registered_rest (step ∷ steps) st = registered_rest steps (register step st)

  registered_dependents :
      (steps : List (PlanStep F)) (st : InnerState F) (s d : ℕ)
      → HasDistinctIds steps
      → mem s (list_at d (register_all steps st).dependents)
        ≡ (mem s (list_at d st.dependents) || (mem s (step_ids steps) && mem d (plan_deps steps s)))
  unfolding register_all mem
  registered_dependents [] st s d h = ground arith
  registered_dependents (step ∷ steps) st s d h = ground (
    arith,
    registered_dependents steps (register step st) s d h.1,
    mem-add_dependents s d step.id step.depends_on st.dependents,
  )

  pub mem-roots :
      (steps : List (PlanStep F)) (ready : List ℕ) (j : ℕ)
      → HasDistinctIds steps
      → mem j (roots steps ready)
        ≡ (mem j ready || (mem j (step_ids steps) && is_nil (plan_deps steps j)))
  unfolding roots mem
  mem-roots [] ready j h = ground arith
  mem-roots (step ∷ steps) ready j h = ground (
    arith,
    mem-roots steps (if is_nil step.depends_on then insert step.id ready else ready) j h.1,
    mem-insert j step.id ready,
  )

  -- For a plan whose steps have distinct ids, `initialise` gives a state with the invariant.
  pub initialise-Inv :
      (steps : List (PlanStep F))
      → HasDistinctIds steps
      → Inv (step_ids steps) (plan_deps steps) [] [] (initialise steps)
  unfolding initialise mem default lookup list_at
  initialise-Inv steps h = record {
    planned = known;
    forward = λ s d m. ground (arith, known s, dependents s d, plan_deps_absent steps s);
    backward = λ s d m. ground (arith, known s, dependents s d);
    roots = λ s m _.
        nil_of_is_nil (list_at s (initialise steps).deps) (ground (arith, ready s, known s));
    cleared = λ s m.
        rw (nil_of_is_nil (list_at s (initialise steps).deps) (ground (arith, ready s, known s)));
    waits = λ s m n. inl (
        all_fails (is_settled (initialise steps)) (list_at s (initialise steps).deps) unsettled
          (ground (arith, ready s, known s, pending s)));
    unfailed = λ s d o m f. absurd (ground (arith, rest));
    covered = λ s m. ground (arith, pending s);
  }
    where
      blank : InnerState F
      blank = default

      rest :
          ((register_all steps blank).completed ≡ [])
          × ((register_all steps blank).skipped ≡ [])
          × ((register_all steps blank).failed ≡ [])
          × ((register_all steps blank).ready ≡ [])
      rest = registered_rest steps blank

      unsettled : (d : ℕ) → is_settled (initialise steps) d ≡ false
      unsettled d = ground (
        arith,
        rest,
        mem-union d (register_all steps blank).completed (register_all steps blank).skipped,
      )

      known : (s : ℕ) → list_at s (initialise steps).deps ≡ plan_deps steps s
      known s = ground (arith, registered steps blank s h, plan_deps_absent steps s)

      dependents :
          (s d : ℕ)
          → mem s (list_at d (initialise steps).dependents)
            ≡ (mem s (step_ids steps) && mem d (plan_deps steps s))
      dependents s d = registered_dependents steps blank s d h

      pending : (s : ℕ) → mem s (initialise steps).pending ≡ mem s (step_ids steps)
      pending s = registered_pending steps blank s

      ready :
          (s : ℕ)
          → mem s (initialise steps).ready ≡ (mem s (step_ids steps) && is_nil (plan_deps steps s))
      ready s = ground (arith, mem-roots steps (register_all steps blank).ready s h, rest)
