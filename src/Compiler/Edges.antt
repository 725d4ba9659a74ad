-- ===== src/Compiler/Edges.antt =====
-- The edits of dependency lists in crates/paramodel-compiler/src/compiler.rs, on which its passes
-- are built.
use hyperplane_rs.Prelude.{
  ℕ, ◌==◌, ◌≡◌, refl, not, ◌&&◌, ◌||◌, List, [], ◌∷◌, ◌++◌, if◌then◌else◌, arith,
}
use hyperplane_rs.Prelude.IdSet.{mem, insert, remove, mem-remove, mem-append}
use hyperplane_rs.Plan.Step.{
  StepHeader, AtomicStep, deploy, teardown, trial_start, trial_end, await, save_output, barrier,
  checkpoint, id, depends_on,
}
use hyperplane_rs.Plan.Graph.{ids}
use hyperplane_rs.Plan.Graph.Relax.{deps_at}

-- `retain(|x| seen.insert(x))`.
unfoldable pub dedupe_from : List ℕ → List ℕ → List ℕ
dedupe_from seen [] = []
dedupe_from seen (x ∷ v) =
    let skip = dedupe_from seen v in
    let rest = dedupe_from (insert x seen) v in if mem x seen then skip else x ∷ rest

unfoldable pub dedupe_in_place : List ℕ → List ℕ
unfolding dedupe_from
dedupe_in_place v = dedupe_from [] v

module _ {F : Type 0} where
  abbrev with_deps : List ℕ → StepHeader F → StepHeader F
  with_deps deps h = record h { depends_on = deps }

  -- An assignment through `depends_on_mut`.
  unfoldable pub set_deps : List ℕ → AtomicStep F → AtomicStep F
  set_deps ds (deploy h e n c m g d) = deploy (with_deps ds h) e n c m g d
  set_deps ds (teardown h e n c) = teardown (with_deps ds h) e n c
  set_deps ds (trial_start h t es) = trial_start (with_deps ds h) t es
  set_deps ds (trial_end h t es r) = trial_end (with_deps ds h) t es r
  set_deps ds (await h e n t) = await (with_deps ds h) e n t
  set_deps ds (save_output h e n t o) = save_output (with_deps ds h) e n t o
  set_deps ds (barrier h b k t a) = barrier (with_deps ds h) b k t a
  set_deps ds (checkpoint h c) = checkpoint (with_deps ds h) c

  pub set_deps_lem :
      (ds : List ℕ) (s : AtomicStep F)
      → (id (set_deps ds s) ≡ id s) × (depends_on (set_deps ds s) ≡ ds)
  unfolding set_deps id depends_on
  set_deps_lem ds (deploy h e n c m g d) = (refl, refl)
  set_deps_lem ds (teardown h e n c) = (refl, refl)
  set_deps_lem ds (trial_start h t es) = (refl, refl)
  set_deps_lem ds (trial_end h t es r) = (refl, refl)
  set_deps_lem ds (await h e n t) = (refl, refl)
  set_deps_lem ds (save_output h e n t o) = (refl, refl)
  set_deps_lem ds (barrier h b k t a) = (refl, refl)
  set_deps_lem ds (checkpoint h c) = (refl, refl)

  -- Only the first step with the id is edited.
  unfoldable pub add_dependency : ℕ → ℕ → List (AtomicStep F) → List (AtomicStep F)
  unfolding set_deps
  add_dependency target to_add [] = []
  add_dependency target to_add (s ∷ steps) =
      let deps = depends_on s in
      let rest = add_dependency target to_add steps in
      if id s == target
      then set_deps (if mem to_add deps then deps else deps ++ to_add ∷ []) s ∷ steps
      else s ∷ rest

  unfoldable pub remove_dependency : ℕ → ℕ → List (AtomicStep F) → List (AtomicStep F)
  unfolding set_deps
  remove_dependency target to_remove [] = []
  remove_dependency target to_remove (s ∷ steps) =
      let rest = remove_dependency target to_remove steps in
      if id s == target then set_deps (remove to_remove (depends_on s)) s ∷ steps else s ∷ rest

  pub ids-remove_dependency :
      (t r : ℕ) (steps : List (AtomicStep F)) → ids (remove_dependency t r steps) ≡ ids steps
  unfolding remove_dependency
  ids-remove_dependency t r [] = refl
  ids-remove_dependency t r (s ∷ steps) =
      ground (arith, ids-remove_dependency t r steps, set_deps_lem (remove r (depends_on s)) s)

  pub deps_at-remove_dependency :
      (t r : ℕ) (steps : List (AtomicStep F)) (x d : ℕ)
      → mem d (deps_at (remove_dependency t r steps) x)
        ≡ (mem d (deps_at steps x) && not ((x == t) && (d == r)))
  unfolding remove_dependency mem
  deps_at-remove_dependency t r [] x d = refl
  deps_at-remove_dependency t r (s ∷ steps) x d = ground (
    arith,
    deps_at-remove_dependency t r steps x d,
    set_deps_lem (remove r (depends_on s)) s,
    mem-remove d r (depends_on s),
  )

  pub ids-add_dependency :
      (t a : ℕ) (steps : List (AtomicStep F)) → ids (add_dependency t a steps) ≡ ids steps
  unfolding add_dependency
  ids-add_dependency t a [] = refl
  ids-add_dependency t a (s ∷ steps) = ground (
    arith,
    ids-add_dependency t a steps,
    set_deps_lem (depends_on s) s,
    set_deps_lem (depends_on s ++ a ∷ []) s,
  )

  pub deps_at-add_dependency :
      (t a : ℕ) (steps : List (AtomicStep F)) (x d : ℕ)
      → mem d (deps_at (add_dependency t a steps) x)
        ≡ (mem d (deps_at steps x) || (mem t (ids steps) && (x == t) && (d == a)))
  unfolding add_dependency mem
  deps_at-add_dependency t a [] x d = refl
  deps_at-add_dependency t a (s ∷ steps) x d = ground (
    arith,
    deps_at-add_dependency t a steps x d,
    set_deps_lem (depends_on s) s,
    set_deps_lem (depends_on s ++ a ∷ []) s,
    mem-append d (depends_on s) (a ∷ []),
  )
