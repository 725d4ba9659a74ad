-- ===== src/Compiler/Trials/Selection.antt =====
-- Which elements are trial elements.
use hyperplane_rs.Prelude.{
  ℕ, ◌==◌, ◌≡◌, refl, ◌∙◌, ltb, Bool, true, false, not, ◌&&◌, ◌||◌, List, [], ◌∷◌, any, Bool-cases,
  inl, inr, if◌then◌else◌, arith,
}
use hyperplane_rs.Prelude.IdSet.{mem, insert, remove, union, mem-insert, mem-remove, mem-union}
use hyperplane_rs.Plan.Elements.{Dependency, Element, TestPlan}
use hyperplane_rs.Compiler.Binding.{BindingStateComputer, effective_level}
use hyperplane_rs.Compiler.Trials.{
  collect_names, is_forced, insert_targets, targets_of, has_trial_axis, has_deps, candidate_pool,
  without, remove_all, identify_trial_elements,
}

-- An element with the name passes a test.
abbrev pub named : (Element → Bool) → ℕ → List Element → Bool
named p x = any (λ e. (x == e.name) && p e)

-- An element that passes a test depends on `x`.
abbrev pub depended_on_by : (Element → Bool) → ℕ → List Element → Bool
depended_on_by p x = any (λ e. p e && any (λ d. x == d.target) e.dependencies)

mem-collect_names :
    (p : Element → Bool) (x : ℕ) (elements : List Element)
    → mem x (collect_names p elements) ≡ named p x elements
unfolding collect_names mem
mem-collect_names p x [] = refl
mem-collect_names p x (e ∷ elements) =
    ground (arith, mem-collect_names p x elements, mem-insert x e.name (collect_names p elements))

mem-insert_targets :
    (x : ℕ) (deps : List Dependency) (s : List ℕ)
    → mem x (insert_targets deps s) ≡ (any (λ d. x == d.target) deps || mem x s)
unfolding insert_targets
mem-insert_targets x [] s = refl
mem-insert_targets x (d ∷ deps) s =
    ground (arith, mem-insert_targets x deps (insert d.target s), mem-insert x d.target s)

mem-targets_of :
    (p : Element → Bool) (x : ℕ) (elements : List Element) (s : List ℕ)
    → mem x (targets_of p elements s) ≡ (depended_on_by p x elements || mem x s)
unfolding targets_of
mem-targets_of p x [] s = refl
mem-targets_of p x (e ∷ elements) s = ground (
  arith,
  mem-targets_of p x elements s,
  mem-targets_of p x elements (insert_targets e.dependencies s),
  mem-insert_targets x e.dependencies s,
)

mem-without : (x : ℕ) (set xs : List ℕ) → mem x (without set xs) ≡ (mem x xs && not (mem x set))
unfolding without mem
mem-without x set [] = refl
mem-without x set (y ∷ xs) = ground (arith, mem-without x set xs)

mem-remove_all :
    (x : ℕ) (fs out : List ℕ) → mem x (remove_all fs out) ≡ (mem x out && not (mem x fs))
unfolding remove_all mem
mem-remove_all x [] out = ground arith
mem-remove_all x (f ∷ fs) out =
    ground (arith, mem-remove_all x fs (remove f out), mem-remove x f out)

-- The test that makes an element a candidate.
abbrev pub is_candidate : TestPlan → BindingStateComputer → Element → Bool
is_candidate plan bsc e =
    if has_trial_axis bsc plan.axes
    then ltb 0 (effective_level bsc e.name)
    else has_deps e.dependencies || depended_on_by (λ other. true) e.name plan.elements

named-ext :
    (p q : Element → Bool) (x : ℕ) (elements : List Element)
    → ((e : Element) → p e ≡ q e)
    → named p x elements ≡ named q x elements
named-ext p q x [] h = refl
named-ext p q x (e ∷ elements) h = ground (arith, h e, named-ext p q x elements h)

depended_on_by-ext :
    (p q : Element → Bool) (x : ℕ) (elements : List Element)
    → ((e : Element) → p e ≡ q e)
    → depended_on_by p x elements ≡ depended_on_by q x elements
depended_on_by-ext p q x [] h = refl
depended_on_by-ext p q x (e ∷ elements) h = ground (arith, h e, depended_on_by-ext p q x elements h)

mem-candidate_pool :
    (plan : TestPlan) (bsc : BindingStateComputer) (x : ℕ)
    → mem x (candidate_pool plan bsc) ≡ named (is_candidate plan bsc) x plan.elements
unfolding candidate_pool mem
mem-candidate_pool plan bsc x = elim (Bool-cases (has_trial_axis bsc plan.axes)) [
  | inl t ↦
      rw (t, candidate_pool)
        (mem-collect_names (λ e. ltb 0 (effective_level bsc e.name)) x plan.elements)
  | inr f ↦
      let incoming = targets_of (λ e. true) plan.elements [] in
      let test = λ (e : Element). has_deps e.dependencies || mem e.name incoming in
      rw (f, candidate_pool)
        (mem-collect_names test x plan.elements
          ∙ named-ext test _ x plan.elements
              (λ e. ground (arith, mem-targets_of (λ e'. true) e.name plan.elements [])))
]

-- An element's name is in the set of trial elements exactly when no element of that name is marked
-- as none, and one is marked as a trial element, or one is a candidate and no element whose name a
-- candidate has depends on it.
pub mem-identify_trial_elements :
    (plan : TestPlan) (bsc : BindingStateComputer) (x : ℕ)
    → mem x (identify_trial_elements plan bsc) ≡ (
        not (named (λ e. is_forced false e.trial_element) x plan.elements)
        && (named (λ e. is_forced true e.trial_element) x plan.elements
            || (named (is_candidate plan bsc) x plan.elements
                && not (
                    depended_on_by
                      (λ e. named (is_candidate plan bsc) e.name plan.elements)
                      x
                      plan.elements))))
unfolding identify_trial_elements mem
mem-identify_trial_elements plan bsc x =
    let forced_on = collect_names (λ e. is_forced true e.trial_element) plan.elements in
    let forced_off = collect_names (λ e. is_forced false e.trial_element) plan.elements in
    let pool = candidate_pool plan bsc in
    let depended = targets_of (λ e. mem e.name pool) plan.elements [] in
    ground (
      arith,
      mem-remove_all x forced_off (union (without depended pool) forced_on),
      mem-union x (without depended pool) forced_on,
      mem-without x depended pool,
      mem-targets_of (λ e. mem e.name pool) x plan.elements [],
      mem-candidate_pool plan bsc x,
      mem-collect_names (λ e. is_forced true e.trial_element) x plan.elements,
      mem-collect_names (λ e. is_forced false e.trial_element) x plan.elements,
      depended_on_by-ext (λ e. mem e.name pool)
          (λ e. named (is_candidate plan bsc) e.name plan.elements) x plan.elements
          (λ e. mem-candidate_pool plan bsc e.name),
    )
