-- ===== src/Compiler/Notifications.antt =====
-- `trial_id_for` and `apply_trial_notifications` of crates/paramodel-compiler/src/compiler.rs. A ULID is
-- the number of its 128 bits: a timestamp above 80 random bits.
use Prim.Native.Nat.{bit_xor}
use hyperplane_rs.Prelude.{
  ℕ, ◌+◌, ◌*◌, ◌/◌, ◌%◌, ◌^◌, Bool, true, false, not, Option, none, some, List, [], ◌∷◌, ◌++◌,
  if◌then◌else◌,
}
use hyperplane_rs.Prelude.Arith.{u32_clamp}
use hyperplane_rs.Prelude.IdSet.{mem}
use hyperplane_rs.Prelude.Results.{Result, ok, ◌>>=◌}
use hyperplane_rs.Scheduler.State.{ResourceRequirements}
use hyperplane_rs.Plan.Elements.{Element, TestPlan, names}
use hyperplane_rs.Plan.Step.{AtomicStep, trial_start, trial_end, normal}
use hyperplane_rs.Plan.Graph.{ids}
use hyperplane_rs.Enumerator.{MixedRadixEnumerator}
use hyperplane_rs.Compiler.Binding.{BindingStateComputer}
use hyperplane_rs.Compiler.Edges.{add_dependency, dedupe_in_place}
use hyperplane_rs.Compiler.Expansion.{build_header}
use hyperplane_rs.Compiler.Ids.{Stop, StepFormats, or_internal, IdMap, StepIds}
use hyperplane_rs.Compiler.Coalescing.{current_activate_id, current_teardown_id}

unfoldable pub trial_id_for : TestPlan → ℕ → ℕ
trial_id_for plan trial_index =
    plan.id / 2 ^ 80 * 2 ^ 80 + bit_xor (plan.id % 2 ^ 80) trial_index % 2 ^ 80

-- `filter(|e| trial_elements.contains(&e.name) == wanted)`.
unfoldable pub members : Bool → List ℕ → List Element → List Element
unfolding mem
members wanted trial_elements [] = []
members wanted trial_elements (e ∷ elements) =
    let rest = members wanted trial_elements elements in
    if (if wanted then mem e.name trial_elements else not (mem e.name trial_elements))
    then e ∷ rest
    else rest

-- `Some(a)` and `live_ids.contains(&a)`.
unfoldable pub push_live : List ℕ → Option ℕ → List ℕ → List ℕ
unfolding mem
push_live live none deps = deps
push_live live (some a) deps = if mem a live then deps ++ a ∷ [] else deps

unfoldable pub start_deps :
    List ℕ
    → ℕ
    → List ℕ
    → BindingStateComputer
    → MixedRadixEnumerator
    → IdMap
    → List Element
    → List ℕ
    → Result Stop (List ℕ)
unfolding current_activate_id push_live
start_deps live t trial_elements bsc enumerator deploys [] deps = ok deps
start_deps live t trial_elements bsc enumerator deploys (e ∷ elements) deps = do
  a ← current_activate_id e.name t trial_elements bsc enumerator deploys
  start_deps live t trial_elements bsc enumerator deploys elements (push_live live a deps)

unfoldable pub end_deps : List ℕ → ℕ → IdMap → List Element → List ℕ → List ℕ
unfolding push_live
end_deps live t teardowns [] deps = deps
end_deps live t teardowns (e ∷ elements) deps =
    end_deps live t teardowns elements (push_live live (teardowns e.name t) deps)

module _ {F : Type 0} where
  -- Every activation of a trial element waits for the start of the trial.
  unfoldable pub hold_activations :
      ℕ → ℕ → IdMap → List Element → List (AtomicStep F) → List (AtomicStep F)
  unfolding add_dependency
  hold_activations t start_id deploys [] steps = steps
  hold_activations t start_id deploys (e ∷ elements) steps =
      hold_activations t start_id deploys elements
        (elim (deploys e.name t) [ none ↦ steps | some a ↦ add_dependency a start_id steps ])

  unfoldable pub hold_teardown : List ℕ → ℕ → Option ℕ → List (AtomicStep F) → List (AtomicStep F)
  unfolding add_dependency mem
  hold_teardown live end_id none steps = steps
  hold_teardown live end_id (some d) steps =
      if mem d live then add_dependency d end_id steps else steps

  -- Every live teardown of another element waits for the end of the trial.
  unfoldable pub hold_teardowns :
      List ℕ
      → ℕ
      → ℕ
      → List ℕ
      → BindingStateComputer
      → MixedRadixEnumerator
      → ℕ
      → IdMap
      → List Element
      → List (AtomicStep F)
      → Result Stop (List (AtomicStep F))
  unfolding hold_teardown current_teardown_id
  hold_teardowns live t end_id trial_elements bsc enumerator n teardowns [] steps = ok steps
  hold_teardowns live t end_id trial_elements bsc enumerator n teardowns (e ∷ elements) steps = do
    d ← current_teardown_id e.name t trial_elements bsc enumerator n teardowns
    hold_teardowns live t end_id trial_elements bsc enumerator n teardowns elements
        (hold_teardown live end_id d steps)

module _ {F : Type 0} (none_required : ResourceRequirements F) (formats : StepFormats) where
  unfoldable pub notify_trial :
      TestPlan
      → StepIds
      → List ℕ
      → BindingStateComputer
      → MixedRadixEnumerator
      → ℕ
      → List ℕ
      → ℕ
      → List (AtomicStep F)
      → Result Stop (List (AtomicStep F))
  unfolding members start_deps end_deps hold_activations hold_teardowns trial_id_for dedupe_in_place
  notify_trial plan m trial_elements bsc enumerator n live t steps = do
    let others = members false trial_elements plan.elements
    let trials = members true trial_elements plan.elements
    start_id ← or_internal (formats.notify_trial_start t)
    before ← start_deps live t trial_elements bsc enumerator m.deploy_id_of others []
    end_id ← or_internal (formats.notify_trial_end t)
    hold_teardowns live t end_id trial_elements bsc enumerator n m.teardown_id_of others (
        hold_activations t start_id m.deploy_id_of trials (
          steps
          ++ trial_start
              (build_header none_required start_id (dedupe_in_place before) (some (u32_clamp t)))
              (trial_id_for plan t) (names others)
            ∷ [])
        ++ trial_end
            (build_header none_required end_id
              (dedupe_in_place (end_deps live t m.teardown_id_of trials [])) (some (u32_clamp t)))
            (trial_id_for plan t) (names trials) normal
          ∷ [])

  unfoldable pub notify_trials :
      TestPlan
      → StepIds
      → List ℕ
      → BindingStateComputer
      → MixedRadixEnumerator
      → ℕ
      → List ℕ
      → List ℕ
      → List (AtomicStep F)
      → Result Stop (List (AtomicStep F))
  unfolding notify_trial
  notify_trials plan m trial_elements bsc enumerator n live [] steps = ok steps
  notify_trials plan m trial_elements bsc enumerator n live (t ∷ ts) steps =
      notify_trial plan m trial_elements bsc enumerator n live t steps
      >>= notify_trials plan m trial_elements bsc enumerator n live ts

  unfoldable pub apply_trial_notifications :
      TestPlan
      → StepIds
      → List ℕ
      → BindingStateComputer
      → MixedRadixEnumerator
      → ℕ
      → List ℕ
      → List (AtomicStep F)
      → Result Stop (List (AtomicStep F))
  unfolding members notify_trials
  apply_trial_notifications plan m trial_elements bsc enumerator n ts steps =
      elim (members true trial_elements plan.elements) [
        | [] ↦ ok steps
        | e ∷ elements ↦ notify_trials plan m trial_elements bsc enumerator n (ids steps) ts steps
      ]
