-- ===== src/Compiler/Coalescing/Examples.antt =====
-- A database that is folded over two trials.
use hyperplane_rs.Prelude.{
  ℕ, ◌+◌, ◌*◌, ◌==◌, ◌≡◌, refl, ◌&&◌, none, some, List, [], ◌∷◌, ltb, if◌then◌else◌, arith,
}
use hyperplane_rs.Prelude.IdSet.{mem, insert, remove, lookup, put}
use hyperplane_rs.Prelude.Results.{ok}
use hyperplane_rs.Plan.Elements.{shared, TestPlan}
use hyperplane_rs.Plan.Elements.Samples.{plain, axis_on, plan_of}
use hyperplane_rs.Plan.Samples.{step}
use hyperplane_rs.Plan.Step.{AtomicStep, id, depends_on}
use hyperplane_rs.Plan.Graph.{ids}
use hyperplane_rs.Enumerator.{MixedRadixEnumerator}
use hyperplane_rs.Compiler.Binding.{compute}
use hyperplane_rs.Compiler.Expansion.{enumerator_of}
use hyperplane_rs.Compiler.Ids.{StepIds}
use hyperplane_rs.Compiler.Coalescing.{apply_coalescing, current_activate_id, current_teardown_id}
use hyperplane_rs.Compiler.Coalescing.Turn.{DistinctIds}
use hyperplane_rs.Compiler.Coalescing.Agreement.{apply_coalescing-current}

abbrev some_ids : StepIds
some_ids = record {
  deploy_id_of = λ e t. if ltb t 10 then some (20 * e + t) else none;
  teardown_id_of = λ e t. if ltb t 10 then some (20 * e + 10 + t) else none;
}

some_ids_distinct : DistinctIds some_ids
some_ids_distinct = record {
  deploys = λ e t e' t' a h k. ground arith;
  teardowns = λ e t e' t' a h k. ground arith;
  apart = λ e t e' t' a h k. ground arith;
}

-- 1 is shared by both trials of 2.
abbrev shared_database : TestPlan
shared_database =
    plan_of (plain 1 [] ∷ plain 2 (record { target = 1; relationship = shared } ∷ []) ∷ [])
      (axis_on 2 1 ∷ [])

abbrev two_trials : MixedRadixEnumerator
two_trials = record { cardinalities = 2 ∷ []; strides = 1 ∷ []; trial_count = 2; digit_bits = 4 }

abbrev unfolded : List (AtomicStep ℕ)
unfolded =
    step 20 (7 ∷ [])
    ∷ step 30 (20 ∷ 50 ∷ [])
    ∷ step 40 (7 ∷ 20 ∷ [])
    ∷ step 50 (40 ∷ [])
    ∷ step 21 (8 ∷ [])
    ∷ step 31 (21 ∷ 51 ∷ [])
    ∷ step 41 (7 ∷ 21 ∷ [])
    ∷ step 51 (41 ∷ [])
    ∷ []

abbrev folded : List (AtomicStep ℕ)
folded =
    step 20 (7 ∷ 8 ∷ [])
    ∷ step 40 (7 ∷ 20 ∷ [])
    ∷ step 50 (40 ∷ [])
    ∷ step 31 (20 ∷ 51 ∷ 50 ∷ [])
    ∷ step 41 (7 ∷ 20 ∷ [])
    ∷ step 51 (41 ∷ [])
    ∷ []

enumerated : enumerator_of shared_database ≡ two_trials
unfolding enumerator_of
enumerated = refl

folding :
    apply_coalescing shared_database some_ids two_trials 2
      (compute shared_database)
      (2 ∷ [])
      unfolded
    ≡ ok folded
unfolding apply_coalescing compute mem insert remove lookup put id depends_on
folding = refl

apply_coalescing-current_example :
    ((k : ℕ) × (current_activate_id 1 1
          (2 ∷ [])
          (compute shared_database)
          two_trials
          some_ids.deploy_id_of
        ≡ ok (some k))
      × (mem 21 (ids folded) ≡ (mem 21 (ids unfolded) && (21 == k))))
    × ((k : ℕ) × (current_teardown_id 1 1
            (2 ∷ [])
            (compute shared_database)
            two_trials
            2
            some_ids.teardown_id_of
          ≡ ok (some k))
        × (mem 31 (ids folded) ≡ (mem 31 (ids unfolded) && (31 == k))))
unfolding mem
apply_coalescing-current_example =
    apply_coalescing-current shared_database some_ids some_ids_distinct two_trials (omega arith)
      (omega arith) (compute shared_database) (2 ∷ []) unfolded folded (refl, (refl, tt)) folding 1
      1 21 31 refl (omega arith) refl refl
