-- ===== src/Compiler/Coalescing.antt =====
-- `group_size_at` and `apply_coalescing` of crates/paramodel-compiler/src/compiler.rs, and the step that
-- is live for an element and a trial afterwards. The `while` loop has a turn of fuel for each trial.
-- Trial indices and their sums stay below 2^64: the steps of all trials are held in memory.
pub mod Folding
pub mod Group
pub mod Groups
pub mod Turn
pub mod Elements
pub mod Agreement
mod Examples
use hyperplane_rs.Prelude.{
  ℕ, zero, suc, ◌+◌, ◌-◌, ◌*◌, ◌/◌, ◌==◌, Bool, true, false, Option, none, some, List, [], ◌∷◌,
  ◌++◌, map, length, get_elem?, ltb, leb, if◌then◌else◌,
}
use Prim.Native.Nat.{min}
use hyperplane_rs.Prelude.Arith.{u32_clamp}
use hyperplane_rs.Prelude.IdSet.{mem, insert, remove, lookup, put}
use hyperplane_rs.Prelude.Results.{Result, ok, err, ◌>>=◌}
use hyperplane_rs.Plan.Elements.{Element, TestPlan}
use hyperplane_rs.Plan.Step.{AtomicStep, id, depends_on}
use hyperplane_rs.Enumerator.{MixedRadixEnumerator}
use hyperplane_rs.Compiler.Binding.{BindingStateComputer, effective_level}
use hyperplane_rs.Compiler.Edges.{set_deps, dedupe_in_place}
use hyperplane_rs.Compiler.Ids.{Stop, panicked, out_of_fuel, or_panic, IdMap, StepIds, range_from}
use hyperplane_rs.Compiler.Lifeline.{remapped, drop_steps}

unfoldable pub group_size_at : MixedRadixEnumerator → ℕ → Result Stop ℕ
group_size_at e level =
    if level == 0
    then ok e.trial_count
    else if leb (u32_clamp (length e.cardinalities)) level
    then ok 1
    else or_panic (get_elem? e.strides (level - 1))

pub record Coalesced : Type 0 where
  pub remap : List (ℕ × ℕ)
  pub to_remove : List ℕ

-- Fold the steps of an element at some trials onto the kept one.
unfoldable pub fold_onto : IdMap → ℕ → ℕ → List ℕ → Coalesced → Result Stop Coalesced
unfolding insert put
fold_onto ids e kept [] c = ok c
fold_onto ids e kept (t ∷ ts) c = do
  removed ← or_panic (ids e t)
  fold_onto ids e kept ts
      (record { remap = put removed kept c.remap; to_remove = insert removed c.to_remove })

-- The group of trials from `first` to `last`.
unfoldable pub fold_group : StepIds → ℕ → ℕ → ℕ → Coalesced → Result Stop Coalesced
unfolding fold_onto range_from
fold_group m e first last c = do
  kept_activate ← or_panic (m.deploy_id_of e first)
  kept_deactivate ← or_panic (m.teardown_id_of e last)
  activates ← fold_onto m.deploy_id_of e kept_activate (range_from (last - first) (first + 1)) c
  fold_onto m.teardown_id_of e kept_deactivate (range_from (last - first) first) activates

unfoldable pub last_of : ℕ → ℕ → ℕ → ℕ
last_of trial_count group_size first = min (first + group_size - 1) (trial_count - 1)

unfoldable pub fold_groups : ℕ → StepIds → ℕ → ℕ → ℕ → ℕ → Coalesced → Result Stop Coalesced
unfolding fold_group last_of
fold_groups zero m trial_count group_size e t c =
    if ltb t trial_count then err out_of_fuel else ok c
fold_groups (suc fuel) m trial_count group_size e t c =
    let last = last_of trial_count group_size t in
    let more = fold_group m e t last c >>= fold_groups fuel m trial_count group_size e (last + 1) in
    if ltb t trial_count then more else ok c

unfoldable pub coalesce_element :
    StepIds
    → MixedRadixEnumerator
    → ℕ
    → BindingStateComputer
    → List ℕ
    → Element
    → Coalesced
    → Result Stop Coalesced
unfolding fold_groups group_size_at effective_level mem
coalesce_element m enumerator trial_count bsc trial_elements e c =
    if mem e.name trial_elements then ok c else (do
      group_size ← group_size_at enumerator (effective_level bsc e.name)
      if leb group_size 1
          then ok c
          else fold_groups trial_count m trial_count group_size e.name 0 c)

unfoldable pub coalesce_elements :
    StepIds
    → MixedRadixEnumerator
    → ℕ
    → BindingStateComputer
    → List ℕ
    → List Element
    → Coalesced
    → Result Stop Coalesced
unfolding coalesce_element
coalesce_elements m enumerator trial_count bsc trial_elements [] c = ok c
coalesce_elements m enumerator trial_count bsc trial_elements (e ∷ elements) c =
    coalesce_element m enumerator trial_count bsc trial_elements e c
    >>= coalesce_elements m enumerator trial_count bsc trial_elements elements

unfoldable pub deps_or_none : Option (List ℕ) → List ℕ
deps_or_none none = []
deps_or_none (some ds) = ds

-- `BTreeMap::remove`.
unfoldable pub erase : ℕ → List (ℕ × List ℕ) → List (ℕ × List ℕ)
erase k [] = []
erase k ((j, v) ∷ m) = if k == j then m else (j, v) ∷ erase k m

-- What is left of the dependencies of a kept step.
unfoldable pub folded_deps : List (ℕ × ℕ) → ℕ → List ℕ → List ℕ → List ℕ
unfolding remapped remove dedupe_in_place
folded_deps remap k deps extras =
    dedupe_in_place (remove k (map (remapped remap) deps ++ map (remapped remap) extras))

unfoldable pub none_removed : List ℕ → Bool
none_removed [] = true
none_removed (x ∷ xs) = false

module _ {F : Type 0} where
  -- The dependencies of the removed steps, for the step that is kept.
  unfoldable pub gather_extra :
      Coalesced → List (AtomicStep F) → List (ℕ × List ℕ) → Result Stop (List (ℕ × List ℕ))
  unfolding mem lookup put deps_or_none
  gather_extra c [] extra = ok extra
  gather_extra c (s ∷ steps) extra =
      (if mem (id s) c.to_remove
        then (do
          kept ← or_panic (lookup (id s) c.remap)
          ok (put kept (deps_or_none (lookup kept extra) ++ depends_on s) extra))
        else ok extra)
      >>= gather_extra c steps

  unfoldable pub absorb :
      List (ℕ × ℕ) → List (AtomicStep F) → List (ℕ × List ℕ) → List (AtomicStep F)
  unfolding folded_deps lookup erase set_deps deps_or_none
  absorb remap [] extra = []
  absorb remap (s ∷ steps) extra =
      set_deps (folded_deps remap (id s) (depends_on s) (deps_or_none (lookup (id s) extra))) s
      ∷ absorb remap steps (erase (id s) extra)

  unfoldable pub fold_steps : Coalesced → List (AtomicStep F) → Result Stop (List (AtomicStep F))
  unfolding gather_extra absorb drop_steps mem
  fold_steps c steps = do
    extra ← gather_extra c steps []
    ok (absorb c.remap (drop_steps (λ k. mem k c.to_remove) steps) extra)

  unfoldable pub apply_coalescing :
      TestPlan
      → StepIds
      → MixedRadixEnumerator
      → ℕ
      → BindingStateComputer
      → List ℕ
      → List (AtomicStep F)
      → Result Stop (List (AtomicStep F))
  unfolding coalesce_elements fold_steps none_removed
  apply_coalescing plan m enumerator trial_count bsc trial_elements steps =
      if trial_count == 0 then ok steps else (do
        c ←
            coalesce_elements m enumerator trial_count bsc trial_elements plan.elements
              (record { remap = []; to_remove = [] })
        if none_removed c.to_remove then ok steps else fold_steps c steps)

-- The live steps.
unfoldable pub current_activate_id :
    ℕ → ℕ → List ℕ → BindingStateComputer → MixedRadixEnumerator → IdMap → Result Stop (Option ℕ)
unfolding group_size_at effective_level mem
current_activate_id e trial trial_elements bsc enumerator deploy_id_of =
    if mem e trial_elements then ok (deploy_id_of e trial) else (do
      group_size ← group_size_at enumerator (effective_level bsc e)
      if group_size == 0
          then err panicked
          else ok (deploy_id_of e (trial / group_size * group_size)))

unfoldable pub current_teardown_id :
    ℕ
    → ℕ
    → List ℕ
    → BindingStateComputer
    → MixedRadixEnumerator
    → ℕ
    → IdMap
    → Result Stop (Option ℕ)
unfolding group_size_at effective_level mem last_of
current_teardown_id e trial trial_elements bsc enumerator trial_count teardown_id_of =
    if mem e trial_elements then ok (teardown_id_of e trial) else (do
      group_size ← group_size_at enumerator (effective_level bsc e)
      if group_size == 0
          then err panicked
          else ok
              (teardown_id_of e (last_of trial_count group_size (trial / group_size * group_size))))
