-- ===== src/Scheduler/Policy.antt =====
-- The order in which `next_steps` looks at the ready steps, for each policy.
use Prim.Native.Nat.{Ordering, compare}
use mathlib.Core.List.{reverse}
use hyperplane_rs.Prelude.{
  ℕ, zero, suc, ◌+◌, ◌*◌, ◌%◌, Bool, true, false, ◌&&◌, Option, none, some, List, [], ◌∷◌, ◌++◌,
  length, any, get_elem?, ltb, ◌==◌, if◌then◌else◌, ◌>>=◌,
}
use hyperplane_rs.Prelude.Arith.{u64_mod}
use hyperplane_rs.Prelude.IdSet.{lookup}
use hyperplane_rs.Scheduler.State.{
  Floats, ResourceRequirements, SchedulerPriority, normal, rank, SchedulingPolicy, fifo, priority,
  fair, resource_aware, InnerState,
}
use hyperplane_rs.Scheduler.Resources.{no_requirements}

-- `sort_by`, which is stable.
module _ (cmp : ℕ → ℕ → Ordering) where
  unfoldable pub insert_by : ℕ → List ℕ → List ℕ
  insert_by x [] = x ∷ []
  insert_by x (y ∷ ys) = elim (cmp x y) [ Ordering.gt ↦ y ∷ insert_by x ys | _ ↦ x ∷ y ∷ ys ]

  unfoldable pub sort_by : List ℕ → List ℕ
  unfolding insert_by
  sort_by [] = []
  sort_by (x ∷ xs) = insert_by x (sort_by xs)

abbrev pub then_with : Ordering → Ordering → Ordering
then_with Ordering.eq o = o
then_with o _ = o

-- `priorities.get(a).copied().unwrap_or_default()`.
unfoldable pub priority_of : List (ℕ × SchedulerPriority) → ℕ → SchedulerPriority
priority_of m a = elim (lookup a m) [ none ↦ normal | some p ↦ p ]

unfoldable pub by_priority : List (ℕ × SchedulerPriority) → ℕ → ℕ → Ordering
unfolding priority_of
by_priority m a b =
    then_with (compare (rank (priority_of m b)) (rank (priority_of m a))) (compare a b)

module _ (floats : Floats) where
  open floats use {F, partial_cmp}

  unfoldable pub requirements_of : List (ℕ × ResourceRequirements F) → ℕ → ResourceRequirements F
  unfolding no_requirements
  requirements_of m a = elim (lookup a m) [ none ↦ no_requirements floats | some r ↦ r ]

  unfoldable pub is_nan : F → Bool
  is_nan x = elim (partial_cmp x x) [ none ↦ true | some o ↦ false ]

  unfoldable pub by_ask : List (ℕ × ResourceRequirements F) → ℕ → ℕ → Ordering
  unfolding requirements_of
  by_ask m a b =
      let ra = requirements_of m a in
      let rb = requirements_of m b in
      let cpu : Ordering = elim (partial_cmp rb.peak_cpu_cores ra.peak_cpu_cores) [
        | none ↦ Ordering.eq
        | some o ↦ o
      ] in
      then_with cpu (then_with (compare rb.peak_memory_mb ra.peak_memory_mb) (compare a b))

-- Equality of `Option<TrialId>`.
abbrev pub same_trial : Option ℕ → Option ℕ → Bool
same_trial none none = true
same_trial (some a) (some b) = a == b
same_trial _ _ = false

-- `trial_ids.get(sid).cloned().unwrap_or(None)`.
unfoldable pub trial_of : List (ℕ × Option ℕ) → ℕ → Option ℕ
trial_of m sid = elim (lookup sid m) [ none ↦ none | some t ↦ t ]

abbrev pub Groups : Type 0
Groups = List (Option ℕ × List ℕ)

-- `groups.entry(tid).or_default().push(sid)`.
unfoldable pub push_group : Option ℕ → ℕ → Groups → Groups
push_group tid sid [] = (tid, sid ∷ []) ∷ []
push_group tid sid ((t, grp) ∷ groups) =
    if same_trial t tid then (t, grp ++ sid ∷ []) ∷ groups else (t, grp) ∷ push_group tid sid groups

unfoldable pub group_ids : List (ℕ × Option ℕ) → List ℕ → Groups → Groups
unfolding push_group trial_of
group_ids trial_ids [] groups = groups
group_ids trial_ids (sid ∷ ids) groups =
    group_ids trial_ids ids (push_group (trial_of trial_ids sid) sid groups)

-- `grp.sort(); grp.reverse()` on every group.
unfoldable pub sort_groups : Groups → Groups
unfolding sort_by
sort_groups [] = []
sort_groups ((t, grp) ∷ groups) = (t, reverse (sort_by compare grp)) ∷ sort_groups groups

-- `Vec::pop`.
unfoldable pub pop : List ℕ → Option (ℕ × List ℕ)
pop [] = none
pop (x ∷ []) = some (x, [])
pop (x ∷ y ∷ ys) = do (last, rest) ← pop (y ∷ ys); some (last, x ∷ rest)

-- `groups.get_mut(key)` and `grp.pop()`: the step, and the groups without it.
unfoldable pub pop_group : Option ℕ → Groups → Option (ℕ × Groups)
unfolding pop
pop_group key [] = none
pop_group key ((t, grp) ∷ groups) =
    if same_trial t key
    then (do (sid, rest) ← pop grp; some (sid, (t, rest) ∷ groups))
    else (do (sid, rest) ← pop_group key groups; some (sid, (t, grp) ∷ rest))

-- The `while` loop over the trials in rotation. `none` is a panic (an index into an empty
-- `trial_order`) or the end of the fuel; `total` is `ids.len()` and `n` the length of `order`, or 1.
unfoldable pub rotate : ℕ → List (Option ℕ) → ℕ → ℕ → ℕ → Groups → List ℕ → ℕ → Option (List ℕ)
unfolding pop_group
rotate zero order n total cursor groups rotated empty_rounds = none
rotate (suc fuel) order n total cursor groups rotated empty_rounds =
    let next = (cursor + 1) % n in
    elim (ltb (length rotated) total && ltb empty_rounds n) [
      | true ↦ elim (get_elem? order cursor) [
        | none ↦ none
        | some key ↦ elim (pop_group key groups) [
          | none ↦ rotate fuel order n total next groups rotated (empty_rounds + 1)
          | some (sid, groups') ↦ rotate fuel order n total next groups' (rotated ++ sid ∷ []) 0
        ]
      ]
      | false ↦ some rotated
    ]

-- Each round takes a step or is empty; between two steps at most `n` rounds are empty.
abbrev pub rotation_fuel : ℕ → ℕ → ℕ
rotation_fuel n total = (total + 1) * (n + 1) + 1

unfoldable pub at_least_one : ℕ → ℕ
at_least_one n = if n == 0 then 1 else n

-- The ids in the order of the policy, and the cursor that `Fair` leaves. A `usize` has 64 bits; its sum
-- wraps, as in a release build.
module _ (floats : Floats) where
  open floats use {F}

  unfoldable pub rotated_ids : InnerState F → ℕ → List ℕ → Option (List ℕ)
  unfolding group_ids sort_groups rotate
  rotated_ids inner n ids =
      rotate (rotation_fuel n (length ids)) inner.trial_order n (length ids) (inner.fair_cursor % n)
        (sort_groups (group_ids inner.trial_ids ids [])) [] 0

  unfoldable pub fair_ids : InnerState F → ℕ → List ℕ → Option (List ℕ × ℕ)
  unfolding rotated_ids at_least_one
  fair_ids inner max_count ids =
      let n = at_least_one (length inner.trial_order) in
      do
        rotated ← rotated_ids inner n ids
        some (rotated, (inner.fair_cursor % n + max_count) % u64_mod % n)

  -- Where `sort_by` of ResourceAware has no total order: it may panic, or leave any order.
  unfoldable pub is_unordered : InnerState F → List ℕ → Bool
  unfolding requirements_of is_nan
  is_unordered inner ids =
      ltb 1 (length ids)
      && any (λ a. is_nan floats (requirements_of floats inner.requirements a).peak_cpu_cores) ids

  -- `none` is a panic, or an order that the standard library does not specify.
  unfoldable pub order_ids : SchedulingPolicy → InnerState F → ℕ → List ℕ → Option (List ℕ × ℕ)
  unfolding by_priority by_ask sort_by fair_ids is_unordered
  order_ids fifo inner max_count ids = some (ids, inner.fair_cursor)
  order_ids priority inner max_count ids =
      some (sort_by (by_priority inner.priorities) ids, inner.fair_cursor)
  order_ids fair inner max_count ids = fair_ids inner max_count ids
  order_ids resource_aware inner max_count ids =
      let sorted = some (sort_by (by_ask floats inner.requirements) ids, inner.fair_cursor) in
      if is_unordered inner ids then none else sorted
