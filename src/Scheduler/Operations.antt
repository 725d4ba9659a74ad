-- ===== src/Scheduler/Operations.antt =====
-- The methods of `DefaultScheduler`.
use mathlib.Core.List.{reverse}
use hyperplane_rs.Prelude.{
  ℕ, zero, suc, ◌+◌, Bool, true, false, not, ◌&&◌, ◌||◌, Option, none, some, List, [], ◌∷◌, ◌++◌,
  length, any, all, ltb, leb, if◌then◌else◌, ◌>>=◌,
}
use hyperplane_rs.Prelude.Arith.{u32_clamp}
use hyperplane_rs.Prelude.IdSet.{mem, insert, remove, union, lookup, put}
use hyperplane_rs.Scheduler.State.{
  Floats, ResourceSnapshot, SchedulerPriority, SchedulingPolicy, SchedulerState,
  SchedulerStatistics, PlanStep, InnerState, default, saturating_add,
}
use hyperplane_rs.Scheduler.Resources.{fits, deduct}
use hyperplane_rs.Scheduler.Policy.{same_trial, priority_of, requirements_of, order_ids}

-- `get(k).cloned().unwrap_or_default()` of a map into lists.
unfoldable pub list_at : ℕ → List (ℕ × List ℕ) → List ℕ
list_at k m = elim (lookup k m) [ none ↦ [] | some l ↦ l ]

-- The inner loop of `initialise`: the step is pushed to the dependents of each dependency.
unfoldable pub add_dependents : ℕ → List ℕ → List (ℕ × List ℕ) → List (ℕ × List ℕ)
unfolding list_at
add_dependents id [] m = m
add_dependents id (d ∷ ds) m = add_dependents id ds (put d (list_at d m ++ id ∷ []) m)

abbrev pub is_nil : List ℕ → Bool
is_nil [] = true
is_nil (_ ∷ _) = false

-- A statistic goes up by one if the step was not in the set before.
abbrev pub count_new : ℕ → List ℕ → ℕ → ℕ
count_new step s total = if mem step s then total else saturating_add total 1

-- The fuel of the loop of `mark_failed`: a step leaves `pending` or `ready` when its dependents are pushed.
unfoldable pub weight : List (ℕ × List ℕ) → List ℕ → ℕ
unfolding list_at
weight dependents [] = 0
weight dependents (x ∷ xs) = length (list_at x dependents) + weight dependents xs

module _ {F : Type 0} where
  unfoldable pub register : PlanStep F → InnerState F → InnerState F
  unfolding add_dependents
  register step inner = record inner {
    pending = insert step.id inner.pending;
    deps = put step.id step.depends_on inner.deps;
    requirements = put step.id step.resource_requirements inner.requirements;
    trial_ids = put step.id step.trial_id inner.trial_ids;
    trial_order =
        if any (same_trial step.trial_id) inner.trial_order
        then inner.trial_order
        else inner.trial_order ++ step.trial_id ∷ [];
    dependents = add_dependents step.id step.depends_on inner.dependents;
  }

  unfoldable pub register_all : List (PlanStep F) → InnerState F → InnerState F
  unfolding register
  register_all [] inner = inner
  register_all (step ∷ steps) inner = register_all steps (register step inner)

  -- The second loop: the steps with no dependency are ready.
  unfoldable pub roots : List (PlanStep F) → List ℕ → List ℕ
  roots [] ready = ready
  roots (step ∷ steps) ready =
      roots steps (if is_nil step.depends_on then insert step.id ready else ready)

  unfoldable pub initialise : List (PlanStep F) → InnerState F
  unfolding register_all roots default
  initialise steps =
      let inner = register_all steps default in record inner { ready = roots steps inner.ready }

  -- The loop of `promote_ready_for`; `terminal_now` is fixed before it.
  unfoldable pub promote : List ℕ → List ℕ → InnerState F → InnerState F
  unfolding list_at
  promote terminal_now [] inner = inner
  promote terminal_now (d ∷ dependents) inner = promote terminal_now dependents (
      if mem d inner.pending && all (λ x. mem x terminal_now) (list_at d inner.deps)
      then record inner { pending = remove d inner.pending; ready = insert d inner.ready }
      else inner)

  unfoldable pub promote_ready_for : ℕ → InnerState F → InnerState F
  unfolding promote
  promote_ready_for settled inner =
      promote (union inner.completed inner.skipped) (list_at settled inner.dependents) inner

  -- The three `remove` calls that the `mark` methods begin with.
  unfoldable pub clear : ℕ → InnerState F → InnerState F
  clear step inner = record inner {
    running = remove step inner.running;
    ready = remove step inner.ready;
    pending = remove step inner.pending;
  }

  -- `mark_started` does nothing.
  unfoldable pub mark_started : ℕ → InnerState F → InnerState F
  mark_started step inner = inner

  unfoldable pub mark_completed : ℕ → InnerState F → InnerState F
  unfolding promote_ready_for clear
  mark_completed step inner = promote_ready_for step (record (clear step inner) {
    completed = insert step inner.completed;
    stats = record (inner.stats) {
      total_completed = count_new step inner.completed inner.stats.total_completed;
    };
  })

  unfoldable pub mark_skipped : ℕ → InnerState F → InnerState F
  unfolding promote_ready_for clear
  mark_skipped step inner = promote_ready_for step (record (clear step inner) {
    skipped = insert step inner.skipped;
    stats = record (inner.stats) {
      total_skipped = count_new step inner.skipped inner.stats.total_skipped;
    };
  })

  -- `pending.remove(&c) || ready.remove(&c)`: `ready` is left alone where `pending` had the step.
  unfoldable pub skip_one : ℕ → InnerState F → InnerState F
  skip_one c inner = record inner {
    pending = remove c inner.pending;
    ready = if mem c inner.pending then inner.ready else remove c inner.ready;
    skipped = insert c inner.skipped;
    stats = record (inner.stats) { total_skipped = saturating_add inner.stats.total_skipped 1 };
  }

  -- The `while let` loop, with the stack's top first. `none` is the end of the fuel.
  unfoldable pub cascade : ℕ → List ℕ → InnerState F → List ℕ → Option (InnerState F × List ℕ)
  unfolding skip_one list_at
  cascade fuel [] inner cascaded = some (inner, cascaded)
  cascade zero (c ∷ stack) inner cascaded = none
  cascade (suc fuel) (c ∷ stack) inner cascaded = elim (mem c inner.pending || mem c inner.ready) [
    | true ↦
        cascade fuel (reverse (list_at c inner.dependents) ++ stack) (skip_one c inner)
          (cascaded ++ c ∷ [])
    | false ↦ cascade fuel stack inner cascaded
  ]

  unfoldable pub cascade_fuel : List ℕ → InnerState F → ℕ
  unfolding weight
  cascade_fuel stack inner =
      length stack + weight inner.dependents inner.pending + weight inner.dependents inner.ready

  -- The state at the head of the loop of `mark_failed`.
  unfoldable pub failing : ℕ → InnerState F → InnerState F
  unfolding clear
  failing step inner = record (clear step inner) {
    failed = insert step inner.failed;
    stats = record (inner.stats) {
      total_failed = count_new step inner.failed inner.stats.total_failed;
    };
  }

  unfoldable pub mark_failed : ℕ → InnerState F → Option (InnerState F × List ℕ)
  unfolding failing cascade cascade_fuel list_at
  mark_failed step inner =
      let stack = reverse (list_at step inner.dependents) in
      cascade (cascade_fuel stack (failing step inner)) stack (failing step inner) []

  unfoldable pub set_priority : ℕ → SchedulerPriority → InnerState F → InnerState F
  set_priority step p inner = record inner { priorities = put step p inner.priorities }

  unfoldable pub get_priority : ℕ → InnerState F → SchedulerPriority
  unfolding priority_of
  get_priority step inner = priority_of inner.priorities step

  unfoldable pub is_complete : InnerState F → Bool
  is_complete inner = is_nil inner.pending && is_nil inner.ready && is_nil inner.running

  unfoldable pub state : InnerState F → SchedulerState
  state inner = record {
    pending_count = u32_clamp (length inner.pending);
    running_count = u32_clamp (length inner.running);
    completed_count = u32_clamp (length inner.completed);
    failed_count = u32_clamp (length inner.failed);
    skipped_count = u32_clamp (length inner.skipped);
    ready_count = u32_clamp (length inner.ready);
  }

-- The longest `Vec<StepId>`: `isize::MAX` bytes, 24 for each id.
abbrev pub max_capacity : ℕ
max_capacity = 384307168202282325

module _ (floats : Floats) where
  open floats use {F}

  -- What the loop of `next_steps` changes.
  pub record Picking : Type 0 where
    pub picked : List ℕ
    pub remaining : ResourceSnapshot F
    pub inner : InnerState F

  unfoldable pub dispatch : ℕ → InnerState F → InnerState F
  dispatch id inner = record inner {
    ready = remove id inner.ready;
    pending = remove id inner.pending;
    running = insert id inner.running;
  }

  unfoldable pub pick : ℕ → List ℕ → Picking → Picking
  unfolding dispatch
  pick max_count [] p = p
  pick max_count (id ∷ ids) p =
      let req = requirements_of floats p.inner.requirements id in
      let skip = pick max_count ids p in
      let take = pick max_count ids (record {
        picked = p.picked ++ id ∷ [];
        remaining = deduct floats p.remaining req;
        inner = dispatch id p.inner;
      }) in
      if leb max_count (length p.picked)
      then p
      else if not (fits floats req p.remaining)
      then skip
      else take

  -- The variables before the loop of `next_steps`, and the statistics after it.
  abbrev pub start_picking : ResourceSnapshot F → ℕ → InnerState F → Picking
  start_picking resources cursor inner = record {
    picked = [];
    remaining = resources;
    inner = record inner { fair_cursor = cursor };
  }

  abbrev pub dispatched_stats : ℕ → SchedulerStatistics → SchedulerStatistics
  dispatched_stats n stats = record stats {
    total_dispatched = saturating_add stats.total_dispatched (u32_clamp n);
  }

  -- `none` is a panic, that of `Vec::with_capacity(max_count)` included.
  unfoldable pub next_steps :
      SchedulingPolicy → ℕ → ResourceSnapshot F → InnerState F → Option (InnerState F × List ℕ)
  unfolding pick order_ids
  next_steps policy max_count resources inner = if ltb max_capacity max_count then none else (do
    (ids, cursor) ← order_ids floats policy inner max_count inner.ready
    let p = pick max_count ids (start_picking resources cursor inner)
    some (record (p.inner) { stats = dispatched_stats (length p.picked) p.inner.stats }, p.picked))
