-- ===== src/Scheduler/State.antt =====
-- The types of scheduler.rs, and the part of an execution plan that the scheduler reads. `F` is
-- the type of the floating-point numbers.
use Prim.Native.Nat.{Ordering, compare}
use hyperplane_rs.Prelude.{ℕ, ◌+◌, ◌-◌, Bool, Option, some, List, [], ltb, if◌then◌else◌}
use hyperplane_rs.Prelude.Arith.{u32_max}

pub data SchedulerPriority : Type 0 where
  low normal high critical : SchedulerPriority

-- The derived order.
abbrev pub rank : SchedulerPriority → ℕ
rank low = 0
rank normal = 1
rank high = 2
rank critical = 3

pub data SchedulingPolicy : Type 0 where
  fifo priority fair resource_aware : SchedulingPolicy

pub record SchedulerState : Type 0 where
  pub pending_count : ℕ
  pub running_count : ℕ
  pub completed_count : ℕ
  pub failed_count : ℕ
  pub skipped_count : ℕ
  pub ready_count : ℕ

pub record SchedulerStatistics : Type 0 where
  pub total_dispatched : ℕ
  pub total_completed : ℕ
  pub total_failed : ℕ
  pub total_skipped : ℕ

pub record ResourceRequirements (F : Type 0) : Type 0 where
  pub peak_cpu_cores : F
  pub peak_memory_mb : ℕ
  pub peak_storage_gb : ℕ
  pub peak_network_gbps : F
  pub custom : List (ℕ × ℕ)

pub record ResourceSnapshot (F : Type 0) : Type 0 where
  pub cpu_cores_free : F
  pub memory_mb_free : ℕ
  pub storage_gb_free : ℕ
  pub network_gbps_free : F
  pub custom_free : List (ℕ × ℕ)

-- `id`, `depends_on`, `trial_id` and `header().resource_requirements` of a step.
pub record PlanStep (F : Type 0) : Type 0 where
  pub id : ℕ
  pub depends_on : List ℕ
  pub trial_id : Option ℕ
  pub resource_requirements : ResourceRequirements F

pub record InnerState (F : Type 0) : Type 0 where
  pub pending : List ℕ
  pub ready : List ℕ
  pub running : List ℕ
  pub completed : List ℕ
  pub failed : List ℕ
  pub skipped : List ℕ
  pub deps : List (ℕ × List ℕ)
  pub dependents : List (ℕ × List ℕ)
  pub priorities : List (ℕ × SchedulerPriority)
  pub requirements : List (ℕ × ResourceRequirements F)
  pub trial_ids : List (ℕ × Option ℕ)
  pub trial_order : List (Option ℕ)
  pub fair_cursor : ℕ
  pub stats : SchedulerStatistics

unfoldable pub default : {F : Type 0} → InnerState F
default = record {
  pending = [];
  ready = [];
  running = [];
  completed = [];
  failed = [];
  skipped = [];
  deps = [];
  dependents = [];
  priorities = [];
  requirements = [];
  trial_ids = [];
  trial_order = [];
  fair_cursor = 0;
  stats = record { total_dispatched = 0; total_completed = 0; total_failed = 0; total_skipped = 0 };
}

-- `saturating_add` on `u32`.
abbrev pub saturating_add : ℕ → ℕ → ℕ
saturating_add a b = if ltb u32_max (a + b) then u32_max else a + b

-- The operations on `f64` that the scheduler uses: `>`, `(a - b).max(0.0)`, `partial_cmp`, `0.0`.
pub record Floats : Type 1 where
  pub F : Type 0
  pub gt : F → F → Bool
  pub sub_to_zero : F → F → F
  pub partial_cmp : F → F → Option Ordering
  pub zero_f : F

-- Floats that are natural numbers, for the examples.
abbrev pub whole_floats : Floats
whole_floats = record {
  F = ℕ;
  gt = λ a b. ltb b a;
  sub_to_zero = λ a b. a - b;
  partial_cmp = λ a b. some (compare a b);
  zero_f = 0;
}
