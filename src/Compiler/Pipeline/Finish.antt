-- ===== src/Compiler/Pipeline/Finish.antt =====
-- A compiled plan under the scheduler: the compiler, the execution graph and the scheduler together.
use hyperplane_rs.Prelude.{ℕ, ◌<◌, ◌≡◌, true, false, Option, some, all, ltb, length, map}
use hyperplane_rs.Prelude.Results.{ok}
use hyperplane_rs.Prelude.IdSet.{mem}
use hyperplane_rs.Plan.Elements.{ValueKind, TestPlan}
use hyperplane_rs.Plan.Graph.{ids}
use hyperplane_rs.Scheduler.State.{Floats, ResourceRequirements, ResourceSnapshot, InnerState}
use hyperplane_rs.Scheduler.Operations.{max_capacity, initialise, is_complete}
use hyperplane_rs.Scheduler.Validated.{plan_step}
use hyperplane_rs.Scheduler.Drive.{drive}
use hyperplane_rs.Scheduler.Drive.Finish.{step_fits, dag_completes}
use hyperplane_rs.Compiler.Configuration.{Resolver}
use hyperplane_rs.Compiler.Ids.{StepFormats}
use hyperplane_rs.Compiler.Pipeline.{ExecutionPlan, compile_impl}
use hyperplane_rs.Compiler.Pipeline.Accepted.{compile_impl-ok}

module _ (floats : Floats) (none_required : ResourceRequirements (floats.F))
    (formats : StepFormats) where
  open floats use {F}

  -- The graph of a compiled plan runs to its end: a caller that, under Fifo and from `initialise` on,
  -- asks for up to `max_count` steps (at least one, and no more than a vector has room for) and
  -- reports every running step completed, in turns and with the same snapshot each time, into which
  -- each step of the graph alone fits, needs at most as many turns as the graph has steps until the
  -- scheduler is complete, and then every step of the graph is completed. No call panics.
  pub compiled_plan_completes :
      (kind_of : ℕ → ValueKind) (fingerprint : ℕ → ℕ) (p : TestPlan) (r : Option Resolver)
      (q : ExecutionPlan F) (max_count : ℕ) (free : ResourceSnapshot F)
      → compile_impl none_required formats kind_of fingerprint p r ≡ ok q
      → ltb max_capacity max_count ≡ false
      → 0 < max_count
      → all (step_fits floats free) (map plan_step q.execution_graph) ≡ true
      → (after : InnerState F) × (drive floats max_count free
            (length (ids q.execution_graph))
            (initialise (map plan_step q.execution_graph))
          ≡ some after)
        × (is_complete after ≡ true)
        × ((s : ℕ) → mem s (ids q.execution_graph) ≡ true → mem s after.completed ≡ true)
  compiled_plan_completes kind_of fingerprint p r q max_count free compiled room some_room fit =
      let (valid, supported, dag, trials, count) =
        compile_impl-ok none_required formats kind_of fingerprint p r q compiled in
      dag_completes floats free max_count room some_room q.execution_graph dag fit
