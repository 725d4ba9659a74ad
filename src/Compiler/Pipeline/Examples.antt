-- ===== src/Compiler/Pipeline/Examples.antt =====
-- Compilations of small plans, after the tests of crates/paramodel-compiler/src/compiler.rs.
use hyperplane_rs.Prelude.{
  ℕ, ◌+◌, ◌*◌, ◌≡◌, refl, true, false, none, some, Option, List, [], ◌∷◌, map, length, arith,
}
use hyperplane_rs.Prelude.Arith.{u32_clamp}
use hyperplane_rs.Prelude.Results.{Result, ok, err}
use hyperplane_rs.Prelude.IdSet.{mem, insert, remove, union, lookup, put}
use hyperplane_rs.Scheduler.State.{whole_floats, ResourceRequirements, InnerState}
use hyperplane_rs.Scheduler.Samples.{free}
use hyperplane_rs.Scheduler.Resources.{fits}
use hyperplane_rs.Scheduler.Operations.{initialise, is_complete}
use hyperplane_rs.Scheduler.Validated.{plan_step}
use hyperplane_rs.Scheduler.Drive.{drive}
use hyperplane_rs.Plan.Step.{StepHeader, deploy, teardown, checkpoint, id, depends_on, is_barrier}
use hyperplane_rs.Plan.Graph.{ids, validate}
use hyperplane_rs.Plan.Graph.Dag.{IsDag}
use hyperplane_rs.Plan.Validation
use hyperplane_rs.Plan.Validation.{check_elements, check_policies, check_axes, check_bindings}
use hyperplane_rs.Plan.Validation.WellFormed.{is_well_formed}
use hyperplane_rs.Plan.Elements.{ValueKind, integer, shared, TestPlan, sequential}
use hyperplane_rs.Plan.Elements.Samples.{plain, axis_on, plan_of}
use hyperplane_rs.Compiler.Binding.{compute, own_level}
use hyperplane_rs.Compiler.Trials.{is_forced, identify_trial_elements}
use hyperplane_rs.Compiler.Diagnostics.{gather_unsupported}
use hyperplane_rs.Compiler.Diagnostics.Supported.{is_supported_plan}
use hyperplane_rs.Compiler.Expansion.{enumerator_of, build_header}
use hyperplane_rs.Compiler.Instances.{study, build_trivial_instance_graph}
use hyperplane_rs.Compiler.Ids.{Stop, StepFormats, all_ids, range_from}
use hyperplane_rs.Compiler.Pipeline.{
  ExecutionPlan, has_resolver, count_barriers, checked_graph, new_graph, instances_of, assemble,
  build_steps, compile_checked, compile_unless, compile_impl,
}
use hyperplane_rs.Compiler.Pipeline.Accepted.{compile_impl-ok}
use hyperplane_rs.Compiler.Pipeline.Finish.{compiled_plan_completes}

-- Up to nine elements and trials.
abbrev pub formats : StepFormats
formats = record {
  activate = λ e t. some (1000 + e * 10 + t);
  deactivate = λ e t. some (2000 + e * 10 + t);
  activate_dedicated = λ y x t. some (10000 + y * 100 + x * 10 + t);
  deactivate_dedicated = λ y x t. some (20000 + y * 100 + x * 10 + t);
  notify_trial_start = λ t. some (3000 + t);
  notify_trial_end = λ t. some (4000 + t);
  readiness = λ e d. some (100000 + d);
  barrier = λ d. some (200000 + d);
  start_id = 1;
  end_id = 2;
}

abbrev pub nothing_required : ResourceRequirements ℕ
nothing_required = record {
  peak_cpu_cores = 0;
  peak_memory_mb = 0;
  peak_storage_gb = 0;
  peak_network_gbps = 0;
  custom = [];
}

abbrev edges : Result Stop (ExecutionPlan ℕ) → List (ℕ × List ℕ)
edges (ok p) = map (λ s. (id s, depends_on s)) p.execution_graph
edges (err e) = []

abbrev one_service : TestPlan
one_service = plan_of (plain 1 [] ∷ []) []

-- A database for the whole run and a client with an axis.
abbrev pub two_trials : TestPlan
two_trials =
    plan_of (plain 1 [] ∷ plain 2 (record { target = 1; relationship = shared } ∷ []) ∷ [])
      (axis_on 2 1 ∷ [])

abbrev kind_of : ℕ → ValueKind
kind_of v = integer

abbrev hash_of : ℕ → ℕ
hash_of v = v

unfoldable pub compiler : Unit {0}
unfolding Validation.validate check_elements check_policies check_axes check_bindings compile_impl
    compile_unless compile_checked assemble instances_of build_steps gather_unsupported compute
    identify_trial_elements all_ids enumerator_of range_from new_graph checked_graph validate
    build_trivial_instance_graph count_barriers insert remove union lookup put mem id depends_on
    is_barrier own_level is_forced
compiler = tt

one_service_chain :
    edges (compile_impl nothing_required formats kind_of hash_of one_service none)
    ≡ (1, []) ∷ (1010, 1 ∷ []) ∷ (2010, 1010 ∷ []) ∷ (2, 2010 ∷ []) ∷ []
unfolding compiler
one_service_chain = refl

-- The database is coalesced: it is activated once, and torn down behind both trials.
two_trials_compiled :
    edges (compile_impl nothing_required formats kind_of hash_of two_trials none)
    ≡ (1, [])
      ∷ (1010, 1 ∷ [])
      ∷ (1020, 3000 ∷ [])
      ∷ (2020, 1020 ∷ [])
      ∷ (2011, 4000 ∷ 4001 ∷ [])
      ∷ (1021, 3001 ∷ [])
      ∷ (2021, 1021 ∷ [])
      ∷ (3000, 1010 ∷ [])
      ∷ (4000, 2020 ∷ [])
      ∷ (3001, 1010 ∷ [])
      ∷ (4001, 2021 ∷ [])
      ∷ (2, 2011 ∷ [])
      ∷ []
unfolding compiler
two_trials_compiled = refl

abbrev header : ℕ → List ℕ → Option ℕ → StepHeader ℕ
header = build_header nothing_required

abbrev service_plan : ExecutionPlan ℕ
service_plan = record {
  source_plan_id = 5;
  execution_graph =
      checkpoint (header 1 [] none) 1
      ∷ deploy (header 1010 (1 ∷ []) (some 0)) 1 0 ((1, 7) ∷ []) none none none
      ∷ teardown (header 2010 (1010 ∷ []) (some 0)) 1 0 false
      ∷ checkpoint (header 2 (2010 ∷ []) none) 2
      ∷ [];
  element_instance_graph = record {
    instances =
        record {
          element = 1;
          instance_number = 0;
          bindings = (1, 7) ∷ [];
          group_level = 0;
          trial_code = b'0' ∷ b'x' ∷ [];
          scope = study;
        }
        ∷ [];
    edges = [];
  };
  trial_ordering = sequential;
  trial_elements = [];
  policies = one_service.policies;
  trial_count = 1;
  step_count = 4;
  barrier_count = 0;
  element_instance_count = 1;
}

service_compiled :
    compile_impl nothing_required formats kind_of hash_of one_service none ≡ ok service_plan
unfolding compiler
service_compiled = refl

compile_impl-ok_example :
    (is_well_formed kind_of hash_of one_service ≡ true)
    × (is_supported_plan one_service (has_resolver none) ≡ true)
    × IsDag service_plan.execution_graph
    × (service_plan.trial_elements ≡ identify_trial_elements one_service (compute one_service))
    × (service_plan.step_count ≡ u32_clamp (length service_plan.execution_graph))
compile_impl-ok_example =
    compile_impl-ok nothing_required formats kind_of hash_of one_service none service_plan
      service_compiled

compiled_plan_completes_example :
    (after : InnerState ℕ) × (drive whole_floats 2 free 4
        (initialise (map plan_step service_plan.execution_graph))
      ≡ some after)
    × (is_complete after ≡ true)
    × ((s : ℕ) → mem s (ids service_plan.execution_graph) ≡ true → mem s after.completed ≡ true)
unfolding plan_step fits hyperplane_rs.Plan.Step.header
compiled_plan_completes_example =
    compiled_plan_completes whole_floats nothing_required formats kind_of hash_of one_service none
      service_plan 2 free service_compiled refl (omega arith) refl
