-- ===== src/Compiler/Readiness.antt =====
-- `apply_readiness_gates` of crates/paramodel-compiler/src/compiler.rs.
use hyperplane_rs.Prelude.{
  ℕ, ◌==◌, Bool, true, false, ◌&&◌, Option, none, some, List, [], ◌∷◌, ◌++◌, map, if◌then◌else◌,
}
use hyperplane_rs.Prelude.IdSet.{mem, insert, put}
use hyperplane_rs.Prelude.Results.{Result, ok, ◌>>=◌}
use hyperplane_rs.Scheduler.State.{ResourceRequirements}
use hyperplane_rs.Plan.Elements.{TestPlan}
use hyperplane_rs.Plan.Step.{
  AtomicStep, deploy, teardown, barrier, element_ready, fail_fast, id, depends_on,
}
use hyperplane_rs.Compiler.Edges.{set_deps, dedupe_in_place}
use hyperplane_rs.Compiler.Expansion.{build_header}
use hyperplane_rs.Compiler.Ids.{Stop, StepFormats, or_internal}
use hyperplane_rs.Compiler.Lifeline.{remapped}
use hyperplane_rs.Compiler.Trials.{collect_names}

pub record GatedDeploy : Type 0 where
  pub deploy_id : ℕ
  pub element : ℕ
  pub trial_index : Option ℕ

unfoldable pub same_index : Option ℕ → Option ℕ → Bool
same_index none none = true
same_index (some a) (some b) = a == b
same_index _ _ = false

unfoldable pub gated_elements : TestPlan → List ℕ
unfolding collect_names
gated_elements plan = collect_names (λ e. e.has_health_check) plan.elements

module _ {F : Type 0} where
  unfoldable pub as_gated : List ℕ → AtomicStep F → List GatedDeploy
  unfolding mem
  as_gated gated (deploy h e _ _ _ _ _) =
      if mem e gated
      then record { deploy_id = h.id; element = e; trial_index = h.trial_index } ∷ []
      else []
  as_gated gated _ = []

  unfoldable pub gated_deploys : List ℕ → List (AtomicStep F) → List GatedDeploy
  unfolding as_gated
  gated_deploys gated [] = []
  gated_deploys gated (s ∷ steps) = as_gated gated s ++ gated_deploys gated steps

  unfoldable pub exempt_of : GatedDeploy → AtomicStep F → List ℕ → List ℕ
  unfolding same_index insert
  exempt_of g (teardown h e _ _) exempt =
      if (e == g.element) && same_index h.trial_index g.trial_index
      then insert h.id exempt
      else exempt
  exempt_of g _ exempt = exempt

  unfoldable pub exempt_from : GatedDeploy → List (AtomicStep F) → List ℕ → List ℕ
  unfolding exempt_of
  exempt_from g [] exempt = exempt
  exempt_from g (s ∷ steps) exempt = exempt_from g steps (exempt_of g s exempt)

-- What the loop over the gated deploys builds.
pub record Gating (F : Type 0) : Type 0 where
  pub gate_ids : List (ℕ × ℕ)
  pub gate_steps : List (AtomicStep F)
  pub exemptions : List ℕ

module _ {F : Type 0} (none_required : ResourceRequirements F) (formats : StepFormats) where
  unfoldable pub gate_deploys :
      List (AtomicStep F) → List GatedDeploy → Gating F → Result Stop (Gating F)
  unfolding exempt_from put
  gate_deploys steps [] g = ok g
  gate_deploys steps (d ∷ deploys) g = do
    gate_id ← or_internal (formats.readiness d.element d.deploy_id)
    barrier_id ← or_internal (formats.barrier d.deploy_id)
    gate_deploys steps deploys (record {
      gate_ids = put d.deploy_id gate_id g.gate_ids;
      gate_steps =
          g.gate_steps
          ++ barrier (build_header none_required gate_id (d.deploy_id ∷ []) d.trial_index)
              barrier_id element_ready none fail_fast
            ∷ [];
      exemptions = exempt_from d steps g.exemptions;
    })

module _ {F : Type 0} where
  -- An exempt step keeps its dependencies.
  unfoldable pub gate_dependents : List (ℕ × ℕ) → List ℕ → List (AtomicStep F) → List (AtomicStep F)
  unfolding mem remapped dedupe_in_place set_deps
  gate_dependents gate_ids exempt [] = []
  gate_dependents gate_ids exempt (s ∷ steps) =
      let deps = depends_on s in
      set_deps (dedupe_in_place (if mem (id s) exempt then deps else map (remapped gate_ids) deps))
        s
      ∷ gate_dependents gate_ids exempt steps

module _ {F : Type 0} (none_required : ResourceRequirements F) (formats : StepFormats) where
  unfoldable pub gate_all :
      List GatedDeploy → List (AtomicStep F) → Result Stop (List (AtomicStep F))
  unfolding gate_deploys gate_dependents
  gate_all [] steps = ok steps
  gate_all (d ∷ deploys) steps = do
    g ←
        gate_deploys none_required formats steps (d ∷ deploys)
          (record { gate_ids = []; gate_steps = []; exemptions = [] })
    ok (gate_dependents g.gate_ids g.exemptions steps ++ g.gate_steps)

  unfoldable pub apply_readiness_gates :
      TestPlan → List (AtomicStep F) → Result Stop (List (AtomicStep F))
  unfolding gated_elements gated_deploys gate_all
  apply_readiness_gates plan steps = gate_all (gated_deploys (gated_elements plan) steps) steps
