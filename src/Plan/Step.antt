-- ===== src/Plan/Step.antt =====
-- crates/paramodel-plan/src/step.rs: the steps of an execution plan. A name, a value and a
-- duration is a number that stands for it; the texts, labels and tags of a header, which nothing here
-- reads, are left out. `F` is the type of the floating-point numbers.
use hyperplane_rs.Prelude.{ℕ, Bool, true, false, Option, none, some, List}
use hyperplane_rs.Scheduler.State.{ResourceRequirements}

pub data ShutdownReason : Type 0 where
  normal cancelled timeout upstream_failed planned : ShutdownReason

pub data BarrierKind : Type 0 where
  element_ready element_scope_end trial_batch checkpoint_boundary custom : BarrierKind

pub data TimeoutAction : Type 0 where
  fail_fast skip_dependent wait_forever retry : TimeoutAction

pub data OutputSelector : Type 0 where
  result_parameter : ℕ → OutputSelector
  volume : ℕ → OutputSelector

pub record StepHeader (F : Type 0) : Type 0 where
  pub id : ℕ
  pub depends_on : List ℕ
  pub trial_index : Option ℕ
  pub resource_requirements : ResourceRequirements F

-- The element steps carry the element and the instance number.
pub data AtomicStep (F : Type 0) : Type 0 where
  deploy : StepHeader F → ℕ → ℕ → List (ℕ × ℕ) → Option ℕ → Option ℕ → Option ℕ → AtomicStep F
  teardown : StepHeader F → ℕ → ℕ → Bool → AtomicStep F
  trial_start : StepHeader F → ℕ → List ℕ → AtomicStep F
  trial_end : StepHeader F → ℕ → List ℕ → ShutdownReason → AtomicStep F
  await : StepHeader F → ℕ → ℕ → ℕ → AtomicStep F
  save_output : StepHeader F → ℕ → ℕ → ℕ → OutputSelector → AtomicStep F
  barrier : StepHeader F → ℕ → BarrierKind → Option ℕ → TimeoutAction → AtomicStep F
  checkpoint : StepHeader F → ℕ → AtomicStep F

module _ {F : Type 0} where
  unfoldable pub header : AtomicStep F → StepHeader F
  header (deploy h _ _ _ _ _ _) = h
  header (teardown h _ _ _) = h
  header (trial_start h _ _) = h
  header (trial_end h _ _ _) = h
  header (await h _ _ _) = h
  header (save_output h _ _ _ _) = h
  header (barrier h _ _ _ _) = h
  header (checkpoint h _) = h

  unfoldable pub id : AtomicStep F → ℕ
  unfolding header
  id s = (header s).id

  unfoldable pub depends_on : AtomicStep F → List ℕ
  unfolding header
  depends_on s = (header s).depends_on

  unfoldable pub element : AtomicStep F → Option ℕ
  element (deploy _ e _ _ _ _ _) = some e
  element (teardown _ e _ _) = some e
  element (await _ e _ _) = some e
  element (save_output _ e _ _ _) = some e
  element _ = none

  unfoldable pub instance_number : AtomicStep F → Option ℕ
  instance_number (deploy _ _ n _ _ _ _) = some n
  instance_number (teardown _ _ n _) = some n
  instance_number (await _ _ n _) = some n
  instance_number (save_output _ _ n _ _) = some n
  instance_number _ = none

  unfoldable pub trial_id : AtomicStep F → Option ℕ
  trial_id (trial_start _ t _) = some t
  trial_id (trial_end _ t _ _) = some t
  trial_id (await _ _ _ t) = some t
  trial_id (save_output _ _ _ t _) = some t
  trial_id _ = none

  unfoldable pub is_barrier : AtomicStep F → Bool
  is_barrier (barrier _ _ _ _ _) = true
  is_barrier _ = false

  unfoldable pub is_checkpoint : AtomicStep F → Bool
  is_checkpoint (checkpoint _ _) = true
  is_checkpoint _ = false
