-- ===== src/Compiler/Ids.antt =====
-- The step ids of crates/paramodel-compiler/src/compiler.rs, and the two maps of them that its passes
-- share. The text that `format!` gives and `StepId::new` validates is a parameter: a function for
-- each format, from the number of the element (or of the id) and the trial to the id, which stands in
-- for the text; `none` where `StepId::new` rejects the text as too long.
use hyperplane_rs.Prelude.{
  ℕ, zero, suc, ◌+◌, ◌==◌, ◌&&◌, Option, none, some, List, [], ◌∷◌, if◌then◌else◌,
}
use hyperplane_rs.Prelude.Results.{Result, ok, err, ◌>>=◌}
use hyperplane_rs.Plan.Elements.{Element}
use hyperplane_rs.Compiler.Diagnostics.{CompilationDiagnostic, error, e003, plan}

-- The ways in which a compilation ends without a plan: diagnostics, a panic, or the end of the fuel.
pub data Stop : Type 0 where
  rejected : List CompilationDiagnostic → Stop
  panicked : Stop
  out_of_fuel : Stop

pub record StepFormats : Type 0 where
  pub activate : (element : ℕ) (trial : ℕ) → Option ℕ
  pub deactivate : (element : ℕ) (trial : ℕ) → Option ℕ
  pub activate_dedicated : (target : ℕ) (owner : ℕ) (trial : ℕ) → Option ℕ
  pub deactivate_dedicated : (target : ℕ) (owner : ℕ) (trial : ℕ) → Option ℕ
  pub notify_trial_start : (trial : ℕ) → Option ℕ
  pub notify_trial_end : (trial : ℕ) → Option ℕ
  pub readiness : (element : ℕ) (deploy : ℕ) → Option ℕ
  pub barrier : (deploy : ℕ) → Option ℕ
  pub start_id : ℕ
  pub end_id : ℕ

-- `map_err(internal_error)?`.
abbrev pub or_internal {ℓ} : {A : Type ℓ} → Option A → Result Stop A
or_internal (some a) = ok a
or_internal none = err (rejected (error e003 plan ∷ []))

-- `map[&key]`.
abbrev pub or_panic {ℓ} : {A : Type ℓ} → Option A → Result Stop A
or_panic (some a) = ok a
or_panic none = err panicked

-- `for t in first..first + n`.
unfoldable pub range_from : ℕ → ℕ → List ℕ
range_from zero first = []
range_from (suc n) first = first ∷ range_from n (first + 1)

-- A map over elements and trials is the function that looks a key up.
abbrev pub IdMap : Type 0
IdMap = ℕ → ℕ → Option ℕ

abbrev pub no_ids : IdMap
no_ids e t = none

abbrev pub insert_id : ℕ → ℕ → ℕ → IdMap → IdMap
insert_id e t id m e' t' = if (e' == e) && (t' == t) then some id else m e' t'

pub record StepIds : Type 0 where
  pub deploy_id_of : IdMap
  pub teardown_id_of : IdMap

module _ (formats : StepFormats) where
  unfoldable pub trial_ids : ℕ → List Element → StepIds → Result Stop StepIds
  trial_ids t [] m = ok m
  trial_ids t (e ∷ elements) m = do
    a ← or_internal (formats.activate e.name t)
    d ← or_internal (formats.deactivate e.name t)
    trial_ids t elements (record {
      deploy_id_of = insert_id e.name t a m.deploy_id_of;
      teardown_id_of = insert_id e.name t d m.teardown_id_of;
    })

  unfoldable pub all_ids : List ℕ → List Element → StepIds → Result Stop StepIds
  unfolding trial_ids
  all_ids [] elements m = ok m
  all_ids (t ∷ ts) elements m = trial_ids t elements m >>= all_ids ts elements
