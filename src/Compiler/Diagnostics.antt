-- ===== src/Compiler/Diagnostics.antt =====
-- crates/paramodel-compiler/src/error.rs, and `gather_unsupported` of compiler.rs. Every diagnostic of
-- the compiler has the severity `Error`; its message is left out.
pub mod Supported
mod Examples
use hyperplane_rs.Prelude.{
  ℕ, Bool, true, false, Option, none, some, List, [], ◌∷◌, ◌++◌, if◌then◌else◌,
}
use hyperplane_rs.Prelude.IdSet.{mem}
use hyperplane_rs.Plan.Elements.{
  Dependency, ShutdownSemantics, service, command, ConfigEntry, literal, token, Element,
  PlanBinding, TrialOrdering, sequential, shuffled, edge_first, dependency_optimized,
  cost_optimized, custom, TestPlan, names,
}

-- The codes that the compiler gives.
pub data WarningCode : Type 0 where
  w002 e001 e002 e003 : WarningCode

pub data DiagnosticLocation : Type 0 where
  plan : DiagnosticLocation
  element : ℕ → DiagnosticLocation
  parameter : (element : ℕ) (parameter : ℕ) → DiagnosticLocation
  dependency : (source : ℕ) (target : ℕ) → DiagnosticLocation

pub record CompilationDiagnostic : Type 0 where
  pub code : WarningCode
  pub location : DiagnosticLocation

abbrev pub error : WarningCode → DiagnosticLocation → CompilationDiagnostic
error c l = record { code = c; location = l }

unfoldable pub is_token : ConfigEntry → Bool
is_token (literal v) = false
is_token (token key) = true

unfoldable pub undeclared_of :
    List ℕ → ℕ → List Dependency → List CompilationDiagnostic → List CompilationDiagnostic
undeclared_of declared e [] out = out
undeclared_of declared e (d ∷ deps) out =
    undeclared_of declared e deps
      (if mem d.target declared then out else out ++ error e001 (dependency e d.target) ∷ [])

-- The loop over the elements for undeclared targets.
unfoldable pub undeclared :
    List ℕ → List Element → List CompilationDiagnostic → List CompilationDiagnostic
unfolding undeclared_of
undeclared declared [] out = out
undeclared declared (e ∷ elements) out =
    undeclared declared elements (undeclared_of declared e.name e.dependencies out)

unfoldable pub check_shutdown :
    ℕ → ShutdownSemantics → List CompilationDiagnostic → List CompilationDiagnostic
check_shutdown e service out = out
check_shutdown e command out = out ++ error e002 (element e) ∷ []

unfoldable pub token_entries :
    ℕ → List (ℕ × ConfigEntry) → List CompilationDiagnostic → List CompilationDiagnostic
unfolding is_token
token_entries e [] out = out
token_entries e ((p, entry) ∷ entries) out =
    token_entries e entries (if is_token entry then out ++ error e002 (parameter e p) ∷ [] else out)

-- The loop over the elements for what is not supported.
unfoldable pub unsupported_elements :
    Bool → List Element → List CompilationDiagnostic → List CompilationDiagnostic
unfolding check_shutdown token_entries
unsupported_elements has_resolver [] out = out
unsupported_elements has_resolver (e ∷ elements) out =
    let checked = check_shutdown e.name e.shutdown_semantics out in
    unsupported_elements has_resolver elements
      (if has_resolver then checked else token_entries e.name e.configuration checked)

unfoldable pub token_bindings :
    List PlanBinding → List CompilationDiagnostic → List CompilationDiagnostic
unfolding is_token
token_bindings [] out = out
token_bindings (b ∷ bindings) out =
    token_bindings bindings
      (if is_token b.entry then out ++ error e002 (parameter b.element b.parameter) ∷ [] else out)

unfoldable pub check_ordering :
    TrialOrdering → List CompilationDiagnostic → List CompilationDiagnostic
check_ordering (custom name) out = out ++ error e002 plan ∷ []
check_ordering _ out = out

unfoldable pub gather_unsupported :
    TestPlan → List CompilationDiagnostic → Bool → List CompilationDiagnostic
unfolding undeclared unsupported_elements token_bindings check_ordering
gather_unsupported p out has_resolver =
    let elements_checked =
      unsupported_elements has_resolver p.elements (undeclared (names p.elements) p.elements out) in
    check_ordering p.trial_ordering
      (if has_resolver then elements_checked else token_bindings p.bindings elements_checked)
