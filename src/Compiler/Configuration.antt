-- ===== src/Compiler/Configuration.antt =====
-- `resolve_configuration` and `resolve_bindings_map` of crates/paramodel-compiler/src/compiler.rs: the
-- value of each parameter of an element in a trial. A resolver is a function from a key and a
-- parameter to a value.
pub mod Sources
mod Examples
use hyperplane_rs.Prelude.{
  ℕ, zero, suc, ◌+◌, ◌==◌, Bool, true, false, ◌&&◌, Option, none, some, ◌>>=◌, List, [], ◌∷◌,
  get_elem?, if◌then◌else◌,
}
use hyperplane_rs.Prelude.Results.{Result, ok, err}
use hyperplane_rs.Prelude.IdSet.{lookup, put}
use hyperplane_rs.Plan.Axis.{Axis}
use hyperplane_rs.Plan.Elements.{ConfigEntry, literal, token, Parameter, Element, TestPlan, binding}
use hyperplane_rs.Compiler.Diagnostics.{CompilationDiagnostic, error, e001, parameter}

abbrev pub Resolver : Type 0
Resolver = ℕ → ℕ → Option ℕ

-- `?` twice: on the resolver and on the single key.
unfoldable pub resolve_config_entry : ConfigEntry → ℕ → Option Resolver → Option ℕ
resolve_config_entry (literal v) pname resolver = some v
resolve_config_entry (token key) pname resolver = do r ← resolver; k ← key; r k pname

unfoldable pub resolve_entry : Option ConfigEntry → ℕ → Option Resolver → Option ℕ
unfolding resolve_config_entry
resolve_entry none pname resolver = none
resolve_entry (some entry) pname resolver = resolve_config_entry entry pname resolver

-- `find` over the enumerated axes.
unfoldable pub find_axis : ℕ → ℕ → ℕ → List (Axis ℕ) → Option (ℕ × Axis ℕ)
find_axis e p i [] = none
find_axis e p i (a ∷ axes) =
    if (a.target.element == e) && (a.target.parameter == p)
    then some (i, a)
    else find_axis e p (i + 1) axes

unfoldable pub or_zero : Option ℕ → ℕ
or_zero none = 0
or_zero (some n) = n

unfoldable pub axis_value : TestPlan → ℕ → ℕ → List ℕ → Option ℕ
unfolding find_axis or_zero
axis_value plan e p offsets = do
  (i, axis) ← find_axis e p 0 plan.axes
  get_elem? axis.values (or_zero (get_elem? offsets i))

-- `first` where it gives a value, else `next`.
abbrev pub or_else : Option ℕ → Option ℕ → Option ℕ
or_else (some v) next = some v
or_else none next = next

-- The steps 1 to 4.
unfoldable pub resolve_parameter :
    TestPlan → Element → List ℕ → Option Resolver → Parameter → Option ℕ
unfolding axis_value binding resolve_entry lookup
resolve_parameter plan e offsets resolver p = or_else (axis_value plan e.name p.name offsets) (
    or_else (resolve_entry (binding e.name p.name plan.bindings) p.name resolver)
      (or_else (resolve_entry (lookup p.name e.configuration) p.name resolver) p.default_value))

unfoldable pub resolve_from :
    TestPlan
    → Element
    → List ℕ
    → Option Resolver
    → List Parameter
    → List (ℕ × ℕ)
    → Result CompilationDiagnostic (List (ℕ × ℕ))
unfolding resolve_parameter put
resolve_from plan e offsets resolver [] out = ok out
resolve_from plan e offsets resolver (p ∷ ps) out =
    elim (resolve_parameter plan e offsets resolver p) [
      | some v ↦ resolve_from plan e offsets resolver ps (put p.name v out)
      | none ↦ err (error e001 (parameter e.name p.name))
    ]

unfoldable pub resolve_configuration :
    TestPlan → Element → List ℕ → Option Resolver → Result CompilationDiagnostic (List (ℕ × ℕ))
unfolding resolve_from
resolve_configuration plan e offsets resolver = resolve_from plan e offsets resolver e.parameters []

-- A literal entry only.
unfoldable pub literal_value : Option ConfigEntry → Option ℕ
literal_value (some (literal v)) = some v
literal_value _ = none

unfoldable pub bindings_from :
    TestPlan → Element → List ℕ → List Parameter → List (ℕ × ℕ) → List (ℕ × ℕ)
unfolding axis_value binding literal_value lookup put
bindings_from plan e offsets [] out = out
bindings_from plan e offsets (p ∷ ps) out =
    let found = or_else (axis_value plan e.name p.name offsets) (
      or_else (literal_value (binding e.name p.name plan.bindings))
        (or_else (literal_value (lookup p.name e.configuration)) p.default_value)) in
    bindings_from plan e offsets ps (elim found [ some v ↦ put p.name v out | none ↦ out ])

unfoldable pub resolve_bindings_map : TestPlan → Element → List ℕ → List (ℕ × ℕ)
unfolding bindings_from
resolve_bindings_map plan e offsets = bindings_from plan e offsets e.parameters []
