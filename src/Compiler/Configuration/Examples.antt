-- ===== src/Compiler/Configuration/Examples.antt =====
-- The configuration of an element with an axis and a default.
use hyperplane_rs.Prelude.{ℕ, false, ◌≡◌, refl, true, ◌⊎◌, none, some, List, [], ◌∷◌, map}
use hyperplane_rs.Prelude.Results.{ok, err}
use hyperplane_rs.Prelude.IdSet.{mem, lookup, put}
use hyperplane_rs.Plan.Elements.{integer, Parameter, Element, TestPlan, find_parameter}
use hyperplane_rs.Plan.Elements.Samples.{plain, axis_on, plan_of}
use hyperplane_rs.Compiler.Diagnostics.{error, e001, parameter}
use hyperplane_rs.Compiler.Configuration.{resolve_configuration, resolve_bindings_map}
use hyperplane_rs.Compiler.Configuration.Sources.{
  sources, first_some, resolved, resolve_configuration_cases, resolve_bindings_map-resolved,
}

-- The parameter 1 has an axis, 2 only a default.
abbrev tuned : Element
tuned = record (plain 4 []) {
  parameters =
      record { name = 1; default_value = none; kind = integer; is_derived = false }
      ∷ record { name = 2; default_value = some 9; kind = integer; is_derived = false }
      ∷ [];
}

abbrev tuned_plan : TestPlan
tuned_plan = plan_of (tuned ∷ []) (axis_on 4 1 ∷ [])

tuned_resolved : resolve_configuration tuned_plan tuned (1 ∷ []) none ≡ ok ((1, 22) ∷ (2, 9) ∷ [])
unfolding resolve_configuration lookup put
tuned_resolved = refl

resolve_configuration_cases_example :
    ((config : List (ℕ × ℕ)) × (resolve_configuration tuned_plan tuned (1 ∷ []) none ≡ ok config)
      × ((x : ℕ)
          → lookup x config
            ≡ resolved tuned_plan tuned (1 ∷ []) none (find_parameter x tuned.parameters)))
    ⊎ ((p : Parameter) × (resolve_configuration tuned_plan tuned (1 ∷ []) none
          ≡ err (error e001 (parameter tuned.name p.name)))
        × (mem p.name (map (λ q. q.name) tuned.parameters) ≡ true)
        × (first_some (sources tuned_plan tuned (1 ∷ []) none p) ≡ none))
unfolding mem
resolve_configuration_cases_example =
    resolve_configuration_cases tuned_plan tuned (1 ∷ []) none (refl, (refl, tt))

resolve_bindings_map-resolved_example :
    resolve_bindings_map tuned_plan tuned (1 ∷ []) ≡ (1, 22) ∷ (2, 9) ∷ []
resolve_bindings_map-resolved_example =
    resolve_bindings_map-resolved tuned_plan tuned (1 ∷ []) ((1, 22) ∷ (2, 9) ∷ []) tuned_resolved
