-- ===== src/Compiler/Diagnostics/Examples.antt =====
-- Plans that the compiler rejects, and one that it does not.
use hyperplane_rs.Prelude.{◌≡◌, ◌↔◌, refl, true, false, [], ◌∷◌}
use hyperplane_rs.Prelude.IdSet.{mem}
use hyperplane_rs.Plan.Elements.{shared, TestPlan}
use hyperplane_rs.Plan.Elements.Samples.{plain, plan_of}
use hyperplane_rs.Compiler.Diagnostics.{error, e001, dependency, gather_unsupported}
use hyperplane_rs.Compiler.Diagnostics.Supported.{is_supported_plan, gather_unsupported_iff}

abbrev with_target : TestPlan
with_target =
    plan_of (plain 1 (record { target = 2; relationship = shared } ∷ []) ∷ plain 2 [] ∷ []) []

abbrev without_target : TestPlan
without_target = plan_of (plain 1 (record { target = 2; relationship = shared } ∷ []) ∷ []) []

target_missing : gather_unsupported without_target [] false ≡ error e001 (dependency 1 2) ∷ []
unfolding gather_unsupported mem
target_missing = refl

gather_unsupported_iff_example :
    (gather_unsupported with_target [] false ≡ []) ↔ (is_supported_plan with_target false ≡ true)
gather_unsupported_iff_example = gather_unsupported_iff with_target false
