-- ===== src/Compiler/Trials/Examples.antt =====
-- The trial elements of a client and a database.
use hyperplane_rs.Prelude.{◌≡◌, refl, true, false, not, ◌&&◌, ◌||◌, [], ◌∷◌}
use hyperplane_rs.Prelude.IdSet.{mem, insert, remove, union, lookup, put}
use hyperplane_rs.Plan.Elements.{shared, TestPlan}
use hyperplane_rs.Plan.Elements.Samples.{plain, axis_on, plan_of}
use hyperplane_rs.Compiler.Binding.{compute, own_level}
use hyperplane_rs.Compiler.Trials.{is_forced, identify_trial_elements}
use hyperplane_rs.Compiler.Trials.Selection.{
  named, is_candidate, depended_on_by, mem-identify_trial_elements,
}

abbrev client_and_database : TestPlan
client_and_database =
    plan_of (plain 1 [] ∷ plain 2 (record { target = 1; relationship = shared } ∷ []) ∷ [])
      (axis_on 1 1 ∷ [])

client_is_trial : identify_trial_elements client_and_database (compute client_and_database) ≡ 2 ∷ []
unfolding identify_trial_elements compute own_level insert remove union lookup put mem
client_is_trial = refl

mem-identify_trial_elements_example :
    mem 2 (identify_trial_elements client_and_database (compute client_and_database)) ≡ (
      not (named (λ e. is_forced false e.trial_element) 2 client_and_database.elements)
      && (named (λ e. is_forced true e.trial_element) 2 client_and_database.elements
          || (named
                (is_candidate client_and_database (compute client_and_database))
                2
                client_and_database.elements
              && not (
                  depended_on_by
                    (λ e.
                      named
                        (is_candidate client_and_database (compute client_and_database))
                        e.name
                        client_and_database.elements)
                    2
                    client_and_database.elements))))
mem-identify_trial_elements_example =
    mem-identify_trial_elements client_and_database (compute client_and_database) 2
