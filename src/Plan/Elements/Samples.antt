-- ===== src/Plan/Elements/Samples.antt =====
-- Small elements, axes and plans for the tests.
use hyperplane_rs.Plan.Axis.{Axis}
use hyperplane_rs.Prelude.{ℕ, ◌+◌, ◌*◌, false, none, some, List, [], ◌∷◌}
use hyperplane_rs.Plan.Elements.{Dependency, service, integer, Element, sequential, TestPlan}

-- An element with one parameter, numbered 1, of the default 7.
abbrev pub plain : ℕ → List Dependency → Element
plain x deps = record {
  name = x;
  parameters = record { name = 1; default_value = some 7; kind = integer; is_derived = false } ∷ [];
  configuration = [];
  dependencies = deps;
  has_health_check = false;
  shutdown_semantics = service;
  trial_element = none;
  max_concurrency = none;
  max_group_concurrency = none;
}

abbrev pub axis_on : ℕ → ℕ → Axis ℕ
axis_on e p = record {
  name = 10 * e + p;
  target = record { element = e; parameter = p };
  values = 21 ∷ 22 ∷ [];
  boundary_values = none;
}

abbrev pub plan_of : List Element → List (Axis ℕ) → TestPlan
plan_of es as' = record {
  id = 5;
  elements = es;
  axes = as';
  bindings = [];
  policies = record {
    trial_retry = record { max_attempts = 1 };
    element_deployment_retry = record { max_attempts = 1 };
  };
  trial_ordering = sequential;
}
