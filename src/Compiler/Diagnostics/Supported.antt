-- ===== src/Compiler/Diagnostics/Supported.antt =====
-- What a plan without diagnostics has.
use hyperplane_rs.Prelude.{
  ℕ, ◌≡◌, ◌↔◌, refl, sym, ap, subst, ◌∙◌, Bool, true, false, not, ◌&&◌, ◌||◌, List, [], ◌∷◌, ◌++◌,
  all, arith, if◌then◌else◌,
}
use hyperplane_rs.Prelude.IdSet.{mem}
use hyperplane_rs.Plan.Elements.{
  Dependency, ShutdownSemantics, service, command, ConfigEntry, Element, PlanBinding, TrialOrdering,
  custom, TestPlan, names,
}
use hyperplane_rs.Compiler.Diagnostics.{
  CompilationDiagnostic, error, element, e002, plan, is_token, undeclared_of, undeclared,
  check_shutdown, token_entries, unsupported_elements, token_bindings, check_ordering,
  gather_unsupported,
}

abbrev is_empty : List CompilationDiagnostic → Bool
is_empty [] = true
is_empty (d ∷ ds) = false

is_empty-append :
    (out : List CompilationDiagnostic) (d : CompilationDiagnostic)
    → is_empty (out ++ d ∷ []) ≡ false
is_empty-append [] d = refl
is_empty-append (x ∷ out) d = refl

-- The conditions, as tests over the plan.
abbrev pub is_service : ShutdownSemantics → Bool
is_service service = true
is_service command = false

abbrev pub is_custom : TrialOrdering → Bool
is_custom (custom name) = true
is_custom _ = false

abbrev pub targets_declared : List ℕ → List Element → Bool
targets_declared declared = all (λ e. all (λ d. mem d.target declared) e.dependencies)

abbrev pub all_services : List Element → Bool
all_services = all (λ e. is_service e.shutdown_semantics)

abbrev pub all_literal : List Element → Bool
all_literal = all (λ e. all (λ c. not (is_token c.1)) e.configuration)

push_unless-is_empty :
    (b : Bool) (out : List CompilationDiagnostic) (d : CompilationDiagnostic)
    → is_empty (if b then out else out ++ d ∷ []) ≡ (is_empty out && b)
push_unless-is_empty true out d = ground arith
push_unless-is_empty false out d = ground (arith, is_empty-append out d)

push_if-is_empty :
    (b : Bool) (out : List CompilationDiagnostic) (d : CompilationDiagnostic)
    → is_empty (if b then out ++ d ∷ [] else out) ≡ (is_empty out && not b)
push_if-is_empty true out d = ground (arith, is_empty-append out d)
push_if-is_empty false out d = ground arith

and_assoc : (a b c : Bool) → ((a && b) && c) ≡ (a && (b && c))
and_assoc true b c = refl
and_assoc false b c = refl

undeclared_of-is_empty :
    (declared : List ℕ) (e : ℕ) (deps : List Dependency) (out : List CompilationDiagnostic)
    → is_empty (undeclared_of declared e deps out)
      ≡ (is_empty out && all (λ d. mem d.target declared) deps)
unfolding undeclared_of
undeclared_of-is_empty declared e [] out = ground arith
undeclared_of-is_empty declared e (d ∷ deps) out =
    undeclared_of-is_empty declared e deps _
    ∙ ap (λ b. b && all (λ d. mem d.target declared) deps)
        (push_unless-is_empty (mem d.target declared) out _)
    ∙ and_assoc (is_empty out) (mem d.target declared) _

undeclared-is_empty :
    (declared : List ℕ) (elements : List Element) (out : List CompilationDiagnostic)
    → is_empty (undeclared declared elements out)
      ≡ (is_empty out && targets_declared declared elements)
unfolding undeclared
undeclared-is_empty declared [] out = ground arith
undeclared-is_empty declared (e ∷ elements) out =
    undeclared-is_empty declared elements _
    ∙ ap (λ b. b && targets_declared declared elements)
        (undeclared_of-is_empty declared e.name e.dependencies out)
    ∙ and_assoc (is_empty out) _ _

token_entries-is_empty :
    (e : ℕ) (entries : List (ℕ × ConfigEntry)) (out : List CompilationDiagnostic)
    → is_empty (token_entries e entries out)
      ≡ (is_empty out && all (λ c. not (is_token c.1)) entries)
unfolding token_entries
token_entries-is_empty e [] out = ground arith
token_entries-is_empty e ((p, entry) ∷ entries) out =
    token_entries-is_empty e entries _
    ∙ ap (λ b. b && all (λ c. not (is_token c.1)) entries) (push_if-is_empty (is_token entry) out _)
    ∙ and_assoc (is_empty out) _ _

token_bindings-is_empty :
    (bindings : List PlanBinding) (out : List CompilationDiagnostic)
    → is_empty (token_bindings bindings out)
      ≡ (is_empty out && all (λ b. not (is_token b.entry)) bindings)
unfolding token_bindings
token_bindings-is_empty [] out = ground arith
token_bindings-is_empty (b ∷ bindings) out =
    token_bindings-is_empty bindings _
    ∙ ap (λ c. c && all (λ b. not (is_token b.entry)) bindings)
        (push_if-is_empty (is_token b.entry) out _)
    ∙ and_assoc (is_empty out) _ _

check_shutdown-is_empty :
    (e : ℕ) (s : ShutdownSemantics) (out : List CompilationDiagnostic)
    → is_empty (check_shutdown e s out) ≡ (is_empty out && is_service s)
unfolding check_shutdown
check_shutdown-is_empty e service out = ground arith
check_shutdown-is_empty e command out = ground (arith, is_empty-append out (error e002 (element e)))

-- What an element has, where there is a resolver or not.
abbrev pub is_supported : Bool → Element → Bool
is_supported has_resolver e =
    is_service e.shutdown_semantics
    && (has_resolver || all (λ c. not (is_token c.1)) e.configuration)

element-is_empty :
    (r : Bool) (e : Element) (out : List CompilationDiagnostic)
    → is_empty (if r then out else token_entries e.name e.configuration out)
      ≡ (is_empty out && (r || all (λ c. not (is_token c.1)) e.configuration))
element-is_empty true e out = ground arith
element-is_empty false e out = token_entries-is_empty e.name e.configuration out

unsupported_elements-is_empty :
    (r : Bool) (elements : List Element) (out : List CompilationDiagnostic)
    → is_empty (unsupported_elements r elements out)
      ≡ (is_empty out && all (is_supported r) elements)
unfolding unsupported_elements
unsupported_elements-is_empty r [] out = ground arith
unsupported_elements-is_empty r (e ∷ elements) out =
    unsupported_elements-is_empty r elements _
    ∙ ap (λ b. b && all (is_supported r) elements)
        (element-is_empty r e _
          ∙ ap (λ b. b && (r || all (λ c. not (is_token c.1)) e.configuration))
              (check_shutdown-is_empty e.name e.shutdown_semantics out)
          ∙ and_assoc (is_empty out) _ _)
    ∙ and_assoc (is_empty out) _ _

check_ordering-is_empty :
    (o : TrialOrdering) (out : List CompilationDiagnostic)
    → is_empty (check_ordering o out) ≡ (is_empty out && not (is_custom o))
unfolding check_ordering
check_ordering-is_empty (custom name) out = ground (arith, is_empty-append out (error e002 plan))
check_ordering-is_empty _ out = ground arith

bindings-is_empty :
    (r : Bool) (bindings : List PlanBinding) (out : List CompilationDiagnostic)
    → is_empty (if r then out else token_bindings bindings out)
      ≡ (is_empty out && (r || all (λ b. not (is_token b.entry)) bindings))
bindings-is_empty true bindings out = ground arith
bindings-is_empty false bindings out = token_bindings-is_empty bindings out

abbrev pub is_supported_plan : TestPlan → Bool → Bool
is_supported_plan p r =
    targets_declared (names p.elements) p.elements
    && all (is_supported r) p.elements
    && (r || all (λ b. not (is_token b.entry)) p.bindings)
    && not (is_custom p.trial_ordering)

gather_unsupported-is_empty :
    (p : TestPlan) (r : Bool) (out : List CompilationDiagnostic)
    → is_empty (gather_unsupported p out r) ≡ (is_empty out && is_supported_plan p r)
unfolding gather_unsupported
gather_unsupported-is_empty p r out =
    let declared = undeclared (names p.elements) p.elements out in
    let checked = unsupported_elements r p.elements declared in
    ground (
      arith,
      check_ordering-is_empty p.trial_ordering
          (if r then checked else token_bindings p.bindings checked),
      bindings-is_empty r p.bindings checked,
      unsupported_elements-is_empty r p.elements declared,
      undeclared-is_empty (names p.elements) p.elements out,
    )

empty_iff : (ds : List CompilationDiagnostic) → (ds ≡ []) ↔ (is_empty ds ≡ true)
empty_iff [] = (λ h. refl, λ h. refl)
empty_iff (d ∷ ds) = (λ h. cc, λ h. cc)

-- The diagnostics that are there already stay.
pub gather_unsupported-nil :
    (p : TestPlan) (r : Bool) (out : List CompilationDiagnostic)
    → gather_unsupported p out r ≡ []
    → (out ≡ []) × (is_supported_plan p r ≡ true)
gather_unsupported-nil p r out h =
    let empty = sym (gather_unsupported-is_empty p r out) ∙ (empty_iff _).0 h in
    ((empty_iff out).1 (ground arith), ground arith)

-- `gather_unsupported` adds no diagnostic exactly when every dependency's target is an element of the
-- plan, every element is a service, the ordering is not a custom one, and, without a resolver, no
-- configuration entry of an element and no binding of the plan is a token.
pub gather_unsupported_iff :
    (p : TestPlan) (r : Bool) → (gather_unsupported p [] r ≡ []) ↔ (is_supported_plan p r ≡ true)
gather_unsupported_iff p r =
    subst (λ b. (gather_unsupported p [] r ≡ []) ↔ (b ≡ true)) (gather_unsupported-is_empty p r [])
      (empty_iff (gather_unsupported p [] r))
