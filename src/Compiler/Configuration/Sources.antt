-- ===== src/Compiler/Configuration/Sources.antt =====
-- The resolved configuration, and the binding map of an instance.
use hyperplane_rs.Prelude.{
  ℕ, ◌==◌, ◌≡◌, refl, ap, ◌∙◌, ◌⊎◌, Option-cases, sym, true, false, Option, none, some, List, [],
  ◌∷◌, map, Bool-cases, inl, inr, if◌then◌else◌, arith,
}
use hyperplane_rs.Prelude.Results.{ok, err}
use hyperplane_rs.Prelude.IdSet.{mem, lookup, put, lookup-put}
use hyperplane_rs.Prelude.Distinct.{NoDup}
use hyperplane_rs.Plan.Elements.{
  ConfigEntry, literal, token, Parameter, Element, TestPlan, find_parameter, binding,
}
use hyperplane_rs.Compiler.Diagnostics.{error, e001, parameter}
use hyperplane_rs.Compiler.Configuration.{
  Resolver, resolve_entry, axis_value, or_else, resolve_parameter, resolve_from,
  resolve_configuration, literal_value, bindings_from, resolve_bindings_map,
}

abbrev param_names : List Parameter → List ℕ
param_names = map (λ p. p.name)

-- The sources of a parameter's value, in the order of their precedence: an axis of the plan, a binding
-- of the plan, the element's configuration, the default.
abbrev pub sources : TestPlan → Element → List ℕ → Option Resolver → Parameter → List (Option ℕ)
sources plan e offsets r p =
    axis_value plan e.name p.name offsets
    ∷ resolve_entry (binding e.name p.name plan.bindings) p.name r
    ∷ resolve_entry (lookup p.name e.configuration) p.name r
    ∷ p.default_value
    ∷ []

abbrev pub first_some : List (Option ℕ) → Option ℕ
first_some [] = none
first_some (none ∷ os) = first_some os
first_some (some v ∷ os) = some v

-- The value of the first source that has one.
abbrev pub resolved : TestPlan → Element → List ℕ → Option Resolver → Option Parameter → Option ℕ
resolved plan e offsets r none = none
resolved plan e offsets r (some p) = first_some (sources plan e offsets r p)

or_else-first_some :
    (o : Option ℕ) (os : List (Option ℕ)) → or_else o (first_some os) ≡ first_some (o ∷ os)
or_else-first_some none os = refl
or_else-first_some (some v) os = refl

only : (o : Option ℕ) → o ≡ first_some (o ∷ [])
only none = refl
only (some v) = refl

-- `resolve_parameter` takes the sources in that order.
resolve_parameter-first_some :
    (plan : TestPlan) (e : Element) (offsets : List ℕ) (r : Option Resolver) (p : Parameter)
    → resolve_parameter plan e offsets r p ≡ first_some (sources plan e offsets r p)
unfolding resolve_parameter
resolve_parameter-first_some plan e offsets r p =
    let axis = axis_value plan e.name p.name offsets in
    let bound = resolve_entry (binding e.name p.name plan.bindings) p.name r in
    let configured = resolve_entry (lookup p.name e.configuration) p.name r in
    ap (λ o. or_else axis (or_else bound (or_else configured o))) (only p.default_value)
    ∙ ap (λ o. or_else axis (or_else bound o))
        (or_else-first_some configured (p.default_value ∷ []))
    ∙ ap (or_else axis) (or_else-first_some bound (configured ∷ p.default_value ∷ []))
    ∙ or_else-first_some axis (bound ∷ configured ∷ p.default_value ∷ [])

module _ (plan : TestPlan) (e : Element) (offsets : List ℕ) (r : Option Resolver) where
  absent :
      (x : ℕ) (ps : List Parameter) → mem x (param_names ps) ≡ false → find_parameter x ps ≡ none
  unfolding mem
  absent x [] h = refl
  absent x (p ∷ ps) h = ground (arith, absent x ps)

  -- What a list of parameters resolves to, on top of what was resolved before.
  abbrev Resolves : List Parameter → List (ℕ × ℕ) → Type 0
  Resolves ps out =
      ((config : List (ℕ × ℕ)) × (resolve_from plan e offsets r ps out ≡ ok config)
        × ((x : ℕ)
            → lookup x config ≡ (
                if mem x (param_names ps)
                then resolved plan e offsets r (find_parameter x ps)
                else lookup x out)))
      ⊎ ((p : Parameter) × (resolve_from plan e offsets r ps out
            ≡ err (error e001 (parameter e.name p.name)))
          × (mem p.name (param_names ps) ≡ true)
          × (first_some (sources plan e offsets r p) ≡ none))

  lookup-put_param :
      (x : ℕ) (p : Parameter) (ps : List Parameter) (v : ℕ) (out config : List (ℕ × ℕ))
      → mem p.name (param_names ps) ≡ false
      → first_some (sources plan e offsets r p) ≡ some v
      → lookup x config ≡ (
          if mem x (param_names ps)
          then resolved plan e offsets r (find_parameter x ps)
          else lookup x (put p.name v out))
      → lookup x config ≡ (
          if mem x (param_names (p ∷ ps))
          then resolved plan e offsets r (find_parameter x (p ∷ ps))
          else lookup x out)
  unfolding mem
  lookup-put_param x p ps v out config fresh found h = elim (Bool-cases (x == p.name)) [
    | inl t ↦
        let same : x ≡ p.name = ground arith in
        let gone : mem x (param_names ps) ≡ false = rw same fresh in
        rw t (ground (arith, lookup-put x p.name v out))
    | inr f ↦
        let keep = λ (o : Option ℕ).
          if mem x (param_names ps) then resolved plan e offsets r (find_parameter x ps) else o in
        rw f (h ∙ ap keep (lookup-put x p.name v out ∙ rw f refl))
  ]

  resolve_from_lem :
      (ps : List Parameter) (out : List (ℕ × ℕ)) → NoDup (param_names ps) → Resolves ps out
  unfolding resolve_from mem
  resolve_from_lem [] out n = inl (out, refl, λ x. refl)
  resolve_from_lem (p ∷ ps) out n = elim (Option-cases (resolve_parameter plan e offsets r p)) [
    | inl none_found ↦ inr (
      p,
      rw (none_found, resolve_from) refl,
      ground arith,
      sym (resolve_parameter-first_some plan e offsets r p) ∙ none_found,
    )
    | inr (v, found) ↦ elim (resolve_from_lem ps (put p.name v out) n.1) [
      | inl (config, eq, h) ↦ inl (
        config,
        rw (found, resolve_from) eq,
        λ x.
            lookup-put_param x p ps v out config n.0
              (sym (resolve_parameter-first_some plan e offsets r p) ∙ found) (h x),
      )
      | inr (q, eq, m, none_found) ↦ inr (q, rw (found, resolve_from) eq, ground arith, none_found)
    ]
  ]

-- Where the parameters of an element have distinct names, `resolve_configuration` succeeds and gives
-- to each of them, and to nothing else, the value of the first of its sources that has one, in the
-- order axis of the plan, binding of the plan, configuration of the element, default, or it fails and
-- names a parameter of the element of which no source has a value.
pub resolve_configuration_cases :
    (plan : TestPlan) (e : Element) (offsets : List ℕ) (r : Option Resolver)
    → NoDup (map (λ p. p.name) e.parameters)
    → ((config : List (ℕ × ℕ)) × (resolve_configuration plan e offsets r ≡ ok config)
        × ((x : ℕ) → lookup x config ≡ resolved plan e offsets r (find_parameter x e.parameters)))
      ⊎ ((p : Parameter) × (resolve_configuration plan e offsets r
            ≡ err (error e001 (parameter e.name p.name)))
          × (mem p.name (map (λ q. q.name) e.parameters) ≡ true)
          × (first_some (sources plan e offsets r p) ≡ none))
unfolding resolve_configuration lookup
resolve_configuration_cases plan e offsets r n =
    elim (resolve_from_lem plan e offsets r e.parameters [] n) [
      | inl (config, eq, h) ↦
          inl (config, eq, λ x. h x ∙ ground (arith, absent plan e offsets r x e.parameters))
      | inr other ↦ inr other
    ]

literal_lem : (c : Option ConfigEntry) (p : ℕ) → resolve_entry c p none ≡ literal_value c
unfolding resolve_entry literal_value
literal_lem none p = refl
literal_lem (some (literal v)) p = refl
literal_lem (some (token key)) p = refl

module _ (plan : TestPlan) (e : Element) (offsets : List ℕ) where
  -- What `resolve_bindings_map` finds for a parameter.
  abbrev found : Parameter → Option ℕ
  found p = or_else (axis_value plan e.name p.name offsets) (
      or_else (literal_value (binding e.name p.name plan.bindings))
        (or_else (literal_value (lookup p.name e.configuration)) p.default_value))

  found-resolve_parameter : (p : Parameter) → found p ≡ resolve_parameter plan e offsets none p
  unfolding resolve_parameter
  found-resolve_parameter p =
      ap
        (λ o.
          or_else (axis_value plan e.name p.name offsets)
            (or_else o (or_else (literal_value (lookup p.name e.configuration)) p.default_value)))
        (sym (literal_lem (binding e.name p.name plan.bindings) p.name))
      ∙ ap
          (λ o. or_else (axis_value plan e.name p.name offsets) (
            or_else (resolve_entry (binding e.name p.name plan.bindings) p.name none)
              (or_else o p.default_value)))
          (sym (literal_lem (lookup p.name e.configuration) p.name))

  bindings_from-resolved :
      (ps : List Parameter) (out config : List (ℕ × ℕ))
      → resolve_from plan e offsets none ps out ≡ ok config
      → bindings_from plan e offsets ps out ≡ config
  unfolding resolve_from bindings_from
  bindings_from-resolved [] out config h = cc
  bindings_from-resolved (p ∷ ps) out config h =
      elim (Option-cases (resolve_parameter plan e offsets none p)) [
        | inl gone ↦ absurd (let clash = rw (gone, resolve_from) at h in cc)
        | inr (v, got) ↦
            let same = found-resolve_parameter p ∙ got in
            rw (same, bindings_from)
              (bindings_from-resolved ps (put p.name v out) config (rw (got, resolve_from) at h))
      ]

  -- Without a resolver, the bindings of an element's instance are its resolved configuration.
  pub resolve_bindings_map-resolved :
      (config : List (ℕ × ℕ))
      → resolve_configuration plan e offsets none ≡ ok config
      → resolve_bindings_map plan e offsets ≡ config
  unfolding resolve_configuration resolve_bindings_map
  resolve_bindings_map-resolved config h = bindings_from-resolved e.parameters [] config h
