-- ===== src/Compiler/Binding/Passes.antt =====
-- One pass of `compute_effective_levels`: the level that it gives to each element.
use hyperplane_rs.Prelude.{
  ℕ, ◌≤◌, ◌==◌, ◌≡◌, ◌⊎◌, refl, sym, subst, ap, ◌∙◌, Bool, true, false, List, [], ◌∷◌, ◌&&◌,
  Bool-cases, inl, inr, if◌then◌else◌, arith, ◌||◌,
}
use hyperplane_rs.Prelude.IdSet.{mem, lookup, put, lookup-put}
use hyperplane_rs.Prelude.Distinct.{NoDup}
use hyperplane_rs.Plan.Elements.{Dependency, Element, names}
use hyperplane_rs.Compiler.Binding.{
  propagates, max_level, raise, best_of, level_of, differs, Pass, consider, pass,
}

-- The dependencies of the element with a name.
abbrev pub deps_named : List Element → ℕ → List Dependency
deps_named [] x = []
deps_named (e ∷ elements) x = if x == e.name then e.dependencies else deps_named elements x

-- A dependency on `y` that propagates levels.
abbrev pub pulls_in : List Dependency → ℕ → Bool
pulls_in [] y = false
pulls_in (d ∷ deps) y = (propagates d.relationship && (y == d.target)) || pulls_in deps y

raise_lem :
    (m : List (ℕ × ℕ)) (d : Dependency) (best : ℕ)
    → (best ≤ raise m d best)
      × (propagates d.relationship ≡ true → level_of d.target m ≤ raise m d best)
      × ((raise m d best ≡ best)
          ⊎ ((propagates d.relationship ≡ true) × (raise m d best ≡ level_of d.target m)))
unfolding raise max_level level_of
raise_lem m d best = ground arith

-- The best level bounds the start and the levels of the targets, and is one of them.
pub best_of-ge : (m : List (ℕ × ℕ)) (deps : List Dependency) (best : ℕ) → best ≤ best_of m deps best
unfolding best_of
best_of-ge m [] best = omega arith
best_of-ge m (d ∷ deps) best =
    omega (arith, best_of-ge m deps (raise m d best), (raise_lem m d best).0)

pub best_of-ge_target :
    (m : List (ℕ × ℕ)) (deps : List Dependency) (best y : ℕ)
    → pulls_in deps y ≡ true
    → level_of y m ≤ best_of m deps best
unfolding best_of
best_of-ge_target m [] best y h = absurd (ground arith)
best_of-ge_target m (d ∷ deps) best y h = elim (Bool-cases (pulls_in deps y)) [
  | inl t ↦ best_of-ge_target m deps (raise m d best) y t
  | inr f ↦
      let same : y ≡ d.target = ground arith in
      let here : level_of d.target m ≤ raise m d best = (raise_lem m d best).1 (ground arith) in
      omega (arith, best_of-ge m deps (raise m d best), here, ap (λ x. level_of x m) same)
]

pub best_of_cases :
    (m : List (ℕ × ℕ)) (deps : List Dependency) (best : ℕ)
    → (best_of m deps best ≡ best)
      ⊎ ((y : ℕ) × (pulls_in deps y ≡ true) × (best_of m deps best ≡ level_of y m))
unfolding best_of
best_of_cases m [] best = inl refl
best_of_cases m (d ∷ deps) best = elim (best_of_cases m deps (raise m d best)) [
  | inr (y, h, e) ↦ inr (y, ground arith, e)
  | inl e ↦ elim ((raise_lem m d best).2) [
    | inl same ↦ inl (e ∙ same)
    | inr (h, same) ↦ inr (d.target, ground arith, e ∙ same)
  ]
]

-- The level that a pass gives to `x`.
abbrev pub next_level : List Element → List (ℕ × ℕ) → ℕ → ℕ
next_level elements m x = best_of m (deps_named elements x) (level_of x m)

level_of-put :
    (x k v : ℕ) (m : List (ℕ × ℕ)) → level_of x (put k v m) ≡ (if x == k then v else level_of x m)
unfolding level_of
level_of-put x k v m = ground (arith, lookup-put x k v m)

differs_lem :
    (best : ℕ) (x : ℕ) (m : List (ℕ × ℕ)) → differs best (lookup x m) ≡ false → level_of x m ≡ best
unfolding differs level_of
differs_lem best x m h = ground arith

level_of-consider :
    (m : List (ℕ × ℕ)) (e : Element) (p : Pass) (x : ℕ)
    → level_of e.name p.out ≡ level_of e.name m
    → level_of x (consider m e p).out
      ≡ (if x == e.name then best_of m e.dependencies (level_of e.name m) else level_of x p.out)
unfolding consider
level_of-consider m e p x h =
    let best = best_of m e.dependencies (level_of e.name m) in
    ground (arith, level_of-put x e.name best p.out, differs_lem best e.name m)

changed-consider :
    (m : List (ℕ × ℕ)) (e : Element) (p : Pass)
    → (consider m e p).changed ≡ false
    → (p.changed ≡ false) × (best_of m e.dependencies (level_of e.name m) ≡ level_of e.name m)
unfolding consider
changed-consider m e p h =
    ground (arith, differs_lem (best_of m e.dependencies (level_of e.name m)) e.name m)

differ :
    (elements : List Element) (x y : ℕ)
    → mem x (names elements) ≡ false
    → mem y (names elements) ≡ true
    → (y == x) ≡ false
differ elements x y h m = ground arith

-- A pass that starts at the snapshot's levels gives the next ones.
level_of-pass :
    (m : List (ℕ × ℕ)) (elements : List Element) (p : Pass) (x : ℕ)
    → NoDup (names elements)
    → ((y : ℕ) → mem y (names elements) ≡ true → level_of y p.out ≡ level_of y m)
    → level_of x (pass m elements p).out
      ≡ (if mem x (names elements) then next_level elements m x else level_of x p.out)
unfolding pass mem
level_of-pass m [] p x n h = refl
level_of-pass m (e ∷ elements) p x n h =
    let here = level_of-consider m e p in
    let same = h e.name (ground arith) in
    let rest = level_of-pass m elements (consider m e p) x n.1 (λ y t.
      let other : (y == e.name) ≡ false = differ elements e.name y n.0 t in
      here y same ∙ (rw other (h y (rw other t)))) in
    rest ∙ elim (Bool-cases (x == e.name)) [
      | inr f ↦ rw (here x same, f, next_level) refl
      | inl t ↦
          let is : x ≡ e.name = ground arith in
          let absent : mem x (names elements) ≡ false = rw is n.0 in
          rw (absent, here x same, t, next_level)
            (ap (λ i. best_of m e.dependencies (level_of i m)) (sym is))
    ]

changed-pass :
    (m : List (ℕ × ℕ)) (elements : List Element) (p : Pass)
    → (pass m elements p).changed ≡ false
    → (p.changed ≡ false) × ((x : ℕ) → next_level elements m x ≡ level_of x m)
unfolding pass best_of
changed-pass m [] p h = (h, λ x. refl)
changed-pass m (e ∷ elements) p h =
    let (later, rest) = changed-pass m elements (consider m e p) h in
    let (before, here) = changed-consider m e p later in
    (
      before,
      λ x. elim (Bool-cases (x == e.name)) [
        | inl t ↦
            let same : x ≡ e.name = ground arith in
            rw (t, next_level)
              (subst (λ i. best_of m e.dependencies (level_of i m) ≡ level_of i m) (sym same) here)
        | inr f ↦ rw (f, next_level) (rest x)
      ],
    )

deps_absent :
    (elements : List Element) (x : ℕ) → mem x (names elements) ≡ false → deps_named elements x ≡ []
unfolding mem
deps_absent [] x h = refl
deps_absent (e ∷ elements) x h = ground (arith, deps_absent elements x)

pub level_of-pass_start :
    (m : List (ℕ × ℕ)) (elements : List Element) (x : ℕ)
    → NoDup (names elements)
    → level_of x (pass m elements (record { out = m; changed = false })).out
      ≡ next_level elements m x
unfolding best_of
level_of-pass_start m elements x n =
    let p : Pass = record { out = m; changed = false } in
    let result = level_of-pass m elements p x n (λ y h. refl) in
    elim (Bool-cases (mem x (names elements))) [
      | inl t ↦ result ∙ rw t refl
      | inr f ↦ result ∙ rw (f, deps_absent elements x f, next_level) refl
    ]

pub changed-pass_start :
    (m : List (ℕ × ℕ)) (elements : List Element)
    → (pass m elements (record { out = m; changed = false })).changed ≡ false
    → (x : ℕ) → next_level elements m x ≡ level_of x m
changed-pass_start m elements h =
    (changed-pass m elements (record { out = m; changed = false }) h).1
