-- ===== src/Compiler/Binding.antt =====
-- crates/paramodel-compiler/src/binding.rs: the binding levels of the elements.
pub mod Passes
pub mod Upstream
pub mod Levels
mod Examples
use hyperplane_rs.Prelude.{
  map, ℕ, zero, suc, ◌+◌, ◌%◌, ◌==◌, ltb, Bool, true, false, Option, none, some, List, [], ◌∷◌,
  length, if◌then◌else◌,
}
use hyperplane_rs.Prelude.Arith.{u32_max, u32_clamp}
use hyperplane_rs.Prelude.IdSet.{lookup, put}
use hyperplane_rs.Plan.Elements.{
  RelationshipType, shared, exclusive, dedicated, linear, lifeline, Dependency, Element, TestPlan,
}

pub record BindingStateComputer : Type 0 where
  pub own_levels : List (ℕ × ℕ)
  pub effective_levels : List (ℕ × ℕ)
  pub total_axes : ℕ

unfoldable pub count_axes : ℕ → List ℕ → ℕ
count_axes name [] = 0
count_axes name (a ∷ axes) = let rest = count_axes name axes in if a == name then 1 + rest else rest

-- The sum of two u32 wraps.
unfoldable pub own_from : List ℕ → List Element → ℕ → List (ℕ × ℕ) → List (ℕ × ℕ)
unfolding count_axes
own_from axes [] rank out = out
own_from axes (e ∷ elements) rank out =
    let level = (rank + u32_clamp (count_axes e.name axes)) % (u32_max + 1) in
    own_from axes elements level (put e.name level out)

unfoldable pub compute_own_levels : TestPlan → List (ℕ × ℕ)
unfolding own_from
compute_own_levels plan = own_from (map (λ a. a.target.element) plan.axes) plan.elements 0 []

unfoldable pub propagates : RelationshipType → Bool
propagates shared = true
propagates exclusive = true
propagates linear = true
propagates dedicated = false
propagates lifeline = false

unfoldable pub max_level : ℕ → Option ℕ → ℕ
max_level best none = best
max_level best (some tl) = if ltb best tl then tl else best

-- The loop over the dependencies of an element, and one turn of it.
unfoldable pub raise : List (ℕ × ℕ) → Dependency → ℕ → ℕ
unfolding propagates max_level
raise snapshot d best =
    if propagates d.relationship then max_level best (lookup d.target snapshot) else best

unfoldable pub best_of : List (ℕ × ℕ) → List Dependency → ℕ → ℕ
unfolding raise
best_of snapshot [] best = best
best_of snapshot (d ∷ deps) best = best_of snapshot deps (raise snapshot d best)

-- `get(..).copied().unwrap_or(0)`.
unfoldable pub level_of : ℕ → List (ℕ × ℕ) → ℕ
level_of name levels = elim (lookup name levels) [ none ↦ 0 | some l ↦ l ]

-- `Some(&best) != snapshot.get(..)`.
unfoldable pub differs : ℕ → Option ℕ → Bool
differs best none = true
differs best (some l) = if best == l then false else true

pub record Pass : Type 0 where
  pub out : List (ℕ × ℕ)
  pub changed : Bool

-- The turn of an element.
unfoldable pub consider : List (ℕ × ℕ) → Element → Pass → Pass
unfolding best_of level_of differs
consider snapshot e p =
    let best = best_of snapshot e.dependencies (level_of e.name snapshot) in
    if differs best (lookup e.name snapshot)
    then record { out = put e.name best p.out; changed = true }
    else p

-- One turn of the `while` loop.
unfoldable pub pass : List (ℕ × ℕ) → List Element → Pass → Pass
unfolding consider
pass snapshot [] p = p
pass snapshot (e ∷ elements) p = pass snapshot elements (consider snapshot e p)

-- The loop: `changed` is true at the start, and the guard bounds the number of turns.
unfoldable pub settle_levels : ℕ → List Element → List (ℕ × ℕ) → List (ℕ × ℕ)
unfolding pass
settle_levels zero elements out = out
settle_levels (suc guard) elements out =
    let p = pass out elements (record { out = out; changed = false }) in
    let rest = settle_levels guard elements p.out in if p.changed then rest else p.out

unfoldable pub compute_effective_levels : List Element → List (ℕ × ℕ) → List (ℕ × ℕ)
unfolding settle_levels
compute_effective_levels elements own = settle_levels (suc (length elements)) elements own

unfoldable pub compute : TestPlan → BindingStateComputer
unfolding compute_own_levels compute_effective_levels
compute plan =
    let own = compute_own_levels plan in
    record {
      own_levels = own;
      effective_levels = compute_effective_levels plan.elements own;
      total_axes = u32_clamp (length plan.axes);
    }

unfoldable pub own_level : BindingStateComputer → ℕ → ℕ
unfolding level_of
own_level bsc name = level_of name bsc.own_levels

unfoldable pub effective_level : BindingStateComputer → ℕ → ℕ
unfolding level_of
effective_level bsc name = level_of name bsc.effective_levels

unfoldable pub same_group_for_elements : BindingStateComputer → ℕ → ℕ → Bool
unfolding effective_level
same_group_for_elements bsc x y = effective_level bsc x == effective_level bsc y
