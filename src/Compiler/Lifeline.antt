-- ===== src/Compiler/Lifeline.antt =====
-- `lifeline_root_of` and `apply_lifeline_collapse` of crates/paramodel-compiler/src/compiler.rs. The
-- loop of `lifeline_root_of` visits a new element in each turn; it has a turn of fuel for each of them
-- and one more. `none` outside is the end of the fuel.
pub mod Roots
mod Examples
use hyperplane_rs.Prelude.{
  ℕ, zero, suc, ◌==◌, Bool, true, false, not, Option, none, some, List, [], ◌∷◌, map, length,
  if◌then◌else◌,
}
use hyperplane_rs.Prelude.IdSet.{mem, insert, lookup, put}
use hyperplane_rs.Plan.Elements.{
  RelationshipType, lifeline, Dependency, Element, TestPlan, find_element,
}
use hyperplane_rs.Plan.Step.{AtomicStep, id, depends_on}
use hyperplane_rs.Compiler.Edges.{set_deps, dedupe_in_place}
use hyperplane_rs.Compiler.Ids.{StepIds}

-- The target of the first lifeline dependency.
unfoldable pub lifelined_to : List Dependency → Option ℕ
lifelined_to [] = none
lifelined_to (d ∷ deps) = elim d.relationship [ lifeline ↦ some d.target | _ ↦ lifelined_to deps ]

unfoldable pub root_from : ℕ → List Element → List ℕ → ℕ → Option (Option ℕ)
unfolding mem insert find_element lifelined_to
root_from zero elements seen current = none
root_from (suc fuel) elements seen current =
    if mem current seen then some none else elim (find_element current elements) [
      | none ↦ some none
      | some e ↦ elim (lifelined_to e.dependencies) [
        | some next ↦ root_from fuel elements (insert current seen) next
        | none ↦ some (some current)
      ]
    ]

unfoldable pub lifeline_root_of : List Element → ℕ → Option (Option ℕ)
unfolding root_from
lifeline_root_of elements x = root_from (suc (length elements)) elements [] x

-- The element's own root is no entry.
unfoldable pub add_root : ℕ → Option ℕ → List (ℕ × ℕ) → List (ℕ × ℕ)
unfolding put
add_root x none m = m
add_root x (some root) m = if root == x then m else put x root m

unfoldable pub lifeline_roots : List Element → List Element → List (ℕ × ℕ) → Option (List (ℕ × ℕ))
unfolding lifeline_root_of add_root
lifeline_roots all_elements [] m = some m
lifeline_roots all_elements (e ∷ elements) m = elim (lifeline_root_of all_elements e.name) [
  | none ↦ none
  | some root ↦ lifeline_roots all_elements elements (add_root e.name root m)
]

-- `if let (Some(..), Some(..))`.
unfoldable pub remap_teardown : Option ℕ → Option ℕ → List (ℕ × ℕ) → List (ℕ × ℕ)
unfolding put
remap_teardown (some x_td) (some root_td) remap = put x_td root_td remap
remap_teardown _ _ remap = remap

unfoldable pub remap_trials : StepIds → ℕ → ℕ → List ℕ → List (ℕ × ℕ) → List (ℕ × ℕ)
unfolding remap_teardown
remap_trials m x root [] remap = remap
remap_trials m x root (t ∷ ts) remap =
    remap_trials m x root ts (remap_teardown (m.teardown_id_of x t) (m.teardown_id_of root t) remap)

unfoldable pub remap_roots : StepIds → List ℕ → List (ℕ × ℕ) → List (ℕ × ℕ) → List (ℕ × ℕ)
unfolding remap_trials
remap_roots m ts [] remap = remap
remap_roots m ts ((x, root) ∷ roots) remap = remap_roots m ts roots (remap_trials m x root ts remap)

-- `remap.get(&d).cloned().unwrap_or(d)`.
unfoldable pub remapped : List (ℕ × ℕ) → ℕ → ℕ
unfolding lookup
remapped remap d = elim (lookup d remap) [ none ↦ d | some kept ↦ kept ]

unfoldable pub is_key : List (ℕ × ℕ) → ℕ → Bool
unfolding lookup
is_key remap k = elim (lookup k remap) [ none ↦ false | some _ ↦ true ]

module _ {F : Type 0} where
  -- `retain`, without the ids that pass a test.
  unfoldable pub drop_steps : (ℕ → Bool) → List (AtomicStep F) → List (AtomicStep F)
  drop_steps p [] = []
  drop_steps p (s ∷ steps) = let rest = drop_steps p steps in if p (id s) then rest else s ∷ rest

  -- The rewriting loop keeps the first occurrence of each rewritten dependency.
  unfoldable pub rewrite_steps : List (ℕ × ℕ) → List (AtomicStep F) → List (AtomicStep F)
  unfolding remapped dedupe_in_place set_deps
  rewrite_steps remap [] = []
  rewrite_steps remap (s ∷ steps) =
      set_deps (dedupe_in_place (map (remapped remap) (depends_on s))) s ∷ rewrite_steps remap steps

  unfoldable pub apply_lifeline_collapse :
      TestPlan → StepIds → List ℕ → List (AtomicStep F) → Option (List (AtomicStep F))
  unfolding lifeline_roots remap_roots rewrite_steps drop_steps is_key
  apply_lifeline_collapse plan m ts steps = elim (lifeline_roots plan.elements plan.elements []) [
    | none ↦ none
    | some [] ↦ some steps
    | some (r ∷ roots) ↦
        let remap = remap_roots m ts (r ∷ roots) [] in
        some (drop_steps (is_key remap) (rewrite_steps remap steps))
  ]
