-- ===== src/Compiler/Reduction.antt =====
-- `apply_transitive_reduction` of crates/paramodel-compiler/src/compiler.rs. The code works on indices
-- into the list of steps; the id of the step stands for its index here. A stack has its top first.
pub mod Search
pub mod Closure
mod Examples
use hyperplane_rs.Prelude.{
  ℕ, zero, suc, ◌+◌, ◌==◌, Bool, true, false, not, ◌&&◌, ◌||◌, Option, none, some, ◌>>=◌, List, [],
  ◌∷◌, ◌++◌, length, if◌then◌else◌,
}
use mathlib.Core.List.{reverse}
use hyperplane_rs.Prelude.IdSet.{mem, insert, remove}
use hyperplane_rs.Plan.Step.{AtomicStep, id, depends_on}
use hyperplane_rs.Plan.Graph.{ids}
use hyperplane_rs.Compiler.Edges.{remove_dependency}

-- One entry for each time that the step names `k`.
unfoldable pub entries : ℕ → ℕ → List ℕ → List ℕ → List ℕ
entries k i [] out = out
entries k i (d ∷ deps) out = entries k i deps (if d == k then out ++ i ∷ [] else out)

-- `filter(|&x| x != s)` and `filter(|next| !visited.contains(next))`.
unfoldable pub others : ℕ → List ℕ → List ℕ
others s [] = []
others s (x ∷ xs) = let rest = others s xs in if x == s then rest else x ∷ rest

unfoldable pub unseen : List ℕ → List ℕ → List ℕ
unseen visited [] = []
unseen visited (x ∷ xs) = let rest = unseen visited xs in if mem x visited then rest else x ∷ rest

module _ {F : Type 0} where
  -- `outgoing[k]`, in the order of the steps.
  unfoldable pub outgoing_onto : ℕ → List (AtomicStep F) → List ℕ → List ℕ
  unfolding entries
  outgoing_onto k [] out = out
  outgoing_onto k (s ∷ steps) out = outgoing_onto k steps (entries k (id s) (depends_on s) out)

  unfoldable pub outgoing : ℕ → List (AtomicStep F) → List ℕ
  unfolding outgoing_onto
  outgoing k steps = outgoing_onto k steps []

  -- The `while let` loop: whether it reaches `goal`.
  unfoldable pub search_from : ℕ → List (AtomicStep F) → ℕ → List ℕ → List ℕ → Option Bool
  unfolding outgoing unseen
  search_from fuel steps goal [] visited = some false
  search_from zero steps goal (cur ∷ stack) visited = none
  search_from (suc fuel) steps goal (cur ∷ stack) visited =
      let skip = search_from fuel steps goal stack visited in
      let seen = insert cur visited in
      let go =
        search_from fuel steps goal (reverse (unseen seen (outgoing cur steps)) ++ stack) seen in
      if mem cur visited then skip else if cur == goal then some true else go

  -- The number of entries of `outgoing`.
  unfoldable pub edge_count : List ℕ → List (AtomicStep F) → ℕ
  unfolding outgoing
  edge_count [] steps = 0
  edge_count (k ∷ ks) steps = length (outgoing k steps) + edge_count ks steps

  -- Whether another successor of `n` leads to `s`.
  unfoldable pub is_redundant : List (AtomicStep F) → ℕ → ℕ → Option Bool
  unfolding search_from others edge_count
  is_redundant steps n s =
      let stack = reverse (others s (outgoing n steps)) in
      search_from (length stack + edge_count (ids steps) steps) steps s stack []

  unfoldable pub redundant_of : List (AtomicStep F) → ℕ → List ℕ → Option (List (ℕ × ℕ))
  unfolding is_redundant
  redundant_of steps n [] = some []
  redundant_of steps n (s ∷ succs) = do
    r ← is_redundant steps n s
    rest ← redundant_of steps n succs
    some (if r then (n, s) ∷ rest else rest)

  unfoldable pub redundant_all : List (AtomicStep F) → List ℕ → Option (List (ℕ × ℕ))
  unfolding redundant_of
  redundant_all steps [] = some []
  redundant_all steps (n ∷ ns) = do
    here ← redundant_of steps n (outgoing n steps)
    rest ← redundant_all steps ns
    some (here ++ rest)

  unfoldable pub drop_edges : List (ℕ × ℕ) → List (AtomicStep F) → List (AtomicStep F)
  unfolding remove_dependency
  drop_edges [] steps = steps
  drop_edges ((n, s) ∷ redundant) steps = drop_edges redundant (remove_dependency s n steps)

  unfoldable pub apply_transitive_reduction : List (AtomicStep F) → Option (List (AtomicStep F))
  unfolding redundant_all drop_edges
  apply_transitive_reduction steps = do
    redundant ← redundant_all steps (ids steps)
    some (drop_edges redundant steps)
