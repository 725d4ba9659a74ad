-- ===== src/Constraint/Selection.antt =====
-- `SelectionConstraint` of crates/paramodel-elements/src/constraint.rs. An item is its string; a
-- selection is the list of its items in order.
use hyperplane_rs.Prelude.{
  ℕ, ◌≡◌, ap, ◌==◌, ==_iff, leb, Bool, true, false, not, Option, some, List, ◌∷◌, any, all, length,
  same_list, same_list→≡, arith,
}
use hyperplane_rs.Constraint.Bytes.{write_u32_le, write_string_set}
use hyperplane_rs.Constraint.Text.{same_bytes, same_bytes→≡}
use hyperplane_rs.Constraint.Tree
use hyperplane_rs.Constraint.Tree.{Kind}

pub data SelectionLeaf : Type 0 where
  require_all : List (List ℕ) → SelectionLeaf
  require_any : List (List ℕ) → SelectionLeaf
  forbid_all : List (List ℕ) → SelectionLeaf
  min_size : ℕ → SelectionLeaf
  max_size : ℕ → SelectionLeaf

unfoldable pub contains : List (List ℕ) → List ℕ → Bool
unfolding same_bytes
contains selection item = any (same_bytes item) selection

unfoldable pub answer : SelectionLeaf → List (List ℕ) → Bool
unfolding contains
answer (require_all items) selection = all (contains selection) items
answer (require_any items) selection = any (contains selection) items
answer (forbid_all items) selection = not (any (contains selection) items)
answer (min_size n) selection = leb n (length selection)
answer (max_size n) selection = leb (length selection) n

unfoldable pub same_selection_leaf : SelectionLeaf → SelectionLeaf → Bool
unfolding same_bytes
same_selection_leaf (require_all a) (require_all b) = same_list same_bytes a b
same_selection_leaf (require_any a) (require_any b) = same_list same_bytes a b
same_selection_leaf (forbid_all a) (forbid_all b) = same_list same_bytes a b
same_selection_leaf (min_size a) (min_size b) = a == b
same_selection_leaf (max_size a) (max_size b) = a == b
same_selection_leaf _ _ = false

pub same_selection_leaf→≡ : (a b : SelectionLeaf) → same_selection_leaf a b ≡ true → a ≡ b
unfolding same_selection_leaf
same_selection_leaf→≡ (require_all a) (require_all b) h =
    ap require_all (same_list→≡ same_bytes same_bytes→≡ a b h)
same_selection_leaf→≡ (require_any a) (require_any b) h =
    ap require_any (same_list→≡ same_bytes same_bytes→≡ a b h)
same_selection_leaf→≡ (forbid_all a) (forbid_all b) h =
    ap forbid_all (same_list→≡ same_bytes same_bytes→≡ a b h)
same_selection_leaf→≡ (min_size a) (min_size b) h = ap min_size ((==_iff a b).0 h)
same_selection_leaf→≡ (max_size a) (max_size b) h = ap max_size ((==_iff a b).0 h)
same_selection_leaf→≡ _ _ h = ground arith

unfoldable pub write_selection_leaf : SelectionLeaf → List ℕ
unfolding write_u32_le write_string_set
write_selection_leaf (require_all items) = 82 ∷ write_string_set items
write_selection_leaf (require_any items) = 83 ∷ write_string_set items
write_selection_leaf (forbid_all items) = 84 ∷ write_string_set items
write_selection_leaf (min_size n) = 85 ∷ write_u32_le n
write_selection_leaf (max_size n) = 86 ∷ write_u32_le n

abbrev pub selection_kind : Kind
selection_kind = record {
  Leaf = SelectionLeaf;
  V = List (List ℕ);
  test_leaf = λ l v. some (answer l v);
  same_leaf = same_selection_leaf;
  write_leaf = write_selection_leaf;
  tag_always = 80;
  tag_never = 81;
  tag_and = 87;
  tag_or = 88;
  tag_not = 89;
}

abbrev pub SelectionConstraint : Type 0
SelectionConstraint = Tree.Tree SelectionLeaf

abbrev pub test : SelectionConstraint → List (List ℕ) → Option Bool
test c selection = Tree.test selection_kind c selection

abbrev pub canonicalize : SelectionConstraint → SelectionConstraint
canonicalize c = Tree.canonicalize selection_kind c

abbrev pub canonical_bytes : SelectionConstraint → List ℕ
canonical_bytes c = Tree.write_canonical selection_kind c
