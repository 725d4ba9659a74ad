-- ===== src/Constraint/Text.antt =====
-- `StringConstraint` of crates/paramodel-elements/src/constraint.rs. A string is the list of its
-- bytes, a pattern its source, and the regex library's matcher is a parameter.
use hyperplane_rs.Prelude.{
  ℕ, ◌≡◌, refl, ap, ap₂, ◌==◌, ==_iff, leb, Bool, true, false, not, ◌&&◌, Option, some, List, [],
  ◌∷◌, ◌++◌, any, length, same_list, same_list→≡, arith,
}
use hyperplane_rs.Prelude.Arith.{u32_clamp}
use hyperplane_rs.Constraint.Bytes.{write_u32_le, write_str_len_prefixed, write_string_set}
use hyperplane_rs.Constraint.Tree
use hyperplane_rs.Constraint.Tree.{Kind}

unfoldable pub same_bytes : List ℕ → List ℕ → Bool
same_bytes a b = same_list (◌==◌) a b

pub same_bytes→≡ : (a b : List ℕ) → same_bytes a b ≡ true → a ≡ b
unfolding same_bytes
same_bytes→≡ a b h = same_list→≡ (◌==◌) (λ x y e. (==_iff x y).0 e) a b h

pub data StringLeaf : Type 0 where
  regex : List ℕ → StringLeaf
  length_range : ℕ → ℕ → StringLeaf
  non_empty : StringLeaf
  in_set : List (List ℕ) → StringLeaf
  not_in_set : List (List ℕ) → StringLeaf

abbrev is_empty : List ℕ → Bool
is_empty [] = true
is_empty (x ∷ xs) = false

unfoldable pub same_string_leaf : StringLeaf → StringLeaf → Bool
unfolding same_bytes
same_string_leaf (regex a) (regex b) = same_bytes a b
same_string_leaf (length_range a c) (length_range b d) = (a == b) && (c == d)
same_string_leaf non_empty non_empty = true
same_string_leaf (in_set a) (in_set b) = same_list same_bytes a b
same_string_leaf (not_in_set a) (not_in_set b) = same_list same_bytes a b
same_string_leaf _ _ = false

pub same_string_leaf→≡ : (a b : StringLeaf) → same_string_leaf a b ≡ true → a ≡ b
unfolding same_string_leaf
same_string_leaf→≡ (regex a) (regex b) h = ap regex (same_bytes→≡ a b h)
same_string_leaf→≡ (length_range a c) (length_range b d) h =
    ap₂ length_range (ground arith) (ground arith)
same_string_leaf→≡ non_empty non_empty h = refl
same_string_leaf→≡ (in_set a) (in_set b) h = ap in_set (same_list→≡ same_bytes same_bytes→≡ a b h)
same_string_leaf→≡ (not_in_set a) (not_in_set b) h =
    ap not_in_set (same_list→≡ same_bytes same_bytes→≡ a b h)
same_string_leaf→≡ _ _ h = ground arith

unfoldable pub write_string_leaf : StringLeaf → List ℕ
unfolding write_u32_le write_str_len_prefixed write_string_set
write_string_leaf (regex pattern) = 66 ∷ write_str_len_prefixed pattern
write_string_leaf (length_range lo hi) = 67 ∷ write_u32_le lo ++ write_u32_le hi
write_string_leaf non_empty = 68 ∷ []
write_string_leaf (in_set values) = 69 ∷ write_string_set values
write_string_leaf (not_in_set values) = 70 ∷ write_string_set values

abbrev pub StringConstraint : Type 0
StringConstraint = Tree.Tree StringLeaf

module _ (is_match : List ℕ → List ℕ → Bool) where
  unfoldable pub answer : StringLeaf → List ℕ → Bool
  unfolding same_bytes
  answer (regex pattern) value = is_match pattern value
  answer (length_range lo hi) value =
      leb lo (u32_clamp (length value)) && leb (u32_clamp (length value)) hi
  answer non_empty value = not (is_empty value)
  answer (in_set values) value = any (same_bytes value) values
  answer (not_in_set values) value = not (any (same_bytes value) values)

  abbrev pub string_kind : Kind
  string_kind = record {
    Leaf = StringLeaf;
    V = List ℕ;
    test_leaf = λ l v. some (answer l v);
    same_leaf = same_string_leaf;
    write_leaf = write_string_leaf;
    tag_always = 64;
    tag_never = 65;
    tag_and = 71;
    tag_or = 72;
    tag_not = 73;
  }

  abbrev pub test : StringConstraint → List ℕ → Option Bool
  test c value = Tree.test string_kind c value

  abbrev pub canonicalize : StringConstraint → StringConstraint
  canonicalize c = Tree.canonicalize string_kind c

  abbrev pub canonical_bytes : StringConstraint → List ℕ
  canonical_bytes c = Tree.write_canonical string_kind c
