-- ===== src/Constraint/Double.antt =====
-- `DoubleConstraint` of crates/paramodel-elements/src/constraint.rs. The `f64` operations are a
-- parameter.
use hyperplane_rs.Prelude.{
  ℕ, ◌≡◌, ap₂, Bool, true, false, ◌&&◌, Option, some, List, ◌∷◌, ◌++◌, arith, if◌then◌else◌,
}
use hyperplane_rs.Constraint.Tree
use hyperplane_rs.Constraint.Tree.{Kind}

-- `f64`: `a >= b`, `is_nan`, `==`, `to_le_bytes`, and the quiet NaN of `CANONICAL_NAN_BITS`.
pub record Doubles : Type 1 where
  pub F : Type 0
  pub ge : F → F → Bool
  pub is_nan : F → Bool
  pub eq : F → F → Bool
  pub to_le_bytes : F → List ℕ
  pub quiet_nan : F
  -- Equal numbers, 0 and -0 among them, compare alike.
  pub eq-ge_left : (a b c : F) → eq a b ≡ true → ge a c ≡ ge b c
  pub eq-ge_right : (a b c : F) → eq a b ≡ true → ge c a ≡ ge c b

pub data DoubleLeaf (F : Type 0) : Type 0 where
  min : F → DoubleLeaf F
  max : F → DoubleLeaf F
  range : F → F → DoubleLeaf F

module _ (doubles : Doubles) where
  open doubles use {F, ge, is_nan, eq, to_le_bytes, quiet_nan, eq-ge_left, eq-ge_right}

  -- `value <= n` is `n >= value`.
  unfoldable pub answer : DoubleLeaf F → F → Bool
  answer (min n) value = ge value n
  answer (max n) value = ge n value
  answer (range lo hi) value = ge value lo && ge hi value

  unfoldable pub same_double_leaf : DoubleLeaf F → DoubleLeaf F → Bool
  same_double_leaf (min a) (min b) = eq a b
  same_double_leaf (max a) (max b) = eq a b
  same_double_leaf (range a c) (range b d) = eq a b && eq c d
  same_double_leaf _ _ = false

  unfoldable pub write_f64_le_canonical : F → List ℕ
  write_f64_le_canonical v = to_le_bytes (if is_nan v then quiet_nan else v)

  unfoldable pub write_double_leaf : DoubleLeaf F → List ℕ
  unfolding write_f64_le_canonical
  write_double_leaf (min n) = 34 ∷ write_f64_le_canonical n
  write_double_leaf (max n) = 35 ∷ write_f64_le_canonical n
  write_double_leaf (range lo hi) = 36 ∷ write_f64_le_canonical lo ++ write_f64_le_canonical hi

  abbrev pub double_kind : Kind
  double_kind = record {
    Leaf = DoubleLeaf F;
    V = F;
    test_leaf = λ l v. some (answer l v);
    same_leaf = same_double_leaf;
    write_leaf = write_double_leaf;
    tag_always = 32;
    tag_never = 33;
    tag_and = 37;
    tag_or = 38;
    tag_not = 39;
  }

  abbrev pub DoubleConstraint : Type 0
  DoubleConstraint = Tree.Tree (DoubleLeaf F)

  -- A NaN fails at the root, so the calls for the children never see one.
  unfoldable pub test : DoubleConstraint → F → Option Bool
  test c value = if is_nan value then some false else Tree.test double_kind c value

  abbrev pub canonicalize : DoubleConstraint → DoubleConstraint
  canonicalize c = Tree.canonicalize double_kind c

  abbrev pub canonical_bytes : DoubleConstraint → List ℕ
  canonical_bytes c = Tree.write_canonical double_kind c

  pub same_double_leaf-answer :
      (v : F) (a b : DoubleLeaf F) → same_double_leaf a b ≡ true → answer a v ≡ answer b v
  unfolding same_double_leaf answer
  same_double_leaf-answer v (min a) (min b) h = eq-ge_right a b v h
  same_double_leaf-answer v (max a) (max b) h = eq-ge_left a b v h
  same_double_leaf-answer v (range a c) (range b d) h =
      ap₂ (◌&&◌) (eq-ge_right a b v (ground arith)) (eq-ge_left c d v (ground arith))
  same_double_leaf-answer v _ _ h = ground arith
