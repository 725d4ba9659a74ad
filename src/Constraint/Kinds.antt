-- ===== src/Constraint/Kinds.antt =====
-- The outer `Constraint` of crates/paramodel-elements/src/constraint.rs, which dispatches on the kind.
use hyperplane_rs.Prelude.{
  ℕ, ◌≡◌, ◌≢◌, refl, ap, Bool, false, Option, some, List, Bool-cases, inl, inr,
}
use hyperplane_rs.Prelude.Ints.{ℤ, i64_min}
use hyperplane_rs.Constraint.Integer
use hyperplane_rs.Constraint.Double
use hyperplane_rs.Constraint.Boolean
use hyperplane_rs.Constraint.Text
use hyperplane_rs.Constraint.Selection
use hyperplane_rs.Constraint.Integer.{
  IntConstraint, int_kind, int_answer, test_int-answer, same_int_leaf→≡,
}
use hyperplane_rs.Constraint.Double.{
  Doubles, DoubleConstraint, double_kind, same_double_leaf-answer,
}
use hyperplane_rs.Constraint.Boolean.{BoolConstraint, test-canonicalize_bool}
use hyperplane_rs.Constraint.Text.{StringConstraint, string_kind, same_string_leaf→≡}
use hyperplane_rs.Constraint.Selection.{SelectionConstraint, selection_kind, same_selection_leaf→≡}
use hyperplane_rs.Constraint.Canonical.{test-holds, test-canonicalize}

module _ (doubles : Doubles) (is_match : List ℕ → List ℕ → Bool) where
  open doubles use {F, is_nan}

  -- The payload of a value, by its kind.
  pub data Value : Type 0 where
    integer : ℤ → Value
    double : F → Value
    boolean : Bool → Value
    string : List ℕ → Value
    selection : List (List ℕ) → Value

  pub data Constraint : Type 0 where
    integer_c : IntConstraint → Constraint
    double_c : DoubleConstraint doubles → Constraint
    boolean_c : BoolConstraint → Constraint
    string_c : StringConstraint → Constraint
    selection_c : SelectionConstraint → Constraint

  unfoldable pub test : Constraint → Value → Option Bool
  unfolding Boolean.test Double.test
  test (integer_c c) (integer v) = Integer.test c v
  test (double_c c) (double v) = Double.test doubles c v
  test (boolean_c c) (boolean v) = some (Boolean.test c v)
  test (string_c c) (string v) = Text.test is_match c v
  test (selection_c c) (selection v) = Selection.test c v
  test _ _ = some false

  unfoldable pub canonicalize : Constraint → Constraint
  unfolding Boolean.canonicalize
  canonicalize (integer_c c) = integer_c (Integer.canonicalize c)
  canonicalize (double_c c) = double_c (Double.canonicalize doubles c)
  canonicalize (boolean_c c) = boolean_c (Boolean.canonicalize c)
  canonicalize (string_c c) = string_c (Text.canonicalize is_match c)
  canonicalize (selection_c c) = selection_c (Selection.canonicalize c)

  unfoldable pub canonical_bytes : Constraint → List ℕ
  unfolding Boolean.write_canonical
  canonical_bytes (integer_c c) = Integer.canonical_bytes c
  canonical_bytes (double_c c) = Double.canonical_bytes doubles c
  canonical_bytes (boolean_c c) = Boolean.write_canonical c
  canonical_bytes (string_c c) = Text.canonical_bytes is_match c
  canonical_bytes (selection_c c) = Selection.canonical_bytes c

  -- The hash of the canonical bytes; the hash is a library's.
  unfoldable pub fingerprint : {H : Type 0} → (List ℕ → H) → Constraint → H
  unfolding canonicalize canonical_bytes
  fingerprint hash c = hash (canonical_bytes (canonicalize c))

  double_canonicalize :
      (c : DoubleConstraint doubles) (v : F)
      → Double.test doubles (Double.canonicalize doubles c) v ≡ Double.test doubles c v
  unfolding Double.test
  double_canonicalize c v = elim (Bool-cases (is_nan v)) [
    | inl t ↦ rw t refl
    | inr f ↦ rw f (
        test-canonicalize (double_kind doubles) (λ l. Double.answer doubles l v) v (λ l. refl)
          (same_double_leaf-answer doubles v) c)
  ]

  -- `canonicalize` keeps the answer of `test` for constraints of every kind and values of every
  -- kind, also of another kind than the constraint's, except for the integer -2^63, at which the
  -- test of a leaf `Multiple` with the divisor -1 panics.
  pub test-canonicalize_kinds :
      (c : Constraint) (v : Value) → v ≢ integer i64_min → test (canonicalize c) v ≡ test c v
  unfolding test canonicalize
  test-canonicalize_kinds (integer_c c) (integer v) h =
      test-canonicalize int_kind (int_answer v) v (test_int-answer v (λ e. h (ap integer e)))
        (λ a b e. ap (int_answer v) (same_int_leaf→≡ a b e)) c
  test-canonicalize_kinds (double_c c) (double v) h = double_canonicalize c v
  test-canonicalize_kinds (boolean_c c) (boolean v) h = ap some (test-canonicalize_bool c v)
  test-canonicalize_kinds (string_c c) (string v) h =
      test-canonicalize (string_kind is_match) (λ l. Text.answer is_match l v) v (λ l. refl)
        (λ a b e. ap (λ l. Text.answer is_match l v) (same_string_leaf→≡ a b e)) c
  test-canonicalize_kinds (selection_c c) (selection v) h =
      test-canonicalize selection_kind (λ l. Selection.answer l v) v (λ l. refl)
        (λ a b e. ap (λ l. Selection.answer l v) (same_selection_leaf→≡ a b e)) c
  test-canonicalize_kinds _ _ h = refl

  -- `test` does not panic at a value other than the integer -2^63: it gives an answer for every
  -- constraint.
  pub test_no_panic :
      (c : Constraint) (v : Value) → v ≢ integer i64_min → (b : Bool) × (test c v ≡ some b)
  unfolding test Double.test
  test_no_panic (integer_c c) (integer v) h =
      (_, test-holds int_kind (int_answer v) v (test_int-answer v (λ e. h (ap integer e))) c)
  test_no_panic (double_c c) (double v) h = elim (Bool-cases (is_nan v)) [
    | inl t ↦ rw t (_, refl)
    | inr f ↦
        rw f (_, test-holds (double_kind doubles) (λ l. Double.answer doubles l v) v (λ l. refl) c)
  ]
  test_no_panic (boolean_c c) (boolean v) h = (_, refl)
  test_no_panic (string_c c) (string v) h =
      (_, test-holds (string_kind is_match) (λ l. Text.answer is_match l v) v (λ l. refl) c)
  test_no_panic (selection_c c) (selection v) h =
      (_, test-holds selection_kind (λ l. Selection.answer l v) v (λ l. refl) c)
  test_no_panic _ _ h = (_, refl)
