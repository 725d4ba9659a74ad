-- ===== src/Constraint/Examples.antt =====
-- Tests and concrete instances for the constraints.
use hyperplane_rs.Prelude.{
  ℕ, ◌≡◌, ◌≢◌, refl, ap, ◌==◌, leb, Bool, true, false, none, some, List, [], ◌∷◌, ==_iff,
}
use hyperplane_rs.Prelude.Ints.{pos, negsuc, i64_min}
use hyperplane_rs.Constraint.Tree.{
  Tree, always, never, leaf, and_of, or_of, not_of, nil, cons, and, or,
}
use hyperplane_rs.Constraint.Tree
use hyperplane_rs.Constraint.Integer
use hyperplane_rs.Constraint.Integer.{IntConstraint, min, max, multiple, int_kind, test_int}
use hyperplane_rs.Constraint.Double.{Doubles}
use hyperplane_rs.Constraint.Kinds
use hyperplane_rs.Constraint.Kinds.{Value, Constraint, integer, integer_c}
use hyperplane_rs.Constraint.Connectives.{both, either, test-and_or}

-- Whole numbers, with no NaN, in the place of the floats.
abbrev whole_doubles : Doubles
whole_doubles = record {
  F = ℕ;
  ge = λ a b. leb b a;
  is_nan = λ a. false;
  eq = λ a b. a == b;
  to_le_bytes = λ a. a ∷ [];
  quiet_nan = 0;
  eq-ge_left = λ a b c e. ap (λ x. leb c x) ((==_iff a b).0 e);
  eq-ge_right = λ a b c e. ap (λ x. leb x c) ((==_iff a b).0 e);
}

abbrev no_match : List ℕ → List ℕ → Bool
no_match pattern value = false

abbrev between : IntConstraint
between = and_of (
    cons (leaf (max (pos 9)))
      (cons (not_of (not_of (leaf (min (pos 2))))) (cons (leaf (max (pos 9))) (cons always nil))))

program : Unit {0}
unfolding Integer.write_int_leaf Tree.canonicalize Tree.test test_int
program = tt

-- The child under two negations, the repeated child and `Always` go, and the rest is sorted.
canonical_between :
    Integer.canonicalize between
    ≡ and_of (cons (leaf (min (pos 2))) (cons (leaf (max (pos 9))) nil))
unfolding program Integer.same_int_leaf
canonical_between = refl

five_passes : Integer.test between (pos 5) ≡ some true
unfolding program Integer.same_int_leaf
five_passes = refl

multiple_test : Integer.test (leaf (multiple (pos 4))) (negsuc 7) ≡ some true
unfolding program Integer.same_int_leaf
multiple_test = refl

-- The remainder of `i64::MIN` and -1 panics, and canonicalizing can take the panic away.
minimum_panics :
    Integer.test (and_of (cons (leaf (multiple (negsuc 0))) (cons never nil))) i64_min ≡ none
unfolding program Integer.same_int_leaf
minimum_panics = refl

minimum_canonical :
    Integer.test
      (Integer.canonicalize (and_of (cons (leaf (multiple (negsuc 0))) (cons never nil))))
      i64_min
    ≡ some false
unfolding program Integer.same_int_leaf
minimum_canonical = refl

abbrev five : Value whole_doubles no_match
five = integer (pos 5)

abbrev between_c : Constraint whole_doubles no_match
between_c = integer_c between

five_not_min : five ≢ integer i64_min
five_not_min e = cc

test-canonicalize_kinds_example :
    Kinds.test whole_doubles no_match (Kinds.canonicalize whole_doubles no_match between_c) five
    ≡ Kinds.test whole_doubles no_match between_c five
test-canonicalize_kinds_example =
    Kinds.test-canonicalize_kinds whole_doubles no_match between_c five five_not_min

test_no_panic_example : (b : Bool) × (Kinds.test whole_doubles no_match between_c five ≡ some b)
test_no_panic_example = Kinds.test_no_panic whole_doubles no_match between_c five five_not_min

test-and_or_example :
    (Tree.test int_kind (and between (leaf (min (pos 3)))) (pos 2)
      ≡ both (Tree.test int_kind between (pos 2)) (Tree.test int_kind (leaf (min (pos 3))) (pos 2)))
    × (Tree.test int_kind (or between (leaf (min (pos 3)))) (pos 2)
        ≡ either
            (Tree.test int_kind between (pos 2))
            (Tree.test int_kind (leaf (min (pos 3))) (pos 2)))
test-and_or_example = test-and_or int_kind between (leaf (min (pos 3))) (pos 2)
