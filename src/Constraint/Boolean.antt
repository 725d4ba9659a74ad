-- ===== src/Constraint/Boolean.antt =====
-- `BoolConstraint` of crates/paramodel-elements/src/constraint.rs.
use hyperplane_rs.Prelude.{
  ℕ, ◌≡◌, refl, ap, ◌∙◌, Bool, true, false, not, List, [], ◌∷◌, arith, if◌then◌else◌,
}

pub data BoolConstraint : Type 0 where
  always : BoolConstraint
  never : BoolConstraint
  eq_to : Bool → BoolConstraint
  not_of : BoolConstraint → BoolConstraint

unfoldable pub same_bool : Bool → Bool → Bool
same_bool true b = b
same_bool false b = not b

unfoldable pub test : BoolConstraint → Bool → Bool
unfolding same_bool
test always value = true
test never value = false
test (eq_to b) value = same_bool value b
test (not_of c) value = not (test c value)

-- The `match` on the canonical child.
unfoldable pub negate : BoolConstraint → BoolConstraint
negate (not_of inner) = inner
negate always = never
negate never = always
negate (eq_to b) = eq_to (not b)

unfoldable pub canonicalize : BoolConstraint → BoolConstraint
unfolding negate
canonicalize (not_of c) = negate (canonicalize c)
canonicalize c = c

unfoldable pub write_canonical : BoolConstraint → List ℕ
write_canonical always = 48 ∷ []
write_canonical never = 49 ∷ []
write_canonical (eq_to b) = 50 ∷ (if b then 1 else 0) ∷ []
write_canonical (not_of c) = 51 ∷ write_canonical c

test-negate : (c : BoolConstraint) (v : Bool) → test (negate c) v ≡ not (test c v)
unfolding negate test
test-negate always v = refl
test-negate never v = refl
test-negate (eq_to true) true = refl
test-negate (eq_to false) true = refl
test-negate (eq_to true) false = refl
test-negate (eq_to false) false = refl
test-negate (not_of c) v = ground arith

pub test-canonicalize_bool : (c : BoolConstraint) (v : Bool) → test (canonicalize c) v ≡ test c v
unfolding canonicalize test
test-canonicalize_bool always v = refl
test-canonicalize_bool never v = refl
test-canonicalize_bool (eq_to b) v = refl
test-canonicalize_bool (not_of c) v =
    test-negate (canonicalize c) v ∙ ap not (test-canonicalize_bool c v)
