-- ===== src/Constraint/Connectives.antt =====
-- `and` and `or` against the short-circuit connectives, for every kind, panics included.
use hyperplane_rs.Prelude.{◌≡◌, refl, Bool, true, false, Option, none, some, ◌>>=◌, if◌then◌else◌}
use hyperplane_rs.Constraint.Tree.{
  Tree, and_of, or_of, Children, nil, cons, Kind, append, test, test_all, test_any, absorb_and,
  absorb_or, and, or,
}

-- `a && b` and `a || b` where `a` and `b` may panic.
abbrev pub both : Option Bool → Option Bool → Option Bool
both a b = a >>= (λ x. if x then b else some false)

abbrev pub either : Option Bool → Option Bool → Option Bool
either a b = a >>= (λ x. if x then some true else b)

both_assoc : (a b c : Option Bool) → both a (both b c) ≡ both (both a b) c
both_assoc none b c = refl
both_assoc (some true) b c = refl
both_assoc (some false) b c = refl

either_assoc : (a b c : Option Bool) → either a (either b c) ≡ either (either a b) c
either_assoc none b c = refl
either_assoc (some true) b c = refl
either_assoc (some false) b c = refl

both-true : (a : Option Bool) → both a (some true) ≡ a
both-true none = refl
both-true (some true) = refl
both-true (some false) = refl

either-false : (a : Option Bool) → either a (some false) ≡ a
either-false none = refl
either-false (some true) = refl
either-false (some false) = refl

module _ (kind : Kind) where
  open kind use {Leaf, V}

  test_all-append :
      (cs ds : Children Leaf) (v : V)
      → test_all kind (append cs ds) v ≡ both (test_all kind cs v) (test_all kind ds v)
  unfolding test append
  test_all-append nil ds v = refl
  test_all-append (cons c cs) ds v =
      rw (test_all-append cs ds v)
        (both_assoc (test kind c v) (test_all kind cs v) (test_all kind ds v))

  test_any-append :
      (cs ds : Children Leaf) (v : V)
      → test_any kind (append cs ds) v ≡ either (test_any kind cs v) (test_any kind ds v)
  unfolding test append
  test_any-append nil ds v = refl
  test_any-append (cons c cs) ds v =
      rw (test_any-append cs ds v)
        (either_assoc (test kind c v) (test_any kind cs v) (test_any kind ds v))

  test_all-snoc :
      (into : Children Leaf) (c : Tree Leaf) (v : V)
      → test_all kind (append into (cons c nil)) v ≡ both (test_all kind into v) (test kind c v)
  unfolding test
  test_all-snoc into c v = rw (test_all-append into (cons c nil) v, both-true (test kind c v)) refl

  test_any-snoc :
      (into : Children Leaf) (c : Tree Leaf) (v : V)
      → test_any kind (append into (cons c nil)) v ≡ either (test_any kind into v) (test kind c v)
  unfolding test
  test_any-snoc into c v =
      rw (test_any-append into (cons c nil) v, either-false (test kind c v)) refl

  test_all-absorb :
      (into : Children Leaf) (c : Tree Leaf) (v : V)
      → test_all kind (absorb_and into c) v ≡ both (test_all kind into v) (test kind c v)
  unfolding test absorb_and
  test_all-absorb into (and_of cs) v = test_all-append into cs v
  test_all-absorb into c v = test_all-snoc into c v

  test_any-absorb :
      (into : Children Leaf) (c : Tree Leaf) (v : V)
      → test_any kind (absorb_or into c) v ≡ either (test_any kind into v) (test kind c v)
  unfolding test absorb_or
  test_any-absorb into (or_of cs) v = test_any-append into cs v
  test_any-absorb into c v = test_any-snoc into c v

  -- In every kind, the test of `and` is the short-circuit conjunction of the tests of its two
  -- arguments, and the test of `or` the short-circuit disjunction, panics of the leaves included,
  -- although both flatten an argument that is itself such a node.
  pub test-and_or :
      (c d : Tree Leaf) (v : V)
      → (test kind (and c d) v ≡ both (test kind c v) (test kind d v))
        × (test kind (or c d) v ≡ either (test kind c v) (test kind d v))
  unfolding test and or
  test-and_or c d v = (
    rw (test_all-absorb (absorb_and nil c) d v, test_all-absorb nil c v) refl,
    rw (test_any-absorb (absorb_or nil c) d v, test_any-absorb nil c v) refl,
  )
