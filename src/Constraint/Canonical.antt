-- ===== src/Constraint/Canonical.antt =====
-- `canonicalize` and `test` against the Boolean reading of a tree, step by step.
use hyperplane_rs.Prelude.{
  ◌≡◌, refl, sym, ap, ◌∙◌, Bool, true, not, ◌&&◌, ◌||◌, Option, none, some, Bool-cases, inl, inr,
  ap₂, arith,
}
use hyperplane_rs.Constraint.Tree.{
  Tree, always, never, leaf, and_of, or_of, not_of, Children, nil, cons, Kind, test, test_all,
  test_any, same, sort_by_bytes, dedup_after, dedup_partial_eq, finish_and, finish_or, canonicalize,
  flatten_and, flatten_or,
}
use hyperplane_rs.Constraint.Meaning.{
  holds, holds_all, holds_any, all_of_option, any_of_option, holds-negate, holds-push_and,
  holds-push_or, holds-close_and, holds-close_or, holds_all-sort, holds_any-sort, same→holds,
}

module _ (kind : Kind) (h : kind.Leaf → Bool) where
  open kind use {Leaf, V, test_leaf, same_leaf}

  module _ (agree : (a b : Leaf) → same_leaf a b ≡ true → h a ≡ h b) where
    holds_all-dedup_after :
        (c : Tree Leaf) (ds : Children Leaf)
        → (holds h c && holds_all h (dedup_after kind c ds)) ≡ (holds h c && holds_all h ds)
    unfolding holds dedup_after
    holds_all-dedup_after c nil = refl
    holds_all-dedup_after c (cons d ds) = elim (Bool-cases (same kind d c)) [
      | inl t ↦ rw t (ground (arith, same→holds kind h agree d c t, holds_all-dedup_after c ds))
      | inr f ↦ rw f (ground (arith, holds_all-dedup_after d ds))
    ]

    holds_any-dedup_after :
        (c : Tree Leaf) (ds : Children Leaf)
        → (holds h c || holds_any h (dedup_after kind c ds)) ≡ (holds h c || holds_any h ds)
    unfolding holds dedup_after
    holds_any-dedup_after c nil = refl
    holds_any-dedup_after c (cons d ds) = elim (Bool-cases (same kind d c)) [
      | inl t ↦ rw t (ground (arith, same→holds kind h agree d c t, holds_any-dedup_after c ds))
      | inr f ↦ rw f (ground (arith, holds_any-dedup_after d ds))
    ]

    holds_all-dedup : (cs : Children Leaf) → holds_all h (dedup_partial_eq kind cs) ≡ holds_all h cs
    unfolding holds dedup_partial_eq
    holds_all-dedup nil = refl
    holds_all-dedup (cons c cs) = holds_all-dedup_after c cs

    holds_any-dedup : (cs : Children Leaf) → holds_any h (dedup_partial_eq kind cs) ≡ holds_any h cs
    unfolding holds dedup_partial_eq
    holds_any-dedup nil = refl
    holds_any-dedup (cons c cs) = holds_any-dedup_after c cs

    holds-finish_and :
        (flat : Option (Children Leaf)) → holds h (finish_and kind flat) ≡ all_of_option h flat
    unfolding holds all_of_option finish_and
    holds-finish_and none = refl
    holds-finish_and (some cs) =
        holds-close_and h (dedup_partial_eq kind (sort_by_bytes kind cs))
        ∙ holds_all-dedup (sort_by_bytes kind cs)
        ∙ holds_all-sort kind h cs

    holds-finish_or :
        (flat : Option (Children Leaf)) → holds h (finish_or kind flat) ≡ any_of_option h flat
    unfolding holds any_of_option finish_or
    holds-finish_or none = refl
    holds-finish_or (some cs) =
        holds-close_or h (dedup_partial_eq kind (sort_by_bytes kind cs))
        ∙ holds_any-dedup (sort_by_bytes kind cs)
        ∙ holds_any-sort kind h cs

    mutual
      unfolding holds canonicalize all_of_option any_of_option

      pub holds-canonicalize : (c : Tree Leaf) → holds h (canonicalize kind c) ≡ holds h c
      holds-canonicalize always = refl
      holds-canonicalize never = refl
      holds-canonicalize (leaf l) = refl
      holds-canonicalize (and_of cs) = holds-finish_and (flatten_and kind cs) ∙ holds-flatten_and cs
      holds-canonicalize (or_of cs) = holds-finish_or (flatten_or kind cs) ∙ holds-flatten_or cs
      holds-canonicalize (not_of c) =
          holds-negate h (canonicalize kind c) ∙ ap not (holds-canonicalize c)

      holds-flatten_and :
          (cs : Children Leaf) → all_of_option h (flatten_and kind cs) ≡ holds_all h cs
      holds-flatten_and nil = refl
      holds-flatten_and (cons c cs) =
          holds-push_and h (canonicalize kind c) (flatten_and kind cs)
          ∙ ap₂ (◌&&◌) (holds-canonicalize c) (holds-flatten_and cs)

      holds-flatten_or :
          (cs : Children Leaf) → any_of_option h (flatten_or kind cs) ≡ holds_any h cs
      holds-flatten_or nil = refl
      holds-flatten_or (cons c cs) =
          holds-push_or h (canonicalize kind c) (flatten_or kind cs)
          ∙ ap₂ (◌||◌) (holds-canonicalize c) (holds-flatten_or cs)

  module _ (v : V) (total : (l : Leaf) → test_leaf l v ≡ some (h l)) where
    mutual
      unfolding holds test

      pub test-holds : (c : Tree Leaf) → test kind c v ≡ some (holds h c)
      test-holds always = refl
      test-holds never = refl
      test-holds (leaf l) = total l
      test-holds (and_of cs) = test_all-holds cs
      test-holds (or_of cs) = test_any-holds cs
      test-holds (not_of c) = rw (test-holds c) refl

      test_all-holds : (cs : Children Leaf) → test_all kind cs v ≡ some (holds_all h cs)
      test_all-holds nil = refl
      test_all-holds (cons c cs) = rw (test-holds c, test_all-holds cs) (ground arith)

      test_any-holds : (cs : Children Leaf) → test_any kind cs v ≡ some (holds_any h cs)
      test_any-holds nil = refl
      test_any-holds (cons c cs) = rw (test-holds c, test_any-holds cs) (ground arith)

    pub test-canonicalize :
        (agree : (a b : Leaf) → same_leaf a b ≡ true → h a ≡ h b) (c : Tree Leaf)
        → test kind (canonicalize kind c) v ≡ test kind c v
    test-canonicalize agree c =
        test-holds (canonicalize kind c) ∙ ap some (holds-canonicalize agree c) ∙ sym (test-holds c)
