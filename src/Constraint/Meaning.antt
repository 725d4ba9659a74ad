-- ===== src/Constraint/Meaning.antt =====
-- The Boolean reading of a tree at a value where no leaf's test panics, and the steps of
-- `canonicalize` under it.
use hyperplane_rs.Prelude.{
  ◌≡◌, refl, Bool, true, false, not, ◌&&◌, ◌||◌, Option, none, some, arith, ap, ap₂, if_ind,
}
use hyperplane_rs.Constraint.Bytes.{leb_bytes}
use hyperplane_rs.Constraint.Tree.{
  Tree, always, never, leaf, and_of, or_of, not_of, Children, nil, cons, Kind, append, negate,
  push_and, push_or, close_and, close_or, write_canonical, insert_by_bytes, sort_by_bytes, same,
  same_children,
}

module _ {L : Type 0} (h : L → Bool) where
  unfoldable mutual
    pub holds : Tree L → Bool
    holds always = true
    holds never = false
    holds (leaf l) = h l
    holds (and_of cs) = holds_all cs
    holds (or_of cs) = holds_any cs
    holds (not_of c) = not (holds c)

    pub holds_all : Children L → Bool
    holds_all nil = true
    holds_all (cons c cs) = holds c && holds_all cs

    pub holds_any : Children L → Bool
    holds_any nil = false
    holds_any (cons c cs) = holds c || holds_any cs

  unfoldable pub all_of_option : Option (Children L) → Bool
  unfolding holds
  all_of_option none = false
  all_of_option (some cs) = holds_all cs

  unfoldable pub any_of_option : Option (Children L) → Bool
  unfolding holds
  any_of_option none = true
  any_of_option (some cs) = holds_any cs

  pub holds_all-append :
      (cs ds : Children L) → holds_all (append cs ds) ≡ (holds_all cs && holds_all ds)
  unfolding holds append
  holds_all-append nil ds = refl
  holds_all-append (cons c cs) ds = ground (arith, holds_all-append cs ds)

  pub holds_any-append :
      (cs ds : Children L) → holds_any (append cs ds) ≡ (holds_any cs || holds_any ds)
  unfolding holds append
  holds_any-append nil ds = refl
  holds_any-append (cons c cs) ds = ground (arith, holds_any-append cs ds)

  pub holds-negate : (c : Tree L) → holds (negate c) ≡ not (holds c)
  unfolding holds negate
  holds-negate always = refl
  holds-negate never = refl
  holds-negate (leaf l) = refl
  holds-negate (and_of cs) = refl
  holds-negate (or_of cs) = refl
  holds-negate (not_of c) = ground arith

  pub holds-push_and :
      (c : Tree L) (flat : Option (Children L))
      → all_of_option (push_and c flat) ≡ (holds c && all_of_option flat)
  unfolding holds all_of_option push_and
  holds-push_and always flat = refl
  holds-push_and never flat = refl
  holds-push_and (and_of cs) (some ds) = holds_all-append cs ds
  holds-push_and (and_of cs) none = ground arith
  holds-push_and (leaf l) (some ds) = refl
  holds-push_and (leaf l) none = ground arith
  holds-push_and (or_of cs) (some ds) = refl
  holds-push_and (or_of cs) none = ground arith
  holds-push_and (not_of c) (some ds) = refl
  holds-push_and (not_of c) none = ground arith

  pub holds-push_or :
      (c : Tree L) (flat : Option (Children L))
      → any_of_option (push_or c flat) ≡ (holds c || any_of_option flat)
  unfolding holds any_of_option push_or
  holds-push_or always flat = refl
  holds-push_or never flat = refl
  holds-push_or (or_of cs) (some ds) = holds_any-append cs ds
  holds-push_or (or_of cs) none = ground arith
  holds-push_or (leaf l) (some ds) = refl
  holds-push_or (leaf l) none = ground arith
  holds-push_or (and_of cs) (some ds) = refl
  holds-push_or (and_of cs) none = ground arith
  holds-push_or (not_of c) (some ds) = refl
  holds-push_or (not_of c) none = ground arith

  pub holds-close_and : (cs : Children L) → holds (close_and cs) ≡ holds_all cs
  unfolding holds close_and
  holds-close_and nil = refl
  holds-close_and (cons c nil) = ground arith
  holds-close_and (cons c (cons d cs)) = refl

  pub holds-close_or : (cs : Children L) → holds (close_or cs) ≡ holds_any cs
  unfolding holds close_or
  holds-close_or nil = refl
  holds-close_or (cons c nil) = ground arith
  holds-close_or (cons c (cons d cs)) = refl

module _ (kind : Kind) (h : kind.Leaf → Bool) where
  open kind use {Leaf, V, test_leaf, same_leaf}

  pub holds_all-insert :
      (c : Tree Leaf) (ds : Children Leaf)
      → holds_all h (insert_by_bytes kind c ds) ≡ (holds h c && holds_all h ds)
  unfolding holds insert_by_bytes
  holds_all-insert c nil = refl
  holds_all-insert c (cons d ds) =
      if_ind (λ es. holds_all h es ≡ (holds h c && holds_all h (cons d ds)))
        (leb_bytes (write_canonical kind c) (write_canonical kind d)) refl
        (ground (arith, holds_all-insert c ds))

  pub holds_any-insert :
      (c : Tree Leaf) (ds : Children Leaf)
      → holds_any h (insert_by_bytes kind c ds) ≡ (holds h c || holds_any h ds)
  unfolding holds insert_by_bytes
  holds_any-insert c nil = refl
  holds_any-insert c (cons d ds) =
      if_ind (λ es. holds_any h es ≡ (holds h c || holds_any h (cons d ds)))
        (leb_bytes (write_canonical kind c) (write_canonical kind d)) refl
        (ground (arith, holds_any-insert c ds))

  pub holds_all-sort : (cs : Children Leaf) → holds_all h (sort_by_bytes kind cs) ≡ holds_all h cs
  unfolding holds sort_by_bytes
  holds_all-sort nil = refl
  holds_all-sort (cons c cs) =
      ground (arith, holds_all-insert c (sort_by_bytes kind cs), holds_all-sort cs)

  pub holds_any-sort : (cs : Children Leaf) → holds_any h (sort_by_bytes kind cs) ≡ holds_any h cs
  unfolding holds sort_by_bytes
  holds_any-sort nil = refl
  holds_any-sort (cons c cs) =
      ground (arith, holds_any-insert c (sort_by_bytes kind cs), holds_any-sort cs)

  module _ (agree : (a b : Leaf) → same_leaf a b ≡ true → h a ≡ h b) where
    mutual
      unfolding same holds

      pub same→holds : (c d : Tree Leaf) → same kind c d ≡ true → holds h c ≡ holds h d
      same→holds always always e = refl
      same→holds never never e = refl
      same→holds (leaf a) (leaf b) e = agree a b e
      same→holds (and_of cs) (and_of ds) e = same→holds_all cs ds e
      same→holds (or_of cs) (or_of ds) e = same→holds_any cs ds e
      same→holds (not_of c) (not_of d) e = ap not (same→holds c d e)
      same→holds _ _ e = ground arith

      same→holds_all :
          (cs ds : Children Leaf)
          → same_children kind cs ds ≡ true
          → holds_all h cs ≡ holds_all h ds
      same→holds_all nil nil e = refl
      same→holds_all (cons c cs) (cons d ds) e =
          ap₂ (◌&&◌) (same→holds c d (ground arith)) (same→holds_all cs ds (ground arith))
      same→holds_all _ _ e = ground arith

      same→holds_any :
          (cs ds : Children Leaf)
          → same_children kind cs ds ≡ true
          → holds_any h cs ≡ holds_any h ds
      same→holds_any nil nil e = refl
      same→holds_any (cons c cs) (cons d ds) e =
          ap₂ (◌||◌) (same→holds c d (ground arith)) (same→holds_any cs ds (ground arith))
      same→holds_any _ _ e = ground arith
