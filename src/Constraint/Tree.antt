-- ===== src/Constraint/Tree.antt =====
-- The part that the enums of crates/paramodel-elements/src/constraint.rs share: the combinators
-- around the leaves of a kind (`Kind`), `test`, `and`, `or`, `canonicalize` and the canonical bytes.
-- The source repeats these methods for the kinds Int, Double, String and Selection. A panic of a
-- leaf's test is `none`, and `all` and `any` stop early.
use hyperplane_rs.Prelude.{
  ℕ, suc, Bool, true, false, not, ◌&&◌, Option, none, some, ◌>>=◌, List, [], ◌∷◌, ◌++◌,
  if◌then◌else◌,
}
use hyperplane_rs.Constraint.Bytes.{write_u32_le, leb_bytes}

mutual
  pub data Tree (L : Type 0) : Type 0 where
    always : Tree L
    never : Tree L
    leaf : L → Tree L
    and_of : Children L → Tree L
    or_of : Children L → Tree L
    not_of : Tree L → Tree L

  pub data Children (L : Type 0) : Type 0 where
    nil : Children L
    cons : Tree L → Children L → Children L

-- What the enum of a kind adds: its leaves, their test, derived equality and bytes, and its tags.
pub record Kind : Type 1 where
  pub Leaf : Type 0
  pub V : Type 0
  pub test_leaf : Leaf → V → Option Bool
  pub same_leaf : Leaf → Leaf → Bool
  pub write_leaf : Leaf → List ℕ
  pub tag_always : ℕ
  pub tag_never : ℕ
  pub tag_and : ℕ
  pub tag_or : ℕ
  pub tag_not : ℕ

module _ {L : Type 0} where
  unfoldable pub append : Children L → Children L → Children L
  append nil ds = ds
  append (cons c cs) ds = cons c (append cs ds)

  unfoldable pub count : Children L → ℕ
  count nil = 0
  count (cons c cs) = suc (count cs)

  unfoldable pub absorb_and : Children L → Tree L → Children L
  unfolding append
  absorb_and into (and_of children) = append into children
  absorb_and into other = append into (cons other nil)

  unfoldable pub absorb_or : Children L → Tree L → Children L
  unfolding append
  absorb_or into (or_of children) = append into children
  absorb_or into other = append into (cons other nil)

  unfoldable pub and : Tree L → Tree L → Tree L
  unfolding absorb_and
  and self rhs = and_of (absorb_and (absorb_and nil self) rhs)

  unfoldable pub or : Tree L → Tree L → Tree L
  unfolding absorb_or
  or self rhs = or_of (absorb_or (absorb_or nil self) rhs)

  -- The arms of the `match` of `canonicalize` on a canonical child.
  unfoldable pub negate : Tree L → Tree L
  negate (not_of inner) = inner
  negate always = never
  negate never = always
  negate other = not_of other

  -- One turn of the loops of `canonicalize`. `none` is the early return.
  unfoldable pub push_and : Tree L → Option (Children L) → Option (Children L)
  unfolding append
  push_and always flat = flat
  push_and never flat = none
  push_and (and_of sub) flat = do rest ← flat; some (append sub rest)
  push_and other flat = do rest ← flat; some (cons other rest)

  unfoldable pub push_or : Tree L → Option (Children L) → Option (Children L)
  unfolding append
  push_or never flat = flat
  push_or always flat = none
  push_or (or_of sub) flat = do rest ← flat; some (append sub rest)
  push_or other flat = do rest ← flat; some (cons other rest)

  -- The `match flat.len()` at the end.
  unfoldable pub close_and : Children L → Tree L
  close_and nil = always
  close_and (cons c nil) = c
  close_and (cons c (cons d cs)) = and_of (cons c (cons d cs))

  unfoldable pub close_or : Children L → Tree L
  close_or nil = never
  close_or (cons c nil) = c
  close_or (cons c (cons d cs)) = or_of (cons c (cons d cs))

module _ (kind : Kind) where
  open kind use {
    Leaf, V, test_leaf, same_leaf, write_leaf, tag_always, tag_never, tag_and, tag_or, tag_not,
  }

  unfoldable mutual
    pub test : Tree Leaf → V → Option Bool
    test always v = some true
    test never v = some false
    test (leaf l) v = test_leaf l v
    test (and_of cs) v = test_all cs v
    test (or_of cs) v = test_any cs v
    test (not_of c) v = do b ← test c v; some (not b)

    pub test_all : Children Leaf → V → Option Bool
    test_all nil v = some true
    test_all (cons c cs) v =
        let rest = test_all cs v in test c v >>= (λ b. if b then rest else some false)

    pub test_any : Children Leaf → V → Option Bool
    test_any nil v = some false
    test_any (cons c cs) v =
        let rest = test_any cs v in test c v >>= (λ b. if b then some true else rest)

  -- The derived `PartialEq`.
  unfoldable mutual
    pub same : Tree Leaf → Tree Leaf → Bool
    same always always = true
    same never never = true
    same (leaf a) (leaf b) = same_leaf a b
    same (and_of cs) (and_of ds) = same_children cs ds
    same (or_of cs) (or_of ds) = same_children cs ds
    same (not_of c) (not_of d) = same c d
    same _ _ = false

    pub same_children : Children Leaf → Children Leaf → Bool
    same_children nil nil = true
    same_children (cons c cs) (cons d ds) = same c d && same_children cs ds
    same_children _ _ = false

  unfoldable mutual
    unfolding write_u32_le count

    pub write_canonical : Tree Leaf → List ℕ
    write_canonical always = tag_always ∷ []
    write_canonical never = tag_never ∷ []
    write_canonical (leaf l) = write_leaf l
    write_canonical (and_of cs) = tag_and ∷ write_u32_le (count cs) ++ write_children cs
    write_canonical (or_of cs) = tag_or ∷ write_u32_le (count cs) ++ write_children cs
    write_canonical (not_of c) = tag_not ∷ write_canonical c

    pub write_children : Children Leaf → List ℕ
    write_children nil = []
    write_children (cons c cs) = write_canonical c ++ write_children cs

  unfoldable pub insert_by_bytes : Tree Leaf → Children Leaf → Children Leaf
  unfolding write_canonical leb_bytes
  insert_by_bytes c nil = cons c nil
  insert_by_bytes c (cons d ds) =
      let rest = insert_by_bytes c ds in
      if leb_bytes (write_canonical c) (write_canonical d) then cons c (cons d ds) else cons d rest

  -- The stable `sort_by_cached_key(canonical_bytes)`.
  unfoldable pub sort_by_bytes : Children Leaf → Children Leaf
  unfolding insert_by_bytes
  sort_by_bytes nil = nil
  sort_by_bytes (cons c cs) = insert_by_bytes c (sort_by_bytes cs)

  -- `c` is the element that was kept last.
  unfoldable pub dedup_after : Tree Leaf → Children Leaf → Children Leaf
  unfolding same
  dedup_after c nil = nil
  dedup_after c (cons d ds) =
      let drop = dedup_after c ds in
      let keep = cons d (dedup_after d ds) in if same d c then drop else keep

  unfoldable pub dedup_partial_eq : Children Leaf → Children Leaf
  unfolding dedup_after
  dedup_partial_eq nil = nil
  dedup_partial_eq (cons c cs) = cons c (dedup_after c cs)

  unfoldable pub finish_and : Option (Children Leaf) → Tree Leaf
  unfolding close_and dedup_partial_eq sort_by_bytes
  finish_and none = never
  finish_and (some flat) = close_and (dedup_partial_eq (sort_by_bytes flat))

  unfoldable pub finish_or : Option (Children Leaf) → Tree Leaf
  unfolding close_or dedup_partial_eq sort_by_bytes
  finish_or none = always
  finish_or (some flat) = close_or (dedup_partial_eq (sort_by_bytes flat))

  unfoldable mutual
    unfolding negate finish_and finish_or push_and push_or

    pub canonicalize : Tree Leaf → Tree Leaf
    canonicalize (not_of c) = negate (canonicalize c)
    canonicalize (and_of cs) = finish_and (flatten_and cs)
    canonicalize (or_of cs) = finish_or (flatten_or cs)
    canonicalize c = c

    pub flatten_and : Children Leaf → Option (Children Leaf)
    flatten_and nil = some nil
    flatten_and (cons c cs) = push_and (canonicalize c) (flatten_and cs)

    pub flatten_or : Children Leaf → Option (Children Leaf)
    flatten_or nil = some nil
    flatten_or (cons c cs) = push_or (canonicalize c) (flatten_or cs)
