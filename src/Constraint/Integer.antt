-- ===== src/Constraint/Integer.antt =====
-- `IntConstraint` of crates/paramodel-elements/src/constraint.rs. An `i64` is a `ℤ`; an ordered set
-- is the list of its elements in ascending order.
use hyperplane_rs.Prelude.{
  ℕ, zero, suc, ◌≡◌, ◌≢◌, refl, ap, ap₂, Bool, true, false, not, ◌&&◌, Option, none, some, ◌>>=◌,
  List, [], ◌∷◌, ◌++◌, any, length, Bool-cases, inl, inr, same_list, same_list→≡, arith,
  if◌then◌else◌,
}
use hyperplane_rs.Prelude.Ints.{ℤ, pos, negsuc, leb_int, same_int, same_int→≡, i64_min, rem, to_u64}
use hyperplane_rs.Constraint.Bytes.{le_bytes, write_u32_le}
use hyperplane_rs.Constraint.Tree
use hyperplane_rs.Constraint.Tree.{Kind}

pub data IntLeaf : Type 0 where
  min : ℤ → IntLeaf
  max : ℤ → IntLeaf
  range : ℤ → ℤ → IntLeaf
  in_set : List ℤ → IntLeaf
  not_in_set : List ℤ → IntLeaf
  multiple : ℤ → IntLeaf

-- The constructor that refuses 0.
unfoldable pub new_multiple : ℤ → Option IntLeaf
unfolding same_int
new_multiple n = if same_int n (pos 0) then none else some (multiple n)

unfoldable pub test_int : IntLeaf → ℤ → Option Bool
unfolding leb_int same_int rem
test_int (min n) value = some (leb_int n value)
test_int (max n) value = some (leb_int value n)
test_int (range lo hi) value = some (leb_int lo value && leb_int value hi)
test_int (in_set values) value = some (any (same_int value) values)
test_int (not_in_set values) value = some (not (any (same_int value) values))
test_int (multiple n) value =
    if same_int n (pos 0) then some false else (rem value n >>= (λ r. some (same_int r (pos 0))))

unfoldable pub same_int_leaf : IntLeaf → IntLeaf → Bool
unfolding same_int
same_int_leaf (min a) (min b) = same_int a b
same_int_leaf (max a) (max b) = same_int a b
same_int_leaf (range a c) (range b d) = same_int a b && same_int c d
same_int_leaf (in_set a) (in_set b) = same_list same_int a b
same_int_leaf (not_in_set a) (not_in_set b) = same_list same_int a b
same_int_leaf (multiple a) (multiple b) = same_int a b
same_int_leaf _ _ = false

unfoldable pub write_i64_le : ℤ → List ℕ
unfolding le_bytes to_u64
write_i64_le v = le_bytes 8 (to_u64 v)

unfoldable pub write_i64s : List ℤ → List ℕ
unfolding write_i64_le
write_i64s [] = []
write_i64s (v ∷ values) = write_i64_le v ++ write_i64s values

unfoldable pub write_i64_set : List ℤ → List ℕ
unfolding write_i64s write_u32_le
write_i64_set values = write_u32_le (length values) ++ write_i64s values

unfoldable pub write_int_leaf : IntLeaf → List ℕ
unfolding write_i64_le write_i64_set
write_int_leaf (min n) = 18 ∷ write_i64_le n
write_int_leaf (max n) = 19 ∷ write_i64_le n
write_int_leaf (range lo hi) = 20 ∷ write_i64_le lo ++ write_i64_le hi
write_int_leaf (in_set values) = 21 ∷ write_i64_set values
write_int_leaf (not_in_set values) = 22 ∷ write_i64_set values
write_int_leaf (multiple n) = 23 ∷ write_i64_le n

abbrev pub int_kind : Kind
int_kind = record {
  Leaf = IntLeaf;
  V = ℤ;
  test_leaf = test_int;
  same_leaf = same_int_leaf;
  write_leaf = write_int_leaf;
  tag_always = 16;
  tag_never = 17;
  tag_and = 24;
  tag_or = 25;
  tag_not = 26;
}

abbrev pub IntConstraint : Type 0
IntConstraint = Tree.Tree IntLeaf

abbrev pub test : IntConstraint → ℤ → Option Bool
test c value = Tree.test int_kind c value

abbrev pub canonicalize : IntConstraint → IntConstraint
canonicalize c = Tree.canonicalize int_kind c

abbrev pub canonical_bytes : IntConstraint → List ℕ
canonical_bytes c = Tree.write_canonical int_kind c

pub same_int_leaf→≡ : (a b : IntLeaf) → same_int_leaf a b ≡ true → a ≡ b
unfolding same_int_leaf
same_int_leaf→≡ (min a) (min b) h = ap min (same_int→≡ a b h)
same_int_leaf→≡ (max a) (max b) h = ap max (same_int→≡ a b h)
same_int_leaf→≡ (range a c) (range b d) h =
    ap₂ range (same_int→≡ a b (ground arith)) (same_int→≡ c d (ground arith))
same_int_leaf→≡ (in_set a) (in_set b) h = ap in_set (same_list→≡ same_int same_int→≡ a b h)
same_int_leaf→≡ (not_in_set a) (not_in_set b) h =
    ap not_in_set (same_list→≡ same_int same_int→≡ a b h)
same_int_leaf→≡ (multiple a) (multiple b) h = ap multiple (same_int→≡ a b h)
same_int_leaf→≡ _ _ h = ground arith

rem-eq-some : (v n : ℤ) → v ≢ i64_min → same_int n (pos 0) ≡ false → (r : ℤ) × (rem v n ≡ some r)
unfolding rem same_int
rem-eq-some v (pos zero) h z = ground arith
rem-eq-some (pos a) (pos (suc b)) h z = (_, refl)
rem-eq-some (negsuc a) (pos (suc b)) h z = (_, refl)
rem-eq-some (pos a) (negsuc b) h z = (_, refl)
rem-eq-some (negsuc a) (negsuc b) h z = elim (Bool-cases (same_int (negsuc a) i64_min)) [
  | inl t ↦ absurd (h (same_int→≡ (negsuc a) i64_min t))
  | inr f ↦ rw f (_, refl)
]

pub test_int-eq-some : (v : ℤ) → v ≢ i64_min → (l : IntLeaf) → (b : Bool) × (test_int l v ≡ some b)
unfolding test_int
test_int-eq-some v h (min n) = (_, refl)
test_int-eq-some v h (max n) = (_, refl)
test_int-eq-some v h (range lo hi) = (_, refl)
test_int-eq-some v h (in_set values) = (_, refl)
test_int-eq-some v h (not_in_set values) = (_, refl)
test_int-eq-some v h (multiple n) = elim (Bool-cases (same_int n (pos 0))) [
  | inl t ↦ rw t (_, refl)
  | inr f ↦ rw f (rw ((rem-eq-some v n h f).1) (_, refl))
]

abbrev or_false : Option Bool → Bool
or_false none = false
or_false (some b) = b

known : (o : Option Bool) → (b : Bool) × (o ≡ some b) → o ≡ some (or_false o)
known none h = ground arith
known (some b) h = refl

-- The answer of a leaf; `false` where it panics.
abbrev pub int_answer : ℤ → IntLeaf → Bool
int_answer v l = or_false (test_int l v)

pub test_int-answer : (v : ℤ) → v ≢ i64_min → (l : IntLeaf) → test_int l v ≡ some (int_answer v l)
test_int-answer v h l = known (test_int l v) (test_int-eq-some v h l)
