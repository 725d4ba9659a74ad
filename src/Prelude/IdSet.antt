-- ===== src/Prelude/IdSet.antt =====
-- Ordered sets (`BTreeSet`) and maps (`BTreeMap`) over identifiers. An identifier is a number that
-- stands for its string, in the order of the strings; a set is its increasing list.
use hyperplane_rs.Prelude.Tests.{ltb, ◌==◌, Bool-cases, if◌then◌else◌}
use Prim.Native.Nat.{ℕ}
use mathlib.Core.Path.{◌≡◌, refl}
use mathlib.Core.Logic.{◌⊎◌, inl, inr}
use mathlib.Core.Bool.{Bool, true, false, ◌||◌}
use mathlib.Core.Option.{Option, none, some}
use mathlib.Core.List.{List, [], ◌∷◌, ◌++◌, reverse, reverse-cons}
use hyperplane_rs.Prelude.Lists.{all}
use native.Mathlib.Omega.{arith}

unfoldable pub mem : ℕ → List ℕ → Bool
mem x [] = false
mem x (y ∷ ys) = if x == y then true else mem x ys

unfoldable pub insert : ℕ → List ℕ → List ℕ
insert x [] = x ∷ []
insert x (y ∷ ys) = if x == y then y ∷ ys else if ltb x y then x ∷ y ∷ ys else y ∷ insert x ys

unfoldable pub remove : ℕ → List ℕ → List ℕ
remove x [] = []
remove x (y ∷ ys) = if x == y then remove x ys else y ∷ remove x ys

unfoldable pub union : List ℕ → List ℕ → List ℕ
unfolding insert
union [] ys = ys
union (x ∷ xs) ys = insert x (union xs ys)

pub mem-insert : (j k : ℕ) (s : List ℕ) → mem j (insert k s) ≡ (if j == k then true else mem j s)
unfolding mem insert
mem-insert j k [] = refl
mem-insert j k (y ∷ ys) = ground (arith, mem-insert j k ys)

pub mem-remove : (j k : ℕ) (s : List ℕ) → mem j (remove k s) ≡ (if j == k then false else mem j s)
unfolding mem remove
mem-remove j k [] = ground arith
mem-remove j k (y ∷ ys) = ground (arith, mem-remove j k ys)

pub mem-append : (j : ℕ) (xs ys : List ℕ) → mem j (xs ++ ys) ≡ mem j xs || mem j ys
unfolding mem
mem-append j [] ys = refl
mem-append j (x ∷ xs) ys = ground (arith, mem-append j xs ys)

pub mem-union : (j : ℕ) (xs ys : List ℕ) → mem j (union xs ys) ≡ mem j xs || mem j ys
unfolding mem union
mem-union j [] ys = refl
mem-union j (x ∷ xs) ys = ground (arith, mem-insert j x (union xs ys), mem-union j xs ys)

-- `entry` and `insert` replace the value of a key that is there.
module _ {ℓ} {V : Type ℓ} where
  unfoldable pub lookup : ℕ → List (ℕ × V) → Option V
  lookup k [] = none
  lookup k ((j, v) ∷ m) = if k == j then some v else lookup k m

  unfoldable pub put : ℕ → V → List (ℕ × V) → List (ℕ × V)
  put k v [] = (k, v) ∷ []
  put k v ((j, w) ∷ m) =
      if k == j then (k, v) ∷ m else if ltb k j then (k, v) ∷ (j, w) ∷ m else (j, w) ∷ put k v m

  pub lookup-put :
      (j k : ℕ) (v : V) (m : List (ℕ × V))
      → lookup j (put k v m) ≡ (if j == k then some v else lookup j m)
  unfolding lookup put
  lookup-put j k v [] = refl
  lookup-put j k v ((i, w) ∷ m) = ground (arith, lookup-put j k v m)

-- Where a test grows by `x` alone, a list that passes it now and did not before holds `x`.
pub mem_of_all_grown :
    (p q : ℕ → Bool) (x : ℕ) (ds : List ℕ)
    → ((d : ℕ) → q d ≡ true → (p d ≡ true) ⊎ (d ≡ x))
    → all p ds ≡ false
    → all q ds ≡ true
    → mem x ds ≡ true
unfolding mem
mem_of_all_grown p q x [] grow h k = cc
mem_of_all_grown p q x (d ∷ ds) grow h k = elim (grow d (ground arith)) [
  | inl old ↦ ground (arith, mem_of_all_grown p q x ds grow)
  | inr e ↦ ground arith
]

pub all_mono :
    (p q : ℕ → Bool) (ds : List ℕ)
    → ((d : ℕ) → p d ≡ true → q d ≡ true)
    → all p ds ≡ true
    → all q ds ≡ true
all_mono p q [] grow h = refl
all_mono p q (d ∷ ds) grow h = ground (arith, grow d, all_mono p q ds grow)

-- Some member of the list fails a test that not all of them pass.
pub failing :
    (p : ℕ → Bool) (ds : List ℕ) → all p ds ≡ false → (d : ℕ) × (mem d ds ≡ true) × (p d ≡ false)
unfolding mem
failing p [] h = absurd (ground arith)
failing p (d ∷ ds) h = elim (Bool-cases (p d)) [
  | inl good ↦ let (e, m, bad) = failing p ds (ground arith) in (e, ground arith, bad)
  | inr bad ↦ (d, ground arith, bad)
]

pub all_at : (p : ℕ → Bool) (ds : List ℕ) (d : ℕ) → all p ds ≡ true → mem d ds ≡ true → p d ≡ true
unfolding mem
all_at p [] d h m = cc
all_at p (e ∷ ds) d h m = ground (arith, all_at p ds d)

pub mem-reverse : (j : ℕ) (xs : List ℕ) → mem j (reverse xs) ≡ mem j xs
unfolding mem
mem-reverse j [] = refl
mem-reverse j (x ∷ xs) =
    rw (reverse-cons x xs) (ground (arith, mem-append j (reverse xs) (x ∷ []), mem-reverse j xs))
