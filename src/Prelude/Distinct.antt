-- ===== src/Prelude/Distinct.antt =====
-- Lists of identifiers without repetition, maps with increasing keys, and counting.
use Prim.Native.Nat.{ℕ, suc, ◌≤◌, ◌<◌}
use mathlib.Core.Path.{◌≡◌, refl}
use mathlib.Core.Logic.{inl, inr}
use mathlib.Core.Bool.{true, false}
use mathlib.Core.List.{List, [], ◌∷◌}
use native.Mathlib.Omega.{arith}
use hyperplane_rs.Prelude.Tests.{Bool-cases}
use hyperplane_rs.Prelude.Lists.{length, All}
use hyperplane_rs.Prelude.IdSet.{mem, insert, remove, mem-insert, mem-remove, put}

abbrev pub NoDup : List ℕ → Type 0
NoDup [] = Unit
NoDup (x ∷ xs) = (mem x xs ≡ false) × NoDup xs

length-remove-le : (x : ℕ) (ys : List ℕ) → length (remove x ys) ≤ length ys
unfolding remove
length-remove-le x [] = omega arith
length-remove-le x (y ∷ ys) = ground (arith, length-remove-le x ys)

length-remove : (x : ℕ) (ys : List ℕ) → mem x ys ≡ true → length (remove x ys) < length ys
unfolding remove mem
length-remove x [] h = absurd (ground arith)
length-remove x (y ∷ ys) h = ground (arith, length-remove x ys, length-remove-le x ys)

-- A list without repetition is no longer than a list that has all of its members.
pub length-le_of_subset :
    (xs ys : List ℕ)
    → NoDup xs
    → ((x : ℕ) → mem x xs ≡ true → mem x ys ≡ true)
    → length xs ≤ length ys
unfolding mem
length-le_of_subset [] ys n h = omega arith
length-le_of_subset (x ∷ xs) ys n h =
    let rest =
      length-le_of_subset xs (remove x ys) n.1 (λ y m. ground (arith, h y, mem-remove y x ys)) in
    let fewer = length-remove x ys (h x (ground arith)) in omega arith

-- Where it is as long, it has all of their members.
pub subset_of_length :
    (xs ys : List ℕ)
    → NoDup xs
    → ((x : ℕ) → mem x xs ≡ true → mem x ys ≡ true)
    → length ys ≤ length xs
    → (y : ℕ) → mem y ys ≡ true
    → mem y xs ≡ true
unfolding mem
subset_of_length xs ys n h long y m = elim (Bool-cases (mem y xs)) [
  | inl t ↦ t
  | inr f ↦
      let more = length-le_of_subset (y ∷ xs) ys (f, n) (λ z e. ground (arith, h z)) in
      absurd (omega arith)
]

module _ {ℓ} {V : Type ℓ} where
  -- The keys of a map stand in increasing order.
  abbrev pub Increasing : List (ℕ × V) → Type 0
  Increasing [] = Unit
  Increasing ((k, v) ∷ m) = All (λ e. k < e.0) m × Increasing m

  All-put :
      (j k : ℕ) (v : V) (m : List (ℕ × V))
      → j < k
      → All (λ e. j < e.0) m
      → All (λ e. j < e.0) (put k v m)
  unfolding put
  All-put j k v [] lt h = ground arith
  All-put j k v ((i, w) ∷ m) lt h = ground (arith, All-put j k v m)

  All-weaken : (j k : ℕ) (m : List (ℕ × V)) → j < k → All (λ e. k < e.0) m → All (λ e. j < e.0) m
  All-weaken j k [] lt h = tt
  All-weaken j k (e ∷ m) lt h = (omega arith, All-weaken j k m lt h.1)

  pub put-Increasing : (k : ℕ) (v : V) (m : List (ℕ × V)) → Increasing m → Increasing (put k v m)
  unfolding put
  put-Increasing k v [] h = (tt, tt)
  put-Increasing k v ((j, w) ∷ m) h =
      ground (arith, put-Increasing k v m, All-put j k v m, All-weaken k j m)

pub length-insert : (x : ℕ) (s : List ℕ) → mem x s ≡ false → length (insert x s) ≡ suc (length s)
unfolding insert mem
length-insert x [] h = refl
length-insert x (y ∷ s) h = ground (arith, length-insert x s)

pub insert-NoDup : (x : ℕ) (s : List ℕ) → mem x s ≡ false → NoDup s → NoDup (insert x s)
unfolding insert mem
insert-NoDup x [] h n = (refl, tt)
insert-NoDup x (y ∷ s) h n = ground (arith, insert-NoDup x s, mem-insert y x s)
