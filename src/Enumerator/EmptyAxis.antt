-- ===== src/Enumerator/EmptyAxis.antt =====
-- What an empty axis does to the enumerator.
use hyperplane_rs.Prelude.{
  ℕ, ◌*◌, ◌%◌, ◌≡◌, ◌≢◌, refl, ap, none, ◌⊎◌, inl, inr, List, [], ◌∷◌, arith,
}
use hyperplane_rs.Prelude.Arith.{u64_mod}
use hyperplane_rs.Enumerator.{
  of_cardinalities, offsets, offsets_from, offset, product_from, at_least_one, compute_strides,
  next_stride,
}

abbrev pub HasEmpty : List ℕ → Type 0
HasEmpty [] = ⊥
HasEmpty (c ∷ cs) = (c ≡ 0) ⊎ HasEmpty cs

product_from_empty : (acc : ℕ) (cs : List ℕ) → (acc ≡ 0) ⊎ HasEmpty cs → product_from acc cs ≡ 0
unfolding product_from
product_from_empty acc [] (inl e) = e
product_from_empty acc [] (inr h) = absurd h
product_from_empty acc (c ∷ cs) (inl e) =
    product_from_empty (acc * c % u64_mod) cs (inl (rw e (omega arith)))
product_from_empty acc (c ∷ cs) (inr (inl e)) =
    product_from_empty (acc * c % u64_mod) cs (inl (rw e (omega arith)))
product_from_empty acc (c ∷ cs) (inr (inr h)) = product_from_empty (acc * c % u64_mod) cs (inr h)

zero_stride : (s c : ℕ) → (s ≡ 0) ⊎ (c ≡ 0) → s * c % u64_mod ≡ 0
zero_stride s c (inl e) = rw e (omega arith)
zero_stride s c (inr e) = rw e (omega arith)

strides_empty :
    (b : ℕ) (cs : List ℕ) → HasEmpty cs → (ss : List ℕ) × (compute_strides (b ∷ cs) ≡ 0 ∷ ss)
unfolding compute_strides
strides_empty b [] h = absurd h
strides_empty b (c ∷ []) (inl e) = (1 ∷ [], ap (λ n. n ∷ 1 ∷ []) (zero_stride 1 c (inr e)))
strides_empty b (c ∷ d ∷ cs) (inl e) =
    let rest = compute_strides (c ∷ d ∷ cs) in
    (rest, ap (λ n. n ∷ rest) (zero_stride (next_stride d (compute_strides (d ∷ cs))) c (inr e)))
strides_empty b (c ∷ cs) (inr h) =
    let (ss, e) = strides_empty c cs h in
    (0 ∷ ss, rw (e, next_stride) (ap (λ n. n ∷ 0 ∷ ss) (zero_stride 0 c (inl refl))))

-- An empty axis somewhere behind a non-empty first axis: the enumerator counts one trial, and
-- `offsets` panics at every index, that of the one trial included.
pub offsets_empty_axis :
    (b : ℕ) (cs : List ℕ) (t : ℕ)
    → b ≢ 0
    → HasEmpty cs
    → ((of_cardinalities (b ∷ cs)).trial_count ≡ 1) × (offsets (of_cardinalities (b ∷ cs)) t ≡ none)
unfolding offsets of_cardinalities offsets_from offset at_least_one
offsets_empty_axis b cs t hb h =
    let (ss, e) = strides_empty b cs h in
    (ground (arith, product_from_empty 1 (b ∷ cs) (inr (inr h))), ground (arith, e))
