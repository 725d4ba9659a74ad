-- ===== src/Enumerator/RoundTrip.antt =====
-- About `offsets` and `trial_index`, one after the other.
use native.Mathlib.Nat.{mod-eq_of_lt}
use hyperplane_rs.Prelude.{ℕ, ◌<◌, ◌≡◌, ap, ◌∙◌, some, List, lt→ltb, arith}
use hyperplane_rs.Prelude.Arith.{u64_mod}
use hyperplane_rs.Enumerator.{
  of_cardinalities, offsets, trial_index, weigh, product_from, at_least_one,
}
use hyperplane_rs.Enumerator.Radix.{
  prod, weights, digits, ArePositive, Within, prod_pos, product_from-eq, compute_strides-weights,
  digits-Within, offsets_from-digits, weigh-digits, weigh-lt, digits-weigh,
}

at_least_one_pos : (n : ℕ) → 0 < n → at_least_one n ≡ n
unfolding at_least_one
at_least_one_pos n h = ground arith

module _ (cs : List ℕ) (h : ArePositive cs) (fits : prod cs < u64_mod) where
  pub trial_count-prod : (of_cardinalities cs).trial_count ≡ prod cs
  unfolding of_cardinalities
  trial_count-prod =
      let e : product_from 1 cs ≡ prod cs = omega (arith, product_from-eq 1 cs h (omega arith)) in
      rw e (at_least_one_pos (prod cs) (prod_pos cs h))

  pub strides-weights : (of_cardinalities cs).strides ≡ weights cs
  unfolding of_cardinalities
  strides-weights = compute_strides-weights cs h fits

  pub trial_index-weigh :
      (os : List ℕ) → trial_index (of_cardinalities cs) os ≡ weigh os (weights cs)
  unfolding trial_index
  trial_index-weigh os = rw strides-weights

  pub offsets-digits : (t : ℕ) → t < prod cs → offsets (of_cardinalities cs) t ≡ some (digits t cs)
  unfolding offsets of_cardinalities
  offsets-digits t lt =
      rw (trial_count-prod, lt→ltb t (prod cs) lt, strides-weights) (offsets_from-digits t cs h)

-- With no empty axis and fewer than 2^64 trials, `offsets` succeeds at every trial index below the
-- trial count, gives one offset below the cardinality of each axis, and `trial_index` takes the
-- offsets back to the index.
pub trial_index-offsets :
    (cs : List ℕ) (t : ℕ)
    → ArePositive cs
    → prod cs < u64_mod
    → t < (of_cardinalities cs).trial_count
    → (os : List ℕ) × (offsets (of_cardinalities cs) t ≡ some os)
      × Within os cs
      × (trial_index (of_cardinalities cs) os ≡ t)
trial_index-offsets cs t h fits lt =
    let lt' : t < prod cs = omega (arith, trial_count-prod cs h fits) in
    (
      digits t cs,
      offsets-digits cs h fits t lt',
      digits-Within t cs h,
      trial_index-weigh cs h fits (digits t cs) ∙ weigh-digits t cs h fits ∙ mod-eq_of_lt lt',
    )

-- With no empty axis and fewer than 2^64 trials, every choice of one offset below the cardinality
-- of each axis has a trial index below the trial count, and `offsets` gives that choice back.
pub offsets-trial_index :
    (cs os : List ℕ)
    → ArePositive cs
    → prod cs < u64_mod
    → Within os cs
    → (trial_index (of_cardinalities cs) os < (of_cardinalities cs).trial_count)
      × (offsets (of_cardinalities cs) (trial_index (of_cardinalities cs) os) ≡ some os)
offsets-trial_index cs os h fits w =
    let below = weigh-lt os cs h fits w in
    rw (trial_index-weigh cs h fits os) (
      rw (trial_count-prod cs h fits) below,
      offsets-digits cs h fits _ below ∙ ap some (digits-weigh os cs h fits w),
    )
