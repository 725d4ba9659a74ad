-- ===== src/Enumerator.antt =====
-- crates/paramodel-compiler/src/enumerator.rs: trial indices as numbers of a mixed radix system
-- whose digits are the positions on the axes. `u64` products and sums wrap, as in a release build.
-- A panic is `none`: the assertion of `offsets`, and its division by a stride that is 0.
mod Radix
pub mod RoundTrip
pub mod Codes
pub mod EmptyAxis
mod Examples
use hyperplane_rs.Prelude.{
  ℕ, zero, suc, ◌+◌, ◌-◌, ◌*◌, ◌/◌, ◌%◌, Option, none, some, List, [], ◌∷◌, ◌++◌, map, ltb, leb,
  ◌==◌, if◌then◌else◌, ◌>>=◌,
}
use hyperplane_rs.Prelude.Arith.{u32_clamp, u64_mod}
use hyperplane_rs.Plan.Axis.{Axis, cardinality}

pub record MixedRadixEnumerator : Type 0 where
  pub cardinalities : List ℕ  -- u32
  pub strides : List ℕ  -- u64
  pub trial_count : ℕ  -- u64
  pub digit_bits : ℕ  -- u8

-- `product::<u64>()`.
unfoldable pub product_from : ℕ → List ℕ → ℕ
product_from acc [] = acc
product_from acc (c ∷ cs) = product_from (acc * c % u64_mod) cs

-- `iter().max()`.
unfoldable pub max_from : ℕ → List ℕ → ℕ
max_from m [] = m
max_from m (c ∷ cs) = max_from (if ltb c m then m else c) cs

unfoldable pub max_or_one : List ℕ → ℕ
unfolding max_from
max_or_one [] = 1
max_or_one (c ∷ cs) = max_from c cs

-- The stride to the left of an axis of cardinality `c` whose own stride heads the list.
unfoldable pub next_stride : ℕ → List ℕ → ℕ
next_stride c [] = 1
next_stride c (s ∷ ss) = s * c % u64_mod

-- The loop runs from the last axis to the first, as the recursion returns.
unfoldable pub compute_strides : List ℕ → List ℕ
unfolding next_stride
compute_strides [] = []
compute_strides (_ ∷ []) = 1 ∷ []
compute_strides (_ ∷ c ∷ cs) = let rest = compute_strides (c ∷ cs) in next_stride c rest ∷ rest

unfoldable pub at_least_one : ℕ → ℕ
at_least_one n = if n == 0 then 1 else n

unfoldable pub of_cardinalities : List ℕ → MixedRadixEnumerator
unfolding product_from max_or_one compute_strides at_least_one
of_cardinalities cs = record {
  cardinalities = cs;
  strides = compute_strides cs;
  trial_count = at_least_one (product_from 1 cs);
  digit_bits = if leb (max_or_one cs) 16 then 4 else 8;
}

unfoldable pub new : {V : Type 0} → List (Axis V) → MixedRadixEnumerator
unfolding of_cardinalities cardinality
new axes = of_cardinalities (map (λ a. u32_clamp (cardinality a)) axes)

-- One digit: `none` where the division panics.
unfoldable pub offset : ℕ → ℕ → ℕ → Option ℕ
offset trial_index c s =
    if c == 0 then some 0 else if s == 0 then none else some (u32_clamp (trial_index / s % c))

unfoldable pub offsets_from : ℕ → List ℕ → List ℕ → Option (List ℕ)
unfolding offset
offsets_from trial_index (c ∷ cs) (s ∷ ss) = do
  o ← offset trial_index c s
  os ← offsets_from trial_index cs ss
  some (o ∷ os)
offsets_from _ _ _ = some []

unfoldable pub offsets : MixedRadixEnumerator → ℕ → Option (List ℕ)
unfolding offsets_from
offsets e trial_index =
    if ltb trial_index e.trial_count
    then offsets_from trial_index e.cardinalities e.strides
    else none

unfoldable pub weigh : List ℕ → List ℕ → ℕ
weigh (o ∷ os) (s ∷ ss) = (o * s % u64_mod + weigh os ss) % u64_mod
weigh _ _ = 0

unfoldable pub trial_index : MixedRadixEnumerator → List ℕ → ℕ
unfolding weigh
trial_index e offsets = weigh offsets e.strides

unfoldable pub hex_digit : ℕ → ℕ
hex_digit d = if ltb d 10 then b'0' + d else b'a' + d - 10

-- The digits of a number behind its lowest one. Seven more are enough for a `u32`.
unfoldable pub hex_above : ℕ → ℕ → List ℕ → List ℕ
unfolding hex_digit
hex_above zero n out = out
hex_above (suc fuel) n out =
    let more = hex_above fuel (n / 16) (hex_digit (n % 16) ∷ out) in if n == 0 then out else more

-- `{:x}` and `{:02x}`.
unfoldable pub hex : ℕ → List ℕ
unfolding hex_above
hex n = hex_above 7 (n / 16) (hex_digit (n % 16) ∷ [])

unfoldable pub hex_padded : ℕ → List ℕ
unfolding hex
hex_padded n = if ltb n 16 then b'0' ∷ hex n else hex n

unfoldable pub write_digits : ℕ → List ℕ → List ℕ
unfolding hex hex_padded
write_digits bits [] = []
write_digits bits (o ∷ os) = (if bits == 4 then hex o else hex_padded o) ++ write_digits bits os

unfoldable pub trial_code : MixedRadixEnumerator → ℕ → Option (List ℕ)
unfolding offsets write_digits
trial_code e trial_index = do
  os ← offsets e trial_index
  some (b'0' ∷ b'x' ∷ write_digits e.digit_bits os)
