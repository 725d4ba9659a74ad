-- ===== src/Enumerator/Examples.antt =====
-- Small plans: the cases of the source's tests, and the theorems at concrete inputs.
use hyperplane_rs.Prelude.{ℕ, ◌<◌, ◌≡◌, ◌≢◌, refl, some, none, List, [], ◌∷◌, inl, arith}
use hyperplane_rs.Enumerator.{of_cardinalities, offsets, trial_index, trial_code}
use hyperplane_rs.Enumerator.Radix.{Within}
use hyperplane_rs.Enumerator.RoundTrip.{trial_index-offsets, offsets-trial_index}
use hyperplane_rs.Enumerator.Codes.{trial_code_distinct}
use hyperplane_rs.Enumerator.EmptyAxis.{offsets_empty_axis}

abbrev three_two_four : List ℕ
three_two_four = 3 ∷ 2 ∷ 4 ∷ []

-- The source's `three_axes_varying_cardinality_4bit`.
varying_offsets : offsets (of_cardinalities three_two_four) 10 ≡ some (1 ∷ 0 ∷ 2 ∷ [])
unfolding offsets of_cardinalities
varying_offsets = refl

varying_code :
    trial_code (of_cardinalities three_two_four) 10 ≡ some (b'0' ∷ b'x' ∷ b'1' ∷ b'0' ∷ b'2' ∷ [])
unfolding trial_code of_cardinalities
varying_code = refl

-- The source's `wide_axis_switches_to_8bit_digits`.
wide_code :
    trial_code (of_cardinalities (17 ∷ 2 ∷ [])) 4
    ≡ some (b'0' ∷ b'x' ∷ b'0' ∷ b'2' ∷ b'0' ∷ b'0' ∷ [])
unfolding trial_code of_cardinalities
wide_code = refl

no_axes : offsets (of_cardinalities []) 0 ≡ some []
unfolding offsets of_cardinalities
no_axes = refl

-- Beyond 256 values an offset takes three digits, and the codes of two trials can agree.
abbrev wide : List ℕ
wide = 257 ∷ 300 ∷ 300 ∷ []

collision :
    trial_code (of_cardinalities wide) (trial_index (of_cardinalities wide) (256 ∷ 17 ∷ 34 ∷ []))
    ≡ trial_code (of_cardinalities wide) (trial_index (of_cardinalities wide) (16 ∷ 1 ∷ 290 ∷ []))
unfolding trial_code of_cardinalities trial_index
collision = refl

trial_index-offsets_example :
    (os : List ℕ) × (offsets (of_cardinalities three_two_four) 10 ≡ some os)
    × Within os three_two_four
    × (trial_index (of_cardinalities three_two_four) os ≡ 10)
unfolding of_cardinalities
trial_index-offsets_example =
    trial_index-offsets three_two_four 10 (omega arith) (omega arith) (omega arith)

offsets-trial_index_example :
    (trial_index (of_cardinalities three_two_four) (1 ∷ 0 ∷ 2 ∷ [])
      < (of_cardinalities three_two_four).trial_count)
    × (offsets
          (of_cardinalities three_two_four)
          (trial_index (of_cardinalities three_two_four) (1 ∷ 0 ∷ 2 ∷ []))
        ≡ some (1 ∷ 0 ∷ 2 ∷ []))
offsets-trial_index_example =
    offsets-trial_index three_two_four (1 ∷ 0 ∷ 2 ∷ []) (omega arith) (omega arith) (omega arith)

trial_code_distinct_example :
    trial_code (of_cardinalities three_two_four) 10
    ≢ trial_code (of_cardinalities three_two_four) 11
trial_code_distinct_example =
    trial_code_distinct three_two_four 10 11 (omega arith) (omega arith) (omega arith) (omega arith)
      (omega arith) (omega arith)

offsets_empty_axis_example :
    ((of_cardinalities (2 ∷ 0 ∷ [])).trial_count ≡ 1)
    × (offsets (of_cardinalities (2 ∷ 0 ∷ [])) 0 ≡ none)
offsets_empty_axis_example = offsets_empty_axis 2 (0 ∷ []) 0 (omega arith) (inl refl)
