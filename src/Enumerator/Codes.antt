-- ===== src/Enumerator/Codes.antt =====
-- Trial codes: the hexadecimal digits of the offsets.
use native.Mathlib.Nat.{mod-eq_of_lt}
use hyperplane_rs.Prelude.{
  ℕ, zero, suc, ◌/◌, ◌%◌, ◌≤◌, ◌<◌, ◌≡◌, ◌≢◌, refl, sym, ap, ◌∙◌, List, [], ◌∷◌, inl, inr, All, ltb,
  leb, leb→le, ◌==◌, if◌then◌else◌, Bool-cases, arith,
}
use hyperplane_rs.Prelude.Arith.{u64_mod}
use hyperplane_rs.Enumerator.{
  of_cardinalities, trial_code, write_digits, weigh, hex, hex_padded, hex_above, hex_digit,
  max_from, max_or_one,
}
use hyperplane_rs.Enumerator.Radix.{
  weights, weigh-digits, prod, digits, ArePositive, Within, digits-Within,
}
use hyperplane_rs.Enumerator.RoundTrip.{offsets-digits}

hex_digit_injective : (a b : ℕ) → a < 16 → b < 16 → hex_digit a ≡ hex_digit b → a ≡ b
unfolding hex_digit
hex_digit_injective a b ha hb e = ground arith

hex_above_zero : (fuel : ℕ) (out : List ℕ) → hex_above fuel 0 out ≡ out
unfolding hex_above
hex_above_zero zero out = refl
hex_above_zero (suc fuel) out = refl

hex_one : (n : ℕ) → n < 16 → hex n ≡ hex_digit n ∷ []
unfolding hex
hex_one n h =
    let high : n / 16 ≡ 0 = omega arith in
    let low : n % 16 ≡ n = omega arith in rw (high, low) (hex_above_zero 7 _)

hex_above_one : (n : ℕ) (out : List ℕ) → 0 < n → n < 16 → hex_above 7 n out ≡ hex_digit n ∷ out
unfolding hex_above
hex_above_one n out p h =
    let high : n / 16 ≡ 0 = omega arith in
    let low : n % 16 ≡ n = omega arith in ground (arith, high, low)

hex_padded_two : (n : ℕ) → n < 256 → hex_padded n ≡ hex_digit (n / 16) ∷ hex_digit (n % 16) ∷ []
unfolding hex_padded hex
hex_padded_two n h = elim (Bool-cases (ltb n 16)) [
  | inl small ↦
      let high : n / 16 ≡ 0 = ground arith in
      let low : n % 16 ≡ n = ground arith in
      rw small (rw (hex_one n (ground arith), high, low) refl)
  | inr large ↦ rw large (hex_above_one (n / 16) _ (ground arith) (omega arith))
]

-- The digits of one offset at a width.
abbrev IsNarrow : ℕ → ℕ → Type 0
IsNarrow bits c = if bits == 4 then c ≤ 16 else c ≤ 256

write_digits_injective :
    (bits : ℕ) (cs os ps : List ℕ)
    → All (IsNarrow bits) cs
    → Within os cs
    → Within ps cs
    → write_digits bits os ≡ write_digits bits ps
    → os ≡ ps
unfolding write_digits
write_digits_injective bits [] [] [] n w v e = refl
write_digits_injective bits [] (o ∷ os) ps n w v e = elim w [ ]
write_digits_injective bits [] [] (p ∷ ps) n w v e = elim v [ ]
write_digits_injective bits (c ∷ cs) [] ps n w v e = elim w [ ]
write_digits_injective bits (c ∷ cs) (o ∷ os) [] n w v e = elim v [ ]
write_digits_injective bits (c ∷ cs) (o ∷ os) (p ∷ ps) n w v e = elim (Bool-cases (bits == 4)) [
  | inl four ↦ ground (
    arith,
    hex_one o,
    hex_one p,
    hex_digit_injective o p,
    write_digits_injective bits cs os ps n.1 w.1 v.1,
  )
  | inr eight ↦ ground (
    arith,
    hex_padded_two o,
    hex_padded_two p,
    hex_digit_injective (o / 16) (p / 16),
    hex_digit_injective (o % 16) (p % 16),
    write_digits_injective bits cs os ps n.1 w.1 v.1,
  )
]

max_from-le : (m n : ℕ) (cs : List ℕ) → max_from m cs ≤ n → (m ≤ n) × All (λ c. c ≤ n) cs
unfolding max_from
max_from-le m n [] h = (h, tt)
max_from-le m n (c ∷ cs) h =
    let rest = max_from-le (if ltb c m then m else c) n cs h in ground (arith, rest)

max_or_one-le : (cs : List ℕ) → max_or_one cs ≤ 16 → All (λ c. c ≤ 16) cs
unfolding max_or_one
max_or_one-le [] h = tt
max_or_one-le (c ∷ cs) h = max_from-le c 16 cs h

digit_bits-IsNarrow :
    (cs : List ℕ) → All (λ c. c ≤ 256) cs → All (IsNarrow (of_cardinalities cs).digit_bits) cs
unfolding of_cardinalities
digit_bits-IsNarrow cs h = elim (Bool-cases (leb (max_or_one cs) 16)) [
  | inl small ↦ rw small (max_or_one-le cs (leb→le _ _ small))
  | inr large ↦ rw large h
]

trial_code_injective :
    (cs : List ℕ) (t u : ℕ)
    → ArePositive cs
    → All (λ c. c ≤ 256) cs
    → prod cs < u64_mod
    → t < prod cs
    → u < prod cs
    → trial_code (of_cardinalities cs) t ≡ trial_code (of_cardinalities cs) u
    → t ≡ u
unfolding trial_code
trial_code_injective cs t u h small fits lt lu e =
    let same : digits t cs ≡ digits u cs =
      write_digits_injective (of_cardinalities cs).digit_bits cs (digits t cs) (digits u cs)
        (digit_bits-IsNarrow cs small) (digits-Within t cs h) (digits-Within u cs h)
        (ground (arith, offsets-digits cs h fits t lt, offsets-digits cs h fits u lu)) in
    sym (mod-eq_of_lt lt)
    ∙ sym (weigh-digits t cs h fits)
    ∙ ap (λ os. weigh os (weights cs)) same
    ∙ weigh-digits u cs h fits
    ∙ mod-eq_of_lt lu

-- With no empty axis, no axis of more than 256 values and fewer than 2^64 trials, two different
-- trial indices below the trial count have different trial codes.
pub trial_code_distinct :
    (cs : List ℕ) (t u : ℕ)
    → ArePositive cs
    → All (λ c. c ≤ 256) cs
    → prod cs < u64_mod
    → t < prod cs
    → u < prod cs
    → t ≢ u
    → trial_code (of_cardinalities cs) t ≢ trial_code (of_cardinalities cs) u
trial_code_distinct cs t u h small fits lt lu other e =
    other (trial_code_injective cs t u h small fits lt lu e)
