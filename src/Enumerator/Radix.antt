-- ===== src/Enumerator/Radix.antt =====
-- The mixed radix system in plain arithmetic, and the enumerator's words as its numbers.
use native.Mathlib.Nat.{
  mod-eq_of_lt, mod-lt, mul-add-div_right, mul-add-mod_self_right, div-eq_of_lt, mul_assoc,
  add-zero,
}
use hyperplane_rs.Prelude.{
  ℕ, zero, suc, ◌+◌, ◌*◌, ◌/◌, ◌%◌, ◌≤◌, ◌<◌, ◌≡◌, refl, ap, ap₂, ◌∙◌, some, List, [], ◌∷◌, All,
  arith,
}
use hyperplane_rs.Prelude.Arith.{u32_max, u64_mod, mod-mul, digit_in_range}
use hyperplane_rs.Enumerator.{
  product_from, next_stride, compute_strides, offset, offsets_from, weigh,
}

abbrev pub prod : List ℕ → ℕ
prod [] = 1
prod (c ∷ cs) = c * prod cs

-- Cardinalities of non-empty axes.
abbrev pub ArePositive : List ℕ → Type 0
ArePositive cs = All (λ c. (0 < c) × (c ≤ u32_max)) cs

abbrev pub weights : List ℕ → List ℕ
weights [] = []
weights (c ∷ cs) = prod cs ∷ weights cs

abbrev pub digits : ℕ → List ℕ → List ℕ
digits t [] = []
digits t (c ∷ cs) = (t / prod cs % c) ∷ digits t cs

-- One offset for each axis, below its cardinality.
abbrev pub Within : List ℕ → List ℕ → Type 0
Within [] [] = Unit
Within (o ∷ os) (c ∷ cs) = (o < c) × Within os cs
Within _ _ = ⊥

pub prod_pos : (cs : List ℕ) → ArePositive cs → 0 < prod cs
prod_pos [] h = omega arith
prod_pos (c ∷ cs) h = let p = prod_pos cs h.1 in grind arith

pub prod-le-cons : (c : ℕ) (cs : List ℕ) → 0 < c → prod cs ≤ c * prod cs
prod-le-cons zero cs h = elim h [ ]
prod-le-cons (suc c) cs h = grind arith

mul-le_pos : (a n : ℕ) → 0 < n → a ≤ a * n
mul-le_pos a zero h = elim h [ ]
mul-le_pos a (suc n) h = grind arith

pub product_from-eq :
    (acc : ℕ) (cs : List ℕ)
    → ArePositive cs
    → acc * prod cs < u64_mod
    → product_from acc cs ≡ acc * prod cs
unfolding product_from
product_from-eq acc [] h fits = omega arith
product_from-eq acc (c ∷ cs) h fits =
    let small : acc * c < u64_mod =
      omega (arith, mul-le_pos (acc * c) (prod cs) (prod_pos cs h.1), mul_assoc acc c (prod cs)) in
    let e : acc * c % u64_mod ≡ acc * c = mod-eq_of_lt small in
    rw e (
      product_from-eq (acc * c) cs h.1 (omega (arith, mul_assoc acc c (prod cs)))
      ∙ mul_assoc acc c (prod cs))

pub compute_strides-weights :
    (cs : List ℕ) → ArePositive cs → prod cs < u64_mod → compute_strides cs ≡ weights cs
unfolding compute_strides
compute_strides-weights [] h fits = refl
compute_strides-weights (c ∷ []) h fits = refl
compute_strides-weights (b ∷ c ∷ cs) h fits =
    let small : prod (c ∷ cs) < u64_mod = omega (arith, prod-le-cons b (c ∷ cs) h.0.0) in
    let e : prod cs * c % u64_mod ≡ c * prod cs =
      omega (arith, mod-eq_of_lt {n = prod cs * c} {m = u64_mod} (omega arith)) in
    rw (compute_strides-weights (c ∷ cs) h.1 small, next_stride)
      (ap (λ s. s ∷ prod cs ∷ weights cs) e)

pub digits-Within : (t : ℕ) (cs : List ℕ) → ArePositive cs → Within (digits t cs) cs
digits-Within t [] h = tt
digits-Within t (c ∷ cs) h = (mod-lt (t / prod cs) h.0.0, digits-Within t cs h.1)

offset-eq : (t c s : ℕ) → 0 < c → c ≤ u32_max → 0 < s → offset t c s ≡ some (t / s % c)
unfolding offset
offset-eq t c s hc hm hs = ground (arith, mod-lt (t / s) hc)

pub offsets_from-digits :
    (t : ℕ) (cs : List ℕ) → ArePositive cs → offsets_from t cs (weights cs) ≡ some (digits t cs)
unfolding offsets_from
offsets_from-digits t [] h = refl
offsets_from-digits t (c ∷ cs) h =
    rw (offsets_from-digits t cs h.1, offset-eq t c (prod cs) h.0.0 h.0.1 (prod_pos cs h.1))

pub weigh-digits :
    (t : ℕ) (cs : List ℕ)
    → ArePositive cs
    → prod cs < u64_mod
    → weigh (digits t cs) (weights cs) ≡ t % prod cs
unfolding weigh
weigh-digits t [] h fits = omega arith
weigh-digits t (c ∷ cs) h fits =
    let small : prod cs < u64_mod = omega (arith, prod-le-cons c cs h.0.0) in
    let sum = mod-mul t c (prod cs) (prod_pos cs h.1) h.0.0 in
    let below : t % (c * prod cs) < c * prod cs = mod-lt t (prod_pos (c ∷ cs) h) in
    rw (weigh-digits t cs h.1 small) (
      rw (mod-eq_of_lt {n = t / prod cs % c * prod cs} {m = u64_mod} (omega arith))
        (rw sum (mod-eq_of_lt (omega arith))))

weigh-cons :
    (o v c p : ℕ) (os ss : List ℕ)
    → weigh os ss ≡ v
    → o < c
    → v < p
    → c * p < u64_mod
    → weigh (o ∷ os) (p ∷ ss) ≡ o * p + v
unfolding weigh
weigh-cons o v c p os ss e h k fits =
    let below = digit_in_range o c p v h k in
    rw e (
      rw (mod-eq_of_lt {n = o * p} {m = u64_mod} (omega arith))
        (mod-eq_of_lt {n = o * p + v} {m = u64_mod} (omega arith)))

pub weigh-lt :
    (os cs : List ℕ)
    → ArePositive cs
    → prod cs < u64_mod
    → Within os cs
    → weigh os (weights cs) < prod cs
weigh-lt [] [] h fits w = unfold weigh in omega arith
weigh-lt [] (c ∷ cs) h fits w = elim w [ ]
weigh-lt (o ∷ os) [] h fits w = elim w [ ]
weigh-lt (o ∷ os) (c ∷ cs) h fits w =
    let small : prod cs < u64_mod = omega (arith, prod-le-cons c cs h.0.0) in
    let rest = weigh-lt os cs h.1 small w.1 in
    rw (weigh-cons o (weigh os (weights cs)) c (prod cs) os (weights cs) refl w.0 rest fits)
      (digit_in_range o c (prod cs) (weigh os (weights cs)) w.0 rest)

digits-add : (k t : ℕ) (cs : List ℕ) → ArePositive cs → digits (k * prod cs + t) cs ≡ digits t cs
digits-add k t [] h = refl
digits-add k t (c ∷ cs) h =
    let regroup : k * (c * prod cs) + t ≡ k * c * prod cs + t = omega arith in
    let head : (k * (c * prod cs) + t) / prod cs % c ≡ t / prod cs % c = rw regroup (
      rw (mul-add-div_right (prod_pos cs h.1) (k * c) t)
        (mul-add-mod_self_right k c (t / prod cs))) in
    let tail : digits (k * (c * prod cs) + t) cs ≡ digits t cs =
      rw regroup (digits-add (k * c) t cs h.1) in
    ap₂ ◌∷◌ head tail

pub digits-weigh :
    (os cs : List ℕ)
    → ArePositive cs
    → prod cs < u64_mod
    → Within os cs
    → digits (weigh os (weights cs)) cs ≡ os
digits-weigh [] [] h fits w = refl
digits-weigh [] (c ∷ cs) h fits w = elim w [ ]
digits-weigh (o ∷ os) [] h fits w = elim w [ ]
digits-weigh (o ∷ os) (c ∷ cs) h fits w =
    let small : prod cs < u64_mod = omega (arith, prod-le-cons c cs h.0.0) in
    let rest = weigh-lt os cs h.1 small w.1 in
    let v = weigh os (weights cs) in
    let whole = weigh-cons o v c (prod cs) os (weights cs) refl w.0 rest fits in
    let head : (o * prod cs + v) / prod cs % c ≡ o =
      rw (mul-add-div_right (prod_pos cs h.1) o v, div-eq_of_lt rest, add-zero)
        (mod-eq_of_lt w.0) in
    let tail : digits (o * prod cs + v) cs ≡ os =
      digits-add o v cs h.1 ∙ digits-weigh os cs h.1 small w.1 in
    ap (λ n. digits n (c ∷ cs)) whole ∙ ap₂ ◌∷◌ head tail
