-- ===== src/Prelude/Arith.antt =====
-- Unsigned machine arithmetic, and the laws of division that a positional number system needs.
use native.Mathlib.Nat.{div-add-mod', mod-lt, mod-eq_of_lt, add-mul-mod_self_right}
use hyperplane_rs.Prelude.Tests.{ltb, if◌then◌else◌}
use Prim.Native.Nat.{ℕ, ◌+◌, ◌*◌, ◌/◌, ◌%◌, ◌<◌}
use mathlib.Core.Path.{◌≡◌, sym, ◌∙◌, ap}
use native.Mathlib.Omega.{arith}

abbrev pub u32_max : ℕ
u32_max = 4294967295

abbrev pub u64_mod : ℕ
u64_mod = 18446744073709551616

-- `u32::try_from(x).unwrap_or(u32::MAX)`.
abbrev pub u32_clamp : ℕ → ℕ
u32_clamp x = if ltb u32_max x then u32_max else x

pub digit_in_range : (r c p m : ℕ) → r < c → m < p → r * p + m < c * p
digit_in_range r c p m h k = grind arith

-- The digit of weight `p` and the value below it.
pub mod-mul : (t c p : ℕ) → 0 < p → 0 < c → t / p % c * p + t % p ≡ t % (c * p)
mod-mul t c p hp hc =
    let q = t / p / c in
    let r = t / p % c in
    let x = r * p + t % p in
    let split : t ≡ x + q * (c * p) =
      omega (arith, div-add-mod' t p, ap (λ (n : ℕ). n * p) (div-add-mod' (t / p) c)) in
    let small : x < c * p = digit_in_range r c p (t % p) (mod-lt (t / p) hc) (mod-lt t hp) in
    sym (ap (λ n. n % (c * p)) split ∙ add-mul-mod_self_right x q (c * p) ∙ mod-eq_of_lt small)
