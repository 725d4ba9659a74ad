-- ===== src/Prelude/Ints.antt =====
-- Signed machine integers as ℤ over the native numbers: order, equality, remainder and bytes of `i64`.
use Prim.Native.Nat.{ℕ, zero, suc, ◌-◌, ◌%◌}
use mathlib.Core.Path.{◌≡◌, ap}
use mathlib.Core.Bool.{Bool, true, false, ◌&&◌}
use mathlib.Core.Option.{Option, none, some}
use native.Mathlib.Omega.{arith}
use hyperplane_rs.Prelude.Tests.{leb, ◌==◌, if◌then◌else◌}

pub data ℤ : Type 0 where
  pos : ℕ → ℤ
  negsuc : ℕ → ℤ

-- `<=`.
unfoldable pub leb_int : ℤ → ℤ → Bool
leb_int (pos a) (pos b) = leb a b
leb_int (pos a) (negsuc b) = false
leb_int (negsuc a) (pos b) = true
leb_int (negsuc a) (negsuc b) = leb b a

unfoldable pub same_int : ℤ → ℤ → Bool
same_int (pos a) (pos b) = a == b
same_int (negsuc a) (negsuc b) = a == b
same_int _ _ = false

pub same_int→≡ : (a b : ℤ) → same_int a b ≡ true → a ≡ b
unfolding same_int
same_int→≡ (pos a) (pos b) h = ap pos (ground arith)
same_int→≡ (negsuc a) (negsuc b) h = ap negsuc (ground arith)
same_int→≡ _ _ h = ground arith

abbrev pub i64_min : ℤ
i64_min = negsuc 9223372036854775807

unfoldable pub neg : ℕ → ℤ
neg zero = pos 0
neg (suc n) = negsuc n

-- The remainder truncates toward 0, so it has the dividend's sign. `none` is the panic, also in a
-- release build: a divisor 0, and `i64::MIN % -1`.
unfoldable pub rem : ℤ → ℤ → Option ℤ
unfolding same_int neg
rem a (pos zero) = none
rem (pos a) (pos (suc b)) = some (pos (a % suc b))
rem (negsuc a) (pos (suc b)) = some (neg (suc a % suc b))
rem (pos a) (negsuc b) = some (pos (a % suc b))
rem (negsuc a) (negsuc b) =
    if same_int (negsuc a) i64_min && (b == 0) then none else some (neg (suc a % suc b))

-- Two's complement.
unfoldable pub to_u64 : ℤ → ℕ
to_u64 (pos n) = n
to_u64 (negsuc n) = 18446744073709551615 - n
