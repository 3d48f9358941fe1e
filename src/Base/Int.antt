-- ===== src/Base/Int.antt =====
-- Signed integers over the native numbers, for times: scaling by a positive number, division
-- towards zero, and the range of `std::int64_t`.
use Prim.Native.Nat.{ℕ, zero, suc, ◌*◌, ◌/◌, ◌^◌, ◌<◌, ◌≤◌}
use mathlib.Core.Path.{◌≡◌, refl, ap}
use mathlib.Core.Bool.{Bool, true, false}
use native.Mathlib.Omega.{arith}
use daqs.Base.Tests.{ltb, leb}

-- `negsuc n` is -(n + 1).
pub data ℤ : Type 0 where
  pos : ℕ → ℤ
  negsuc : ℕ → ℤ

-- -n
abbrev pub neg : ℕ → ℤ
neg n = elim n [ zero ↦ pos 0 | suc k ↦ negsuc k ]

abbrev pub magnitude : ℤ → ℕ
magnitude (pos n) = n
magnitude (negsuc n) = suc n

-- z * k, for a natural k
unfoldable pub scale : ℤ → ℕ → ℤ
scale (pos n) k = pos (n * k)
scale (negsuc n) k = neg (suc n * k)

-- z / k, rounded towards zero as C++ does
unfoldable pub quot : ℤ → ℕ → ℤ
quot (pos n) k = pos (n / k)
quot (negsuc n) k = neg (suc n / k)

-- -2^63 ≤ z < 2^63
abbrev pub fits_int64 : ℤ → Bool
fits_int64 (pos n) = ltb n (2 ^ 63)
fits_int64 (negsuc n) = ltb n (2 ^ 63)

abbrev pub leb_ℤ : ℤ → ℤ → Bool
leb_ℤ (pos a) (pos b) = leb a b
leb_ℤ (pos a) (negsuc b) = false
leb_ℤ (negsuc a) (pos b) = true
leb_ℤ (negsuc a) (negsuc b) = leb b a

div_mul : (n k : ℕ) → 0 < k → n * k / k ≡ n
div_mul n k h = grind arith

quot-neg : (n k : ℕ) → quot (neg n) k ≡ neg (n / k)
unfolding quot
quot-neg zero k = let e : 0 / k ≡ 0 = omega arith in rw e
quot-neg (suc n) k = refl

scale-neg : (n k : ℕ) → scale (neg n) k ≡ neg (n * k)
unfolding scale
scale-neg zero k = let e : 0 * k ≡ 0 = omega arith in rw e
scale-neg (suc n) k = refl

pub quot-scale : (z : ℤ) (k : ℕ) → 0 < k → quot (scale z k) k ≡ z
unfolding quot scale
quot-scale (pos n) k h = ap pos (div_mul n k h)
quot-scale (negsuc n) k h = rw (quot-neg (suc n * k) k, div_mul (suc n) k h)

fits_int64-neg : (n : ℕ) → n ≤ 2 ^ 63 → fits_int64 (neg n) ≡ true
fits_int64-neg zero h = refl
fits_int64-neg (suc n) h = ground arith

div_mul_le : (n k : ℕ) → n / k * k ≤ n
div_mul_le n k = grind arith

-- Rounding to a multiple towards zero stays in range.
pub fits_int64-scale-quot :
    (z : ℤ) (k : ℕ) → fits_int64 z ≡ true → fits_int64 (scale (quot z k) k) ≡ true
unfolding quot scale
fits_int64-scale-quot (pos n) k h = ground (arith, div_mul_le n k)
fits_int64-scale-quot (negsuc n) k h =
    rw (scale-neg (suc n / k) k)
      (fits_int64-neg (suc n / k * k) (ground (arith, div_mul_le (suc n) k)))

div_le : (n k : ℕ) → n / k ≤ n
div_le n zero = omega arith
div_le n (suc k) = omega (arith, div_mul_le n (suc k))

pub fits_int64-quot : (z : ℤ) (k : ℕ) → fits_int64 z ≡ true → fits_int64 (quot z k) ≡ true
unfolding quot
fits_int64-quot (pos n) k h = ground (arith, div_le n k)
fits_int64-quot (negsuc n) k h = fits_int64-neg (suc n / k) (ground (arith, div_le (suc n) k))
