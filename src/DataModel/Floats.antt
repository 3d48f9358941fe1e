-- ===== src/DataModel/Floats.antt =====
-- What the code does with a `double`: the constant 0.0, a sum, a quotient, the conversion of a
-- `size_t`, and `static_cast<size_t>(std::ceil(x))`. The type is a parameter of the development.
use daqs.Base.{ℕ, ◌+◌, ◌-◌, ◌*◌, ◌/◌, ◌^◌, ◌≤◌, ◌<◌, arith}

pub record Double (W : Type 0) : Type 0 where
  pub nought : W
  pub add : W → W → W
  pub div : W → W → W
  pub of_size : ℕ → W
  pub ceil_size : W → ℕ

-- Integers below 2^53 convert exactly, and the rounding of a quotient of two of them does not cross
-- an integer, so the ceiling of the quotient is the least integer that is not below it.
pub record IsIeee (W : Type 0) ⦃d : Double W⦄ : Type 0 where
  pub ceil_le :
      (n m : ℕ)
      → 0 < m
      → n < 2 ^ 53
      → m < 2 ^ 53
      → (n ≤ d.ceil_size (d.div (d.of_size n) (d.of_size m)) * m)
        × (d.ceil_size (d.div (d.of_size n) (d.of_size m)) * m < n + m)

-- The laws can be met: fractions of natural numbers.
pub record Fraction : Type 0 where
  pub num : ℕ
  pub den : ℕ

instance abbrev pub fraction_double : Double Fraction
fraction_double = record {
  nought = record { num = 0; den = 1 };
  add = λ a b. record { num = a.num * b.den + b.num * a.den; den = a.den * b.den };
  div = λ a b. record { num = a.num * b.den; den = a.den * b.num };
  of_size = λ n. record { num = n; den = 1 };
  ceil_size = λ a. (a.num + a.den - 1) / a.den;
}

ceil_quotient : (n m : ℕ) → 0 < m → (n ≤ ((n + m - 1) / m) * m) × (((n + m - 1) / m) * m < n + m)
ceil_quotient n m h = grind arith

pub Fraction-IsIeee : IsIeee Fraction
Fraction-IsIeee = record { ceil_le = λ n m h _ _. grind (arith, ceil_quotient n m h) }
