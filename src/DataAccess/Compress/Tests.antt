-- ===== src/DataAccess/Compress/Tests.antt =====
-- Runs of `compress` on the fractions, and its theorems at concrete inputs.
use daqs.Base.{
  ℕ, ◌≡◌, ◌<◌, ◌↔◌, ◌%◌, ◌*◌, ◌/◌, ◌++◌, none, some, List, [], ◌∷◌, map, length, All, arith,
}
use mathlib.Core.List.{flatten}
use daqs.DataModel.{VarValue, default_variable}
use daqs.DataModel.Floats.{Fraction, fraction_double, Fraction-IsIeee}
use daqs.DataAccess.Interface.{AccessErr}
use daqs.DataAccess.Compress.{compress}
use daqs.DataAccess.Compress.Chunks.{IsNear}
use daqs.DataAccess.Compress.Rounds.{summary}
use daqs.DataAccess.Compress.Correct.{compress_partition, compress_undefined}

abbrev sample : ℕ → VarValue Fraction
sample n = record { variable = default_variable; val = record { num = n; den = 1 }; timestamp = n }

abbrev five : List (VarValue Fraction)
five = sample 1 ∷ sample 2 ∷ sample 3 ∷ sample 4 ∷ sample 5 ∷ []

compress_partition_example :
    (runs : List (List (VarValue Fraction))) × (compress 9 five [] 2
      ≡ some (AccessErr.ok, [] ++ map summary runs))
    × (length runs ≡ 2)
    × (flatten runs ≡ five)
    × All (IsNear (length five / 2)) runs
compress_partition_example =
    compress_partition Fraction-IsIeee 9 five [] 2 (omega arith) (omega arith) (omega arith)
      (omega arith) (λ even. omega arith)

-- Five values for one place.
compress_undefined_example :
    (compress 9 five [] 1 ≡ none) ↔ ((length five % 1 ≡ 0) × (1 * 1 < length five))
compress_undefined_example =
    compress_undefined Fraction-IsIeee 9 five [] 1 (omega arith) (omega arith) (omega arith)
      (omega arith)
