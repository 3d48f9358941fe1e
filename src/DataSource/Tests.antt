-- ===== src/DataSource/Tests.antt =====
-- The theorems on SQLiteWrapper at an engine in memory.
use daqs.Base.{ℕ, ◌≡◌, List, [], ◌∷◌, map, length, arith}
use daqs.Base.Int.{pos}
use daqs.DataModel.{VarValue, Variable}
use daqs.DataModel.Floats.{Fraction, fraction_double}
use daqs.DataSource.Tables.{id_of, of_variable, select_values, always, between, seen_variable}
use daqs.DataSource.Sqlite.{
  milliseconds, fetch_variables, fetch_variable_values, count_variable_values,
  fetch_variable_values_between,
}
use daqs.DataSource.Reading.{deliver_0}
use daqs.DataSource.Stored.{
  outcome, deliver_values, fetch_variable_values-outcome, fetch_between-outcome,
  count_variable_values-outcome, fetch_variables-outcome,
}
use daqs.DataSource.Memory.{Memory, memory, memory-IsSql, sample_memory}

abbrev keep : {X : Type 0} → X → ℕ → List X → List X
keep x index xs = x ∷ xs

fetch_variable_values-outcome_example :
    (s' : Memory) × (fetch_variable_values memory
        (List (VarValue Fraction))
        "temp"
        keep
        []
        sample_memory
      ≡ outcome
          (select_values "temp" always (memory-IsSql.tables sample_memory))
          (deliver_values memory memory-IsSql keep [])
          []
          s')
    × (memory-IsSql.tables s' ≡ memory-IsSql.tables sample_memory)
unfolding memory-IsSql
fetch_variable_values-outcome_example =
    fetch_variable_values-outcome memory memory-IsSql "temp" keep [] sample_memory
      (omega arith, (omega arith, tt))

fetch_between-outcome_example :
    (s' : Memory) × (fetch_variable_values_between memory
        (List (VarValue Fraction))
        "temp"
        (pos 1500000000)
        (pos 2500000000)
        keep
        []
        sample_memory
      ≡ outcome
          (select_values "temp"
            (between (milliseconds memory (pos 1500000000)) (milliseconds memory (pos 2500000000)))
            (memory-IsSql.tables sample_memory))
          (deliver_values memory memory-IsSql keep [])
          []
          s')
    × (memory-IsSql.tables s' ≡ memory-IsSql.tables sample_memory)
unfolding memory-IsSql
fetch_between-outcome_example =
    fetch_between-outcome memory memory-IsSql "temp" (pos 1500000000) (pos 2500000000) keep []
      sample_memory (omega arith, (omega arith, tt))

count_variable_values-outcome_example :
    (s' : Memory) × (count_variable_values memory (List ℕ) "temp" (λ n ns. n ∷ ns) [] sample_memory
      ≡ outcome
          (select_values "temp" always (memory-IsSql.tables sample_memory))
          (λ ws. length ws ∷ [])
          []
          s')
    × (memory-IsSql.tables s' ≡ memory-IsSql.tables sample_memory)
unfolding memory-IsSql select_values id_of of_variable
count_variable_values-outcome_example =
    count_variable_values-outcome memory memory-IsSql "temp" (λ n ns. n ∷ ns) [] sample_memory
      (omega arith)

fetch_variables-outcome_example :
    (s' : Memory) × (fetch_variables memory (List Variable) keep [] sample_memory
      ≡ outcome
          (memory-IsSql.tables sample_memory).variables
          (λ vs. deliver_0 keep (map seen_variable vs) [])
          []
          s')
    × (memory-IsSql.tables s' ≡ memory-IsSql.tables sample_memory)
fetch_variables-outcome_example = fetch_variables-outcome memory memory-IsSql keep [] sample_memory
