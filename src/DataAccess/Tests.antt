-- ===== src/DataAccess/Tests.antt =====
-- A source that holds the values of one variable in a list, and the theorems on the access to it.
use mathlib.Core.List.{Sublistᴰ}
use daqs.DataAccess.Whole.{returned, fetch_covered}
use daqs.DataAccess.Bounds.{times, fetch_bounded}
use daqs.Base.{◌≤◌, map, ◌++◌, ℕ, ◌+◌, ◌≡◌, refl, some, List, [], ◌∷◌, length, arith}
use daqs.Base.Int.{pos, quot}
use daqs.DataModel.{Variable, VarValue, default_variable}
use daqs.DataModel.Floats.{Fraction, fraction_double, Fraction-IsIeee}
use daqs.DataSource.{DataSource, SourceErr}
use daqs.DataSource.Tables.{id_of, of_variable, seen, seen_variable, always}
use daqs.DataSource.Sqlite.{sqlite_source}
use daqs.DataSource.Memory.{Memory, memory, memory-IsSql, sample_memory, half}
use daqs.DataAccess.Added.{added_then_fetched}
use daqs.DataAccess.Sample.{known_variables, known_values}
use daqs.DataAccess.Saved.{saved_then_fetched, stored-Shows}
use daqs.DataAccess.Interface.{AccessErr}
use daqs.DataAccess.{
  add_variable, fetch_variables, infinity, add_variable_value, fetch_variable_values,
  fetch_variable_values_between,
}
use daqs.DataAccess.Fetch.{Shows, fetch-Shows, fetch_between-Shows}

abbrev Stored : Type 0
Stored = List (VarValue Fraction)

send_all : {A : Type 0} → (VarValue Fraction → ℕ → A → A) → ℕ → Stored → A → A
send_all send_vale index [] a = a
send_all send_vale index (v ∷ vs) a = send_all send_vale (index + 1) vs (send_vale v index a)

abbrev listed : DataSource Fraction Stored
listed = record {
  create_scheme = λ s. some (SourceErr.ok, s);
  add_variable = λ var s. some (SourceErr.ok, s);
  add_variable_value = λ v s. some (SourceErr.ok, v ∷ s);
  fetch_variables = λ A send_vale a s. some (SourceErr.ok, a, s);
  fetch_variable_values = λ A name send_vale a s. some (SourceErr.ok, send_all send_vale 0 s a, s);
  count_variable_values = λ A name send_count a s. some (SourceErr.ok, send_count (length s) a, s);
  fetch_variable_values_between =
      λ A name start end send_vale a s. some (SourceErr.ok, send_all send_vale 0 s a, s);
  count_variable_values_between =
      λ A name start end send_count a s. some (SourceErr.ok, send_count (length s) a, s);
}

abbrev sample : ℕ → VarValue Fraction
sample n = record { variable = default_variable; val = record { num = n; den = 1 }; timestamp = n }

abbrev five : Stored
five = sample 1 ∷ sample 2 ∷ sample 3 ∷ sample 4 ∷ sample 5 ∷ []

fetch-Shows_example :
    (r : Stored) × (fetch_variable_values listed 9 "temp" 2 five ≡ some (r, AccessErr.ok, five))
    × Shows 2 five r
unfolding send_all
fetch-Shows_example =
    fetch-Shows Fraction-IsIeee listed 9 "temp" 2 five five five (omega arith) (omega arith)
      (omega arith) refl (λ even. omega arith)

fetch_bounded_example :
    (r : Stored) × (fetch_variable_values listed 9 "temp" 2 five ≡ some (r, AccessErr.ok, five))
    × (length r ≤ 2)
    × (length r ≤ length five)
    × Sublistᴰ (times r) (times five)
unfolding send_all
fetch_bounded_example =
    fetch_bounded Fraction-IsIeee listed 9 "temp" 2 five five five (omega arith) (omega arith)
      (omega arith) refl (λ even. omega arith)

fetch_between-Shows_example :
    (r : Stored) × (fetch_variable_values_between listed 9 "temp" (pos 1) (pos 5) 2 five
      ≡ some (r, AccessErr.ok, five))
    × Shows 2 five r
unfolding send_all
fetch_between-Shows_example =
    fetch_between-Shows Fraction-IsIeee listed 9 "temp" 2 five five five (omega arith) (omega arith)
      (omega arith) (pos 1) (pos 5) refl (λ even. omega arith)

abbrev saved : VarValue Fraction
saved = record { variable = record { name = "temp"; color = "#f00" }; val = half 45; timestamp = 7 }

saved_then_fetched_example :
    let source = sqlite_source memory in
    let new : VarValue Fraction = record {
      variable = default_variable;
      val = half 45;
      timestamp = 3000;
    } in
    (s' s1 s2 : Memory) × (old : List (VarValue Fraction)) × (fetch_variable_values source 9 "temp"
        infinity sample_memory
      ≡ some (old, AccessErr.ok, s1))
    × (add_variable_value source saved sample_memory ≡ some (AccessErr.ok, s'))
    × (fetch_variable_values source 9 "temp" infinity s' ≡ some (old ++ new ∷ [], AccessErr.ok, s2))
unfolding memory-IsSql id_of quot
saved_then_fetched_example =
    saved_then_fetched memory memory-IsSql 9 saved (half 45) 1 3000 known_variables known_values
      sample_memory refl (refl, refl, refl, (omega arith, (omega arith, tt))) refl (omega arith)

stored-Shows_example :
    (r : Stored) × (s' : Memory) × (fetch_variable_values
        (sqlite_source memory)
        9
        "temp"
        2
        sample_memory
      ≡ some (r, AccessErr.ok, s'))
    × Shows 2 (map seen (of_variable 1 always known_values)) r
unfolding memory-IsSql id_of of_variable
stored-Shows_example =
    stored-Shows memory memory-IsSql Fraction-IsIeee 9 "temp" 2 1 known_variables known_values
      sample_memory (refl, refl, refl, (omega arith, (omega arith, tt))) (omega arith) (omega arith)
      (omega arith) (λ even. omega arith)

abbrev humidity : Variable
humidity = record { name = "humidity"; color = "#00f" }

added_then_fetched_example :
    let source = sqlite_source memory in
    (s' s1 s2 : Memory) × (add_variable source humidity sample_memory ≡ some (AccessErr.ok, s'))
    × (fetch_variables source s'
        ≡ some (map seen_variable known_variables ++ humidity ∷ [], AccessErr.ok, s1))
    × (add_variable source humidity s' ≡ some (AccessErr.failed, s2))
    × (memory-IsSql.tables s2 ≡ memory-IsSql.tables s')
unfolding memory-IsSql id_of
added_then_fetched_example =
    added_then_fetched memory memory-IsSql humidity known_variables sample_memory refl refl

fetch_covered_example :
    returned (
      fetch_variable_values_between
        (sqlite_source memory)
        9
        "temp"
        (pos 0)
        (pos 3000000000)
        1
        sample_memory)
    ≡ returned (fetch_variable_values (sqlite_source memory) 9 "temp" 1 sample_memory)
unfolding memory memory-IsSql quot
fetch_covered_example =
    fetch_covered memory memory-IsSql 9 "temp" (pos 0) (pos 3000000000) 1 sample_memory
      (omega arith, (omega arith, tt)) (refl, (refl, tt))
