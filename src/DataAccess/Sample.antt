-- ===== src/DataAccess/Sample.antt =====
-- The database of DataSource/Memory with its two values, as a history.
use daqs.Base.{ℕ, ◌%◌, ◌/◌, ◌^◌, ◌<◌, refl, List, [], ◌∷◌, arith}
use daqs.Base.Int.{quot}
use daqs.DataModel.Floats.{Fraction, fraction_double}
use daqs.DataSource.Tables.{VariableRow, ValueRow}
use daqs.DataSource.Memory.{memory, memory-IsSql, sample_memory, half}
use daqs.DataSource.History.{view}
use daqs.DataAccess.Represents.{Represents, HasClock}

abbrev pub known_variables : List VariableRow
known_variables = record { id = 1; name = "temp"; color = "#f00" } ∷ []

abbrev pub known_values : List (ValueRow Fraction)
known_values =
    record { val = half 41; timestamp = 1000; variable_id = 1 }
    ∷ record { val = half 43; timestamp = 2000; variable_id = 1 }
    ∷ []

pub sample-Represents :
    (max_size : ℕ)
    → Represents memory memory-IsSql max_size sample_memory (view known_variables known_values)
unfolding memory-IsSql
sample-Represents max_size = record {
  vs = known_variables;
  ws = known_values;
  next = 2;
  there = refl;
  valid = ((tt, tt), (omega arith, tt), (omega arith, (omega arith, tt)));
  bounded = (omega arith, (omega arith, tt));
  seen_as = refl;
}

small_quotient : (n : ℕ) → n % 2 ^ 60 / 1000000 < 2 ^ 63
small_quotient n = omega arith

pub memory-HasClock : HasClock memory memory-IsSql 9
unfolding memory quot
memory-HasClock s = (s.clock % 2 ^ 60 / 1000000, refl, small_quotient s.clock)
