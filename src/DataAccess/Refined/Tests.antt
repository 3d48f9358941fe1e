-- ===== src/DataAccess/Refined/Tests.antt =====
-- Calls on a database in memory, and the theorem on them.
use daqs.Base.{◌≡◌, some, List, [], ◌∷◌}
use daqs.DataModel.{Variable}
use daqs.DataModel.Floats.{Fraction, fraction_double}
use daqs.DataSource.Memory.{Memory, memory, memory-IsSql, sample_memory, half}
use daqs.DataSource.History.{History, view}
use daqs.DataAccess.Calls.{Call, Result, add, save, list_all, list_values, perform_all, Trace}
use daqs.DataAccess.Represents.{Represents, source_access}
use daqs.DataAccess.Sample.{known_variables, known_values, sample-Represents, memory-HasClock}
use daqs.DataAccess.Refined.{calls_refined}

abbrev humidity : Variable
humidity = record { name = "humidity"; color = "#00f" }

abbrev calls : List (Call Fraction)
calls =
    add humidity
    ∷ save (record { variable = humidity; val = half 100; timestamp = 0 })
    ∷ add humidity
    ∷ list_all
    ∷ list_values "temp"
    ∷ []

calls_refined_example :
    (rs : List (Result Fraction)) × (s' : Memory) × (h' : History Fraction) × (perform_all
        (source_access memory memory-IsSql 9)
        calls
        sample_memory
      ≡ some (rs, s'))
    × Trace memory-IsSql.rounded (view known_variables known_values) calls rs h'
    × Represents memory memory-IsSql 9 s' h'
calls_refined_example =
    calls_refined memory memory-IsSql 9 (view known_variables known_values) calls sample_memory
      memory-HasClock (sample-Represents 9)
