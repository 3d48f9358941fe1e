-- ===== src/DataSource.antt =====
-- The interface `IDataSource` (src/database-server/data-source/idatasource.h). A method takes the world
-- `S` (the storage and the clock) and returns `none` where the program has no defined behaviour.
-- A callback is a function on what it captures, a value of `A`; it is given the value and the index.
pub mod Engine
pub mod Sqlite
pub mod Tables
pub mod Statements
pub mod Sql
pub mod Reading
pub mod Stored
pub mod Changed
pub mod History
pub mod Grows
pub mod Valid
pub mod Memory
mod Tests
use daqs.Base.{ℕ, String, Option}
use daqs.Base.Int.{ℤ}
use daqs.DataModel.{Variable, VarValue}

-- `IDataSource::Err`
pub data SourceErr : Type 0 where
  ok failed : SourceErr

-- A `system_clock::time_point`: a count of clock ticks since the epoch.
abbrev pub TimePoint : Type 0
TimePoint = ℤ

pub record DataSource (W S : Type 0) : Type 1 where
  pub create_scheme : S → Option (SourceErr × S)
  pub add_variable : Variable → S → Option (SourceErr × S)
  pub add_variable_value : VarValue W → S → Option (SourceErr × S)
  pub fetch_variables : (A : Type 0) → (Variable → ℕ → A → A) → A → S → Option (SourceErr × A × S)
  pub fetch_variable_values :
      (A : Type 0) → String → (VarValue W → ℕ → A → A) → A → S → Option (SourceErr × A × S)
  pub count_variable_values :
      (A : Type 0) → String → (ℕ → A → A) → A → S → Option (SourceErr × A × S)
  pub fetch_variable_values_between :
      (A : Type 0)
      → String
      → TimePoint
      → TimePoint
      → (VarValue W → ℕ → A → A)
      → A
      → S
      → Option (SourceErr × A × S)
  pub count_variable_values_between :
      (A : Type 0)
      → String
      → TimePoint
      → TimePoint
      → (ℕ → A → A)
      → A
      → S
      → Option (SourceErr × A × S)
