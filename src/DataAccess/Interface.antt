-- ===== src/DataAccess/Interface.antt =====
-- The interface `IDataAccess` (src/database-server/data-access/idataaccess.h). As in DataSource, a method
-- takes the world and returns `none` where the program has no defined behaviour.
use daqs.Base.{ℕ, String, Option, List}
use daqs.DataModel.{Variable, VarValue}
use daqs.DataSource.{TimePoint}

-- `IDataAccess::Err`
pub data AccessErr : Type 0 where
  ok failed invalid_argument : AccessErr

pub record IDataAccess (W S : Type 0) : Type 0 where
  pub add_variable : Variable → S → Option (AccessErr × S)
  pub add_variable_value : VarValue W → S → Option (AccessErr × S)
  pub fetch_variables : S → Option (List Variable × AccessErr × S)
  pub fetch_variable_values : String → ℕ → S → Option (List (VarValue W) × AccessErr × S)
  pub fetch_variable_values_between :
      String → TimePoint → TimePoint → ℕ → S → Option (List (VarValue W) × AccessErr × S)
