-- ===== src/DataAccess.antt =====
-- The class `DataAccess` over an `IDataSource` (src/database-server/data-access/dataaccess.cc and
-- idataaccess.h). `none` is undefined behaviour, of the source or of `compress`.
pub mod Interface
pub mod Compress
pub mod Fetch
pub mod Bounds
pub mod Whole
pub mod Saved
pub mod Added
pub mod Ranges
pub mod Calls
pub mod Represents
pub mod Refined
pub mod Sample
mod Tests
use daqs.Base.{
  ℕ, Bool, String, Option, none, some, List, [], ◌∷◌, ◌++◌, ltb, ◌==◌, ◌&&◌, not, if◌then◌else◌,
  length,
}
use daqs.DataModel.{Variable, VarValue}
use daqs.DataModel.Floats.{Double}
use daqs.DataSource.{DataSource, SourceErr, TimePoint}
use Interface.{AccessErr, IDataAccess}
use Compress.{compress}

-- `… == IDataSource::Err::Ok ? Err::Ok : Err::Failed`
abbrev pub access_err : SourceErr → AccessErr
access_err SourceErr.ok = AccessErr.ok
access_err SourceErr.failed = AccessErr.failed

-- The callbacks of the fetching methods.
abbrev pub push_back {ℓ} : {A : Type ℓ} → A → ℕ → List A → List A
push_back x index xs = xs ++ x ∷ []

-- `numeric_limits<size_t>::infinity()`: an integer type has no infinity, and the value is 0.
abbrev pub infinity : ℕ
infinity = 0

module _ {W S : Type 0} ⦃d : Double W⦄ where
  -- The end of both `fetch_variable_values`: an error of `compress` is answered by no values and Ok.
  abbrev pub compressed :
      Option (AccessErr × List (VarValue W)) → S → Option (List (VarValue W) × AccessErr × S)
  compressed none s = none
  compressed (some (AccessErr.ok, values)) s = some (values, AccessErr.ok, s)
  compressed (some (AccessErr.failed, values)) s = some ([], AccessErr.ok, s)
  compressed (some (AccessErr.invalid_argument, values)) s = some ([], AccessErr.ok, s)

  unfoldable pub limit_values :
      ℕ → ℕ → List (VarValue W) → S → Option (List (VarValue W) × AccessErr × S)
  limit_values max_size max_len tmp_values s =
      if not (max_len == infinity) && ltb max_len (length tmp_values)
      then compressed (compress max_size tmp_values [] max_len) s
      else some (tmp_values, AccessErr.ok, s)

  abbrev pub after_fetch :
      ℕ
      → ℕ
      → Option (SourceErr × List (VarValue W) × S)
      → Option (List (VarValue W) × AccessErr × S)
  after_fetch max_size max_len none = none
  after_fetch max_size max_len (some (SourceErr.failed, tmp_values, s)) =
      some ([], AccessErr.failed, s)
  after_fetch max_size max_len (some (SourceErr.ok, tmp_values, s)) =
      limit_values max_size max_len tmp_values s

module _ {W S : Type 0} ⦃d : Double W⦄ (ds : DataSource W S) where
  unfoldable pub add_variable : Variable → S → Option (AccessErr × S)
  add_variable var s = elim (ds.add_variable var s) [
    | none ↦ none
    | some (e, s') ↦ some (access_err e, s')
  ]

  unfoldable pub add_variable_value : VarValue W → S → Option (AccessErr × S)
  add_variable_value var s = elim (ds.add_variable_value var s) [
    | none ↦ none
    | some (e, s') ↦ some (access_err e, s')
  ]

  unfoldable pub fetch_variables : S → Option (List Variable × AccessErr × S)
  fetch_variables s = elim (ds.fetch_variables (List Variable) push_back [] s) [
    | none ↦ none
    | some (SourceErr.ok, variables, s') ↦ some (variables, AccessErr.ok, s')
    | some (SourceErr.failed, variables, s') ↦ some ([], AccessErr.failed, s')
  ]

  unfoldable pub fetch_variable_values :
      ℕ → String → ℕ → S → Option (List (VarValue W) × AccessErr × S)
  fetch_variable_values max_size var_name max_len s =
      after_fetch max_size max_len
        (ds.fetch_variable_values (List (VarValue W)) var_name push_back [] s)

  unfoldable pub fetch_variable_values_between :
      ℕ → String → TimePoint → TimePoint → ℕ → S → Option (List (VarValue W) × AccessErr × S)
  fetch_variable_values_between max_size var_name start_date end_date max_len s =
      after_fetch max_size max_len (
        ds.fetch_variable_values_between (List (VarValue W)) var_name start_date end_date push_back
          [] s)

  -- `DataAccess` as an `IDataAccess`; `max_size` is the longest length that a vector may reserve.
  abbrev pub data_access : ℕ → IDataAccess W S
  data_access max_size = record {
    add_variable = add_variable;
    add_variable_value = add_variable_value;
    fetch_variables = fetch_variables;
    fetch_variable_values = fetch_variable_values max_size;
    fetch_variable_values_between = fetch_variable_values_between max_size;
  }
