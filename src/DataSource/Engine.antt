-- ===== src/DataSource/Engine.antt =====
-- What the sources use of SQLite, of `std::stod` and `std::stoull`, and of the clock: a parameter.
use daqs.Base.{ℕ, String, Option, List}
use daqs.Base.Int.{ℤ}
use daqs.DataSource.{TimePoint}

-- An argument of `sqlite3_mprintf`, for `%q`, `%f` and `%ld`.
pub data Arg (W : Type 0) : Type 0 where
  quoted : String → Arg W
  real : W → Arg W
  integer : ℤ → Arg W

-- `azColName[i]` and `argv[i]`; `none` is a null pointer.
pub record Column : Type 0 where
  pub name : String
  pub value : Option String

abbrev pub Row : Type 0
Row = List Column

-- How a callback of `sqlite3_exec` ends: it returns 0, it returns another number, or an exception
-- that it does not catch leaves it.
pub data Reply (A : Type 0) : Type 0 where
  goes_on : A → Reply A
  aborts : A → Reply A
  escapes : Reply A

-- How a conversion ends; `rejected` is `invalid_argument` or `out_of_range`.
pub data Parsed (A : Type 0) : Type 0 where
  parsed : A → Parsed A
  rejected : Parsed A
  thrown : Parsed A

pub record Engine (W S : Type 0) : Type 1 where
  pub Query : Type 0
  -- a `std::string` with the text of a statement
  pub plain : String → Query
  pub mprintf : String → List (Arg W) → Query
  -- `sqlite3_open` and `sqlite3_exec`; the number is the result code. `run` is `sqlite3_exec` with
  -- no callback. `exec` gives `none` if an exception leaves the callback.
  pub open_file : String → S → ℕ × S
  pub run : Query → S → ℕ × S
  pub exec : (A : Type 0) → Query → (Row → A → Reply A) → A → S → Option (ℕ × A × S)
  pub stod : Option String → Parsed W
  pub stoull : Option String → Parsed ℕ
  pub now : S → TimePoint
  -- ticks of `system_clock` in a millisecond
  pub ticks : ℕ
