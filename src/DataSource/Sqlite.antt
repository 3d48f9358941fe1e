-- ===== src/DataSource/Sqlite.antt =====
-- The class `SQLiteWrapper` (src/database-server/data-source/sqlitewrapper.cc): the statements that it
-- builds, the callbacks that read the rows, and its methods as an `IDataSource`.
use Prim.Native.String.{◌++◌ as ◌++ₜ◌}
use text.Mathlib.Text.{◌==◌ as str_eq}
use daqs.Base.{ℕ, ◌+◌, String, Option, none, some, List, [], ◌∷◌, ◌==◌, if◌then◌else◌}
use daqs.Base.Int.{ℤ, quot}
use daqs.DataModel.{
  Variable, VarValue, default_variable, default_value, set_val, set_timestamp, value_name,
}
use daqs.DataModel.Floats.{Double}
use daqs.DataSource.{DataSource, SourceErr, TimePoint}
use daqs.DataSource.Engine.{
  Engine, Arg, Row, Reply, Parsed, quoted, real, integer, goes_on, aborts, escapes, parsed,
  rejected, thrown,
}

-- `SQLITE_OK`
abbrev pub sqlite_ok : ℕ
sqlite_ok = 0

abbrev pub create_variable_sql : String
create_variable_sql =
    "CREATE TABLE VARIABLE(ID   INTEGER  PRIMARY KEY AUTOINCREMENT,COLOR CHAR(50),NAME CHAR(50) NOT NULL UNIQUE);"

abbrev pub create_value_sql : String
create_value_sql =
    "CREATE TABLE VARIABLE_VALUE(ID          INTEGER  PRIMARY KEY AUTOINCREMENT,VAL         DOUBLE   NOT NULL,TIMESTAMP   INTEGER NOT NULL,VARIABLE_ID INT      NOT NULL,FOREIGN KEY (VARIABLE_ID) REFERENCES VARIABLE(ID));"

abbrev pub insert_variable_sql : String
insert_variable_sql = "INSERT INTO VARIABLE(NAME, COLOR) VALUES('%q', '%q')"

abbrev pub insert_value_sql : String
insert_value_sql =
    "INSERT INTO VARIABLE_VALUE(VAL, TIMESTAMP, VARIABLE_ID) VALUES(%f, %ld, (SELECT ID FROM VARIABLE WHERE NAME = '%q'))"

abbrev pub select_variables_sql : String
select_variables_sql = "SELECT COLOR, NAME FROM VARIABLE"

abbrev pub select_values_sql : String
select_values_sql =
    "SELECT VAL, TIMESTAMP FROM VARIABLE_VALUE WHERE VARIABLE_ID = (SELECT ID FROM VARIABLE WHERE NAME = '%q')"

abbrev pub count_values_sql : String
count_values_sql =
    "SELECT COUNT(*) FROM VARIABLE_VALUE WHERE VARIABLE_ID = (SELECT ID FROM VARIABLE WHERE NAME = '%q')"

abbrev pub select_between_sql : String
select_between_sql =
    "SELECT VAL, TIMESTAMP FROM VARIABLE_VALUE WHERE VARIABLE_ID = (SELECT ID FROM VARIABLE WHERE NAME = '%q') AND TIMESTAMP >= %ld AND TIMESTAMP <= %ld;"

abbrev pub count_between_sql : String
count_between_sql =
    "SELECT COUNT(*) FROM VARIABLE_VALUE WHERE VARIABLE_ID = (SELECT ID FROM VARIABLE WHERE NAME = '%q') AND TIMESTAMP >= %ld AND TIMESTAMP <= %ld;"

-- A cell read as a string: a null pointer and "" both give "".
abbrev pub cell_text : Option String → String
cell_text none = ""
cell_text (some t) = if str_eq t "" then "" else t

-- The callback's loop of `fetch_variables`; `none` is the early `return -1`.
unfoldable pub variable_row : Row → Variable → Option Variable
variable_row [] var = some var
variable_row (c ∷ row) var =
    let named = variable_row row (record var { name = cell_text c.value }) in
    let coloured = variable_row row (record var { color = cell_text c.value }) in
    if str_eq "NAME" c.name then named else if str_eq "COLOR" c.name then coloured else none

abbrev pub code_err : ℕ → SourceErr
code_err code = if code == sqlite_ok then SourceErr.ok else SourceErr.failed

module _ {W S : Type 0} ⦃d : Double W⦄ (e : Engine W S) where
  open e use {plain, mprintf, open_file, run, exec, stod, stoull, now, ticks}

  -- The constructor; `some` is the string that it throws.
  unfoldable pub open_wrapper : String → S → Option String × S
  open_wrapper db_path s =
      let (code, s') = open_file db_path s in
      if code == sqlite_ok then (none, s') else (some ("Can't open database " ++ₜ db_path), s')

  -- The loop of `create_scheme`, which stops at the first failure.
  unfoldable pub run_all : List String → S → SourceErr × S
  run_all [] s = (SourceErr.ok, s)
  run_all (sql ∷ rest) s =
      let (code, s') = run (plain sql) s in
      let more = run_all rest s' in if code == sqlite_ok then more else (SourceErr.failed, s')

  unfoldable pub create_scheme : S → SourceErr × S
  unfolding run_all
  create_scheme = run_all (create_variable_sql ∷ create_value_sql ∷ [])

  unfoldable pub add_variable : Variable → S → SourceErr × S
  add_variable var s =
      let (code, s') =
        run (mprintf insert_variable_sql (quoted var.name ∷ quoted var.color ∷ [])) s in
      (code_err code, s')

  -- `duration_cast<milliseconds>` of the time since the epoch.
  abbrev pub milliseconds : TimePoint → ℤ
  milliseconds t = quot t ticks

  -- The time stored is the clock's, not the one in `var`.
  unfoldable pub add_variable_value : VarValue W → S → SourceErr × S
  add_variable_value var s =
      let args = real var.val ∷ integer (milliseconds (now s)) ∷ quoted (value_name var) ∷ [] in
      let (code, s') = run (mprintf insert_value_sql args) s in (code_err code, s')

  -- A method's end: the code of `sqlite3_exec` becomes the result.
  abbrev pub finish : {A : Type 0} → Option (ℕ × A × S) → Option (SourceErr × A × S)
  finish none = none
  finish (some (code, a, s)) = some (code_err code, a, s)

  -- The callback of `fetch_variables`: every variable is sent with the index 0.
  unfoldable pub variable_callback : {A : Type 0} → (Variable → ℕ → A → A) → Row → A → Reply A
  unfolding variable_row
  variable_callback send_vale row a = elim (variable_row row default_variable) [
    | none ↦ aborts a
    | some var ↦ goes_on (send_vale var 0 a)
  ]

  unfoldable pub fetch_variables :
      (A : Type 0) → (Variable → ℕ → A → A) → A → S → Option (SourceErr × A × S)
  unfolding variable_callback
  fetch_variables A send_vale a s =
      finish (exec A (plain select_variables_sql) (variable_callback send_vale) a s)

  -- The callback's loop of both `fetch_variable_values`.
  unfoldable pub value_row : Row → VarValue W → Parsed (VarValue W)
  value_row [] val = parsed val
  value_row (c ∷ row) val =
      if str_eq "VAL" c.name
      then (elim (stod c.value) [
        | parsed x ↦ value_row row (set_val val x)
        | rejected ↦ rejected
        | thrown ↦ thrown
      ])
      else if str_eq "TIMESTAMP" c.name
      then (elim (stoull c.value) [
        | parsed ts ↦ value_row row (set_timestamp val ts)
        | rejected ↦ rejected
        | thrown ↦ thrown
      ])
      else value_row row val

  -- The callback, on `CountCallback`: the index of the value, and what `send_vale` captures.
  unfoldable pub value_callback :
      {A : Type 0} → (VarValue W → ℕ → A → A) → Row → ℕ × A → Reply (ℕ × A)
  unfolding value_row
  value_callback send_vale row (index, a) = elim (value_row row default_value) [
    | parsed val ↦ goes_on (index + 1, send_vale val index a)
    | rejected ↦ aborts (index, a)
    | thrown ↦ escapes
  ]

  abbrev pub drop_index :
      {A : Type 0} → Option (SourceErr × (ℕ × A) × S) → Option (SourceErr × A × S)
  drop_index none = none
  drop_index (some (err, (_, a), s)) = some (err, a, s)

  unfoldable pub fetch_variable_values :
      (A : Type 0) → String → (VarValue W → ℕ → A → A) → A → S → Option (SourceErr × A × S)
  unfolding value_callback
  fetch_variable_values A var_name send_vale a s = drop_index (
      finish (
        exec (ℕ × A) (mprintf select_values_sql (quoted var_name ∷ [])) (value_callback send_vale)
          (0, a) s))

  -- The callback of both `count_variable_values`, which looks for the column COUNT(*).
  unfoldable pub count_callback : {A : Type 0} → (ℕ → A → A) → Row → A → Reply A
  count_callback send_count [] a = goes_on a
  count_callback send_count (c ∷ row) a =
      let rest = count_callback send_count row a in
      if str_eq "COUNT(*)" c.name
      then (elim (stoull c.value) [
        | parsed count ↦ goes_on (send_count count a)
        | rejected ↦ aborts a
        | thrown ↦ escapes
      ])
      else rest

  unfoldable pub count_variable_values :
      (A : Type 0) → String → (ℕ → A → A) → A → S → Option (SourceErr × A × S)
  unfolding count_callback
  count_variable_values A var_name send_count a s =
      finish
        (exec A (mprintf count_values_sql (quoted var_name ∷ [])) (count_callback send_count) a s)

  abbrev pub range_args : String → TimePoint → TimePoint → List (Arg W)
  range_args var_name start_date end_date =
      quoted var_name ∷ integer (milliseconds start_date) ∷ integer (milliseconds end_date) ∷ []

  unfoldable pub fetch_variable_values_between :
      (A : Type 0)
      → String
      → TimePoint
      → TimePoint
      → (VarValue W → ℕ → A → A)
      → A
      → S
      → Option (SourceErr × A × S)
  unfolding value_callback
  fetch_variable_values_between A var_name start_date end_date send_vale a s = drop_index (
      finish (
        exec (ℕ × A) (mprintf select_between_sql (range_args var_name start_date end_date))
          (value_callback send_vale) (0, a) s))

  unfoldable pub count_variable_values_between :
      (A : Type 0)
      → String
      → TimePoint
      → TimePoint
      → (ℕ → A → A)
      → A
      → S
      → Option (SourceErr × A × S)
  unfolding count_callback
  count_variable_values_between A var_name start_date end_date send_count a s = finish (
      exec A (mprintf count_between_sql (range_args var_name start_date end_date))
        (count_callback send_count) a s)

  -- The wrapper as an `IDataSource`.
  abbrev pub sqlite_source : DataSource W S
  sqlite_source = record {
    create_scheme = λ s. some (create_scheme s);
    add_variable = λ var s. some (add_variable var s);
    add_variable_value = λ var s. some (add_variable_value var s);
    fetch_variables = fetch_variables;
    fetch_variable_values = fetch_variable_values;
    count_variable_values = count_variable_values;
    fetch_variable_values_between = fetch_variable_values_between;
    count_variable_values_between = count_variable_values_between;
  }
