-- ===== src/DataSource/Sql.antt =====
-- The documented behaviour of SQLite and of the conversions that the wrapper relies on, as hypotheses
-- about an engine. A SELECT gives the rows in the order of their ids, as SQLite's scan of a table does;
-- the statements have no ORDER BY that would ask for it.
use daqs.Base.{ℕ, suc, ◌^◌, ◌<◌, ◌≡◌, ◌≢◌, String, Option, none, some, List, [], ◌∷◌, map, length}
use mathlib.Core.Option
use daqs.Base.Int.{ℤ, pos}
use daqs.DataSource.Engine.{
  Engine, Row, Reply, quoted, real, integer, goes_on, aborts, escapes, parsed,
}
use daqs.DataSource.Tables.{
  Tables, VariableRow, ValueRow, create_variable, create_value, insert_variable, insert_written,
  select_values, always, between,
}
use daqs.DataSource.Statements.{
  create_variable_text, create_value_text, insert_variable_text, insert_value_text,
  select_variables_text, select_values_text, count_values_text, select_between_text,
  count_between_text,
}

-- `sqlite3_exec` calls the callback for one row after the other, until one does not return 0.
pub data Walked (A : Type 0) : Type 0 where
  done : A → Walked A
  aborted : A → Walked A
  thrown_out : Walked A

unfoldable pub walk : {A : Type 0} → (Row → A → Reply A) → List Row → A → Walked A
walk callback [] a = done a
walk callback (r ∷ rows) a = elim (callback r a) [
  | goes_on a' ↦ walk callback rows a'
  | aborts a' ↦ aborted a'
  | escapes ↦ thrown_out
]

-- `SQLITE_ABORT`
abbrev pub sqlite_abort : ℕ
sqlite_abort = 4

abbrev pub code_of : {A S : Type 0} → Walked A → S → Option (ℕ × A × S)
code_of (done a) s = some (0, a, s)
code_of (aborted a) s = some (sqlite_abort, a, s)
code_of thrown_out s = none

module _ {W S : Type 0} (e : Engine W S) (tables : S → Tables W) where
  -- A statement without rows.
  abbrev pub HasEffect : Option (Tables W) → S → ℕ × S → Type 0
  HasEffect none s (code, s') = (code ≢ 0) × (tables s' ≡ tables s)
  HasEffect (some t) s (code, s') = (code ≡ 0) × (tables s' ≡ t)

  -- A statement with rows; one that fails calls no callback.
  abbrev pub Gives : e.Query → Option (List Row) → S → Type 1
  Gives q none s =
      (A : Type 0) (callback : Row → A → Reply A) (a : A)
      → (code : ℕ) × (s' : S) × (e.exec A q callback a s ≡ some (suc code, a, s'))
        × (tables s' ≡ tables s)
  Gives q (some rows) s =
      (A : Type 0) (callback : Row → A → Reply A) (a : A)
      → (s' : S) × (e.exec A q callback a s ≡ code_of (walk callback rows a) s')
        × (tables s' ≡ tables s)

-- The cells of the rows, with the texts that SQLite writes for a number.
abbrev pub variable_cells : VariableRow → Row
variable_cells v =
    record { name = "COLOR"; value = some v.color }
    ∷ record { name = "NAME"; value = some v.name }
    ∷ []

abbrev pub value_cells : {W : Type 0} → (W → String) → (ℕ → String) → ValueRow W → Row
value_cells val_text number_text w =
    record { name = "VAL"; value = some (val_text w.val) }
    ∷ record { name = "TIMESTAMP"; value = some (number_text w.timestamp) }
    ∷ []

abbrev pub count_cells : {W : Type 0} → (ℕ → String) → List (ValueRow W) → List Row
count_cells number_text ws =
    (record { name = "COUNT(*)"; value = some (number_text (length ws)) } ∷ []) ∷ []

pub record IsSql {W S : Type 0} (e : Engine W S) : Type 1 where
  pub tables : S → Tables W
  -- the number that `%f` writes for another, with six decimals; an infinity or a NaN is written as a
  -- word that is no number, and the statement fails
  pub rounded : W → Option W
  -- the texts of a cell
  pub val_text : W → String
  pub number_text : ℕ → String
  pub stod_text : (x : W) → e.stod (some (val_text x)) ≡ parsed x
  pub stoull_text : (n : ℕ) → n < 2 ^ 64 → e.stoull (some (number_text n)) ≡ parsed n
  pub run_create_variable :
      (s : S)
      → HasEffect e tables (create_variable (tables s)) s (e.run (e.plain create_variable_text) s)
  pub run_create_value :
      (s : S) → HasEffect e tables (create_value (tables s)) s (e.run (e.plain create_value_text) s)
  pub run_insert_variable :
      (name color : String) (s : S)
      → HasEffect e tables
          (insert_variable name color (tables s))
          s
          (e.run (e.mprintf insert_variable_text (quoted name ∷ quoted color ∷ [])) s)
  pub run_insert_value :
      (val : W) (timestamp : ℕ) (name : String) (s : S)
      → HasEffect e tables (insert_written (rounded val) timestamp name (tables s)) s (
          e.run
            (e.mprintf insert_value_text (real val ∷ integer (pos timestamp) ∷ quoted name ∷ []))
            s)
  pub exec_variables :
      (s : S)
      → Gives e tables
          (e.plain select_variables_text)
          (Option.map (map variable_cells) (tables s).variables)
          s
  pub exec_values :
      (name : String) (s : S)
      → Gives e tables
          (e.mprintf select_values_text (quoted name ∷ []))
          (Option.map
            (map (value_cells val_text number_text))
            (select_values name always (tables s)))
          s
  pub exec_between :
      (name : String) (lo hi : ℤ) (s : S)
      → Gives e tables
          (e.mprintf select_between_text (quoted name ∷ integer lo ∷ integer hi ∷ []))
          (Option.map
            (map (value_cells val_text number_text))
            (select_values name (between lo hi) (tables s)))
          s
  pub exec_count :
      (name : String) (s : S)
      → Gives e tables
          (e.mprintf count_values_text (quoted name ∷ []))
          (Option.map (count_cells number_text) (select_values name always (tables s)))
          s
  pub exec_count_between :
      (name : String) (lo hi : ℤ) (s : S)
      → Gives e tables
          (e.mprintf count_between_text (quoted name ∷ integer lo ∷ integer hi ∷ []))
          (Option.map (count_cells number_text) (select_values name (between lo hi) (tables s)))
          s
