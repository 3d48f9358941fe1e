-- ===== src/DataAccess/Calls.antt =====
-- The calls of a data access, what `DataAccess` does for them, and what a history of the variables
-- allows as their results.
use daqs.Base.{ℕ, ◌≡◌, true, false, String, Option, none, some, List, [], ◌∷◌, ◌++◌, map}
use daqs.DataModel.{Variable, VarValue, value_name, default_variable}
use daqs.DataSource.History.{History, has_name, values_of, new_entry, history_with}
use daqs.DataAccess.{infinity}
use daqs.DataAccess.Interface.{AccessErr, IDataAccess}

pub data Call (W : Type 0) : Type 0 where
  add : Variable → Call W
  save : VarValue W → Call W
  list_all : Call W
  list_values : String → Call W

pub data Result (W : Type 0) : Type 0 where
  status : AccessErr → Result W
  variables : List Variable → AccessErr → Result W
  values : List (VarValue W) → AccessErr → Result W

module _ {W S : Type 0} (da : IDataAccess W S) where
  abbrev pub as_status : Option (AccessErr × S) → Option (Result W × S)
  as_status none = none
  as_status (some (err, s)) = some (status err, s)

  abbrev pub as_variables : Option (List Variable × AccessErr × S) → Option (Result W × S)
  as_variables none = none
  as_variables (some (vars, err, s)) = some (variables vars err, s)

  abbrev pub as_values : Option (List (VarValue W) × AccessErr × S) → Option (Result W × S)
  as_values none = none
  as_values (some (vals, err, s)) = some (values vals err, s)

  -- The values are asked for without a limit.
  unfoldable pub perform : Call W → S → Option (Result W × S)
  perform (add var) s = as_status (da.add_variable var s)
  perform (save v) s = as_status (da.add_variable_value v s)
  perform list_all s = as_variables (da.fetch_variables s)
  perform (list_values name) s = as_values (da.fetch_variable_values name infinity s)

  abbrev pub with_result : Result W → Option (List (Result W) × S) → Option (List (Result W) × S)
  with_result r none = none
  with_result r (some (rs, s)) = some (r ∷ rs, s)

  unfoldable pub perform_all : List (Call W) → S → Option (List (Result W) × S)
  unfolding perform
  perform_all [] s = some ([], s)
  perform_all (call ∷ calls) s = elim (perform call s) [
    | none ↦ none
    | some (r, s') ↦ with_result r (perform_all calls s')
  ]

-- The results that a history allows, and the history that follows. A value is kept as the database
-- rounds it, at some time, and without a name; an infinity or a NaN is refused.
pub data Allowed {W : Type 0} (rounded : W → Option W)
    : History W → Call W → Result W → History W → Type 0 where
  added :
      (h : History W) (var : Variable)
      → has_name var.name h ≡ false
      → Allowed rounded h (add var) (status AccessErr.ok) (h ++ new_entry var ∷ [])
  refused :
      (h : History W) (var : Variable)
      → has_name var.name h ≡ true
      → Allowed rounded h (add var) (status AccessErr.failed) h
  saved :
      (h : History W) (v : VarValue W) (n : ℕ) (x : W)
      → has_name (value_name v) h ≡ true
      → rounded v.val ≡ some x
      → Allowed rounded h (save v) (status AccessErr.ok) (
          history_with
            (value_name v)
            (record { variable = default_variable; val = x; timestamp = n })
            h)
  unknown :
      (h : History W) (v : VarValue W)
      → has_name (value_name v) h ≡ false
      → Allowed rounded h (save v) (status AccessErr.failed) h
  no_number :
      (h : History W) (v : VarValue W)
      → rounded v.val ≡ none
      → Allowed rounded h (save v) (status AccessErr.failed) h
  listed :
      (h : History W)
      → Allowed rounded h list_all (variables (map (λ en. en.variable) h) AccessErr.ok) h
  fetched :
      (h : History W) (name : String)
      → Allowed rounded h (list_values name) (values (values_of name h) AccessErr.ok) h

pub data Trace {W : Type 0} (rounded : W → Option W)
    : History W → List (Call W) → List (Result W) → History W → Type 0 where
  over : (h : History W) → Trace rounded h [] [] h
  step :
      {h h' h'' : History W} {call : Call W} {calls : List (Call W)} {r : Result W}
      {rs : List (Result W)}
      → Allowed rounded h call r h'
      → Trace rounded h' calls rs h''
      → Trace rounded h (call ∷ calls) (r ∷ rs) h''
