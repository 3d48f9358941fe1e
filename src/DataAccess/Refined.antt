-- ===== src/DataAccess/Refined.antt =====
-- `DataAccess` over `SQLiteWrapper` does what a history of the variables says.
mod Tests
use mathlib.Core.Path.{subst}
use daqs.DataSource.Sqlite as Sqlite
use daqs.Base.{
  ℕ, ◌+◌, ◌^◌, ◌<◌, ◌≡◌, refl, sym, ap, ◌∙◌, true, false, String, Option, none, some, List, [], ◌∷◌,
  ◌++◌, map, All-append, inl, inr, Option-cases,
}
use daqs.Base.Int.{pos}
use daqs.DataModel.{Variable, VarValue, value_name, default_variable}
use daqs.DataModel.Floats.{Double}
use daqs.DataSource.Engine.{Engine}
use daqs.DataSource.Tables.{
  Tables, VariableRow, ValueRow, IsBounded, IsInRange, chosen, id_of, seen, seen_variable,
  of_variable, always, select_values, insert_variable, insert_value,
}
use daqs.DataSource.Sql.{IsSql}
use daqs.DataSource.Sqlite.{sqlite_source, milliseconds}
use daqs.DataSource.Changed.{add_variable-insert, add_variable_value-insert, err_of, tables_of}
use daqs.DataSource.History.{
  History, Entry, has_name, values_of, new_entry, history_with, IsValid, view, has_name-view,
  values_of-view, view-last, view-more,
}
use daqs.DataSource.Valid.{
  IsValid-variable, IsValid-value, filled, insert_value-filled, insert_value-unknown,
  insert_variable-filled, insert_variable-taken,
}
use daqs.DataAccess.{access_err, add_variable, add_variable_value, data_access}
use daqs.DataAccess.Interface.{AccessErr, IDataAccess}
use daqs.DataAccess.Added.{fetched}
use daqs.DataAccess.Saved.{fetch_all}
use daqs.DataAccess.Represents.{
  Represents, HasClock, Refines, source_access, same_tables, Refines-add, Refines-save,
}
use daqs.DataAccess.Calls.{
  Call, Result, add, save, list_all, list_values, status, variables, values, perform, perform_all,
  Allowed, Trace, over, step,
}

module _ {W S : Type 0} ⦃d : Double W⦄ (e : Engine W S) (sql : IsSql e) (max_size : ℕ) where
  open sql use {tables, rounded}

  pub variables-view :
      (vs : List VariableRow) (ws : List (ValueRow W))
      → map (λ en. en.variable) (view vs ws) ≡ map seen_variable vs
  unfolding view
  variables-view [] ws = refl
  variables-view (v ∷ vs) ws = ap (◌∷◌ (seen_variable v)) (variables-view vs ws)

  Refines-list_all :
      (h : History W) (s : S) → Represents e sql max_size s h → Refines e sql max_size h list_all s
  unfolding perform
  Refines-list_all h s rep =
      let (s', run, same) = fetched e sql rep.vs s (ap (λ t. t.variables) rep.there) in
      let all : map seen_variable rep.vs ≡ map (λ en. en.variable) h =
        sym (ap (map (λ en. en.variable)) rep.seen_as ∙ variables-view rep.vs rep.ws) in
      (
        variables (map (λ en. en.variable) h) AccessErr.ok,
        s',
        h,
        rw (run, all) refl,
        Allowed.listed h,
        same_tables e sql max_size s s' h same rep,
      )

  pub chosen-view :
      (name : String) (vs : List VariableRow) (ws : List (ValueRow W))
      → map seen (chosen (id_of name vs) always ws) ≡ values_of name (view vs ws)
  chosen-view name vs ws = elim (Option-cases (id_of name vs)) [
    | inl free ↦
        ap (λ o. map seen (chosen o always ws)) free ∙ sym ((values_of-view name vs ws).0 free)
    | inr (i, known) ↦
        ap (λ o. map seen (chosen o always ws)) known ∙ sym ((values_of-view name vs ws).1 i known)
  ]

  Refines-list_values :
      (h : History W) (name : String) (s : S)
      → Represents e sql max_size s h
      → Refines e sql max_size h (list_values name) s
  unfolding perform select_values
  Refines-list_values h name s rep =
      let rows = chosen (id_of name rep.vs) always rep.ws in
      let (s', run, same) =
        fetch_all e sql max_size name rows s
          (subst (λ t. IsInRange t.values) (sym rep.there) rep.bounded)
          (ap (select_values name always) rep.there) in
      let all : map seen rows ≡ values_of name h =
        chosen-view name rep.vs rep.ws ∙ sym (ap (values_of name) rep.seen_as) in
      (
        values (values_of name h) AccessErr.ok,
        s',
        h,
        rw (run, all) refl,
        Allowed.fetched h name,
        same_tables e sql max_size s s' h same rep,
      )

  Refines-call :
      (h : History W) (call : Call W) (s : S)
      → HasClock e sql max_size
      → Represents e sql max_size s h
      → Refines e sql max_size h call s
  Refines-call h (add var) s clock rep = Refines-add e sql max_size h var s rep
  Refines-call h (save v) s clock rep = Refines-save e sql max_size h v s clock rep
  Refines-call h list_all s clock rep = Refines-list_all h s rep
  Refines-call h (list_values name) s clock rep = Refines-list_values h name s rep

  -- From a database that represents a history, every sequence of calls (a variable is added, a value
  -- is saved, all variables or all values of a variable are listed) is performed, its results are ones
  -- that the history allows, and the database represents the history that follows. Time is not before
  -- the epoch and fits.
  pub calls_refined :
      (h : History W) (calls : List (Call W)) (s : S)
      → HasClock e sql max_size
      → Represents e sql max_size s h
      → (rs : List (Result W)) × (s' : S) × (h' : History W) × (perform_all
            (source_access e sql max_size)
            calls
            s
          ≡ some (rs, s'))
        × Trace rounded h calls rs h'
        × Represents e sql max_size s' h'
  unfolding perform_all
  calls_refined h [] s clock rep = ([], s, h, refl, Trace.over h, rep)
  calls_refined h (call ∷ calls) s clock rep =
      let (r, s1, h1, done, allowed, rep1) = Refines-call h call s clock rep in
      let (rs, s2, h2, rest, trace, rep2) = calls_refined h1 calls s1 clock rep1 in
      (r ∷ rs, s2, h2, rw (perform_all, done, rest) refl, Trace.step allowed trace, rep2)

  -- A database of which only the schema was created represents the empty history.
  pub empty-Represents :
      (next : ℕ) (s : S) → tables s ≡ filled [] [] next → Represents e sql max_size s []
  unfolding view
  empty-Represents next s there = record {
    vs = [];
    ws = [];
    next = next;
    there = there;
    valid = (tt, tt, tt);
    bounded = tt;
    seen_as = refl;
  }
