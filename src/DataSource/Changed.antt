-- ===== src/DataSource/Changed.antt =====
-- What the methods of SQLiteWrapper that change the database do to its tables, and what a fetch gives
-- after a save.
use mathlib.Core.Path.{subst}
use daqs.Base.{
  ℕ, zero, suc, ◌≡◌, refl, ap, ◌∙◌, Option, none, some, List, [], ◌∷◌, arith, String, pos→ne_zero,
  ◌==◌, Bool-cases, inl, inr,
}
use daqs.Base.Int.{pos}
use daqs.DataModel.{VarValue, Variable, value_name}
use daqs.DataModel.Floats.{Double}
use daqs.DataSource.{SourceErr}
use daqs.DataSource.Engine.{Engine}
use daqs.DataSource.Tables.{Tables, VariableRow, create_value, insert_variable, insert_written}
use daqs.DataSource.Sql.{IsSql, HasEffect}
use daqs.DataSource.Sqlite.{
  create_variable_sql, create_value_sql, code_err, milliseconds, create_scheme, run_all,
  add_variable, add_variable_value,
}

-- The result of a statement that gives the tables `o`, from the tables `t`.
abbrev pub err_of : {T : Type 0} → Option T → SourceErr
err_of none = SourceErr.failed
err_of (some t) = SourceErr.ok

abbrev pub tables_of : {T : Type 0} → T → Option T → T
tables_of t none = t
tables_of t (some t') = t'

-- The two statements of the schema, the second only after the first.
abbrev pub then_create_value : {W : Type 0} → Tables W → Option (Tables W) → SourceErr × Tables W
then_create_value t none = (SourceErr.failed, t)
then_create_value t (some t') = (err_of (create_value t'), tables_of t' (create_value t'))

module _ {W S : Type 0} ⦃d : Double W⦄ (e : Engine W S) (sql : IsSql e) where
  open sql use {tables, rounded}

  effect_lem :
      (o : Option (Tables W)) (s : S) (r : ℕ × S)
      → HasEffect e tables o s r
      → (code_err r.0 ≡ err_of o) × (tables r.1 ≡ tables_of (tables s) o)
  effect_lem none s (zero, s') (bad, same) = absurd (bad refl)
  effect_lem none s (suc code, s') (bad, same) =
      (rw (pos→ne_zero (suc code) (omega arith)) refl, same)
  effect_lem (some t) s (code, s') (ok, now) = (rw ok refl, now)

  -- A variable is added with a new id at the end of its table, and the result is Ok; with a name that
  -- is there already, or without the table, the result is Failed and the tables stay.
  pub add_variable-insert :
      (var : Variable) (s : S)
      → let o = insert_variable var.name var.color (tables s) in
        ((add_variable e var s).0 ≡ err_of o)
        × (tables (add_variable e var s).1 ≡ tables_of (tables s) o)
  unfolding add_variable
  add_variable-insert var s = effect_lem _ s _ (sql.run_insert_variable var.name var.color s)

  -- A value is added at the end of its table, for the variable of its name, as the database rounds it
  -- and with the clock's time in milliseconds, whatever time it has itself, and the result is Ok; for
  -- an unknown variable, without a table, or for an infinity or a NaN, the result is Failed and the
  -- tables stay. The clock is not before the epoch.
  pub add_variable_value-insert :
      (v : VarValue W) (n : ℕ) (s : S)
      → milliseconds e (e.now s) ≡ pos n
      → let o = insert_written (rounded v.val) n (value_name v) (tables s) in
        ((add_variable_value e v s).0 ≡ err_of o)
        × (tables (add_variable_value e v s).1 ≡ tables_of (tables s) o)
  unfolding add_variable_value
  add_variable_value-insert v n s clock =
      rw clock (effect_lem _ s _ (sql.run_insert_value v.val n (value_name v) s))

  -- One statement of `create_scheme`.
  run_one-none :
      (text : String) (rest : List String) (s : S)
      → HasEffect e tables none s (e.run (e.plain text) s)
      → let r = run_all e (text ∷ rest) s in (r.0 ≡ SourceErr.failed) × (tables r.1 ≡ tables s)
  unfolding run_all
  run_one-none text rest s (bad, same) =
      let code = (e.run (e.plain text) s).0 in
      elim (Bool-cases (code == 0)) [
        | inl zero_code ↦ absurd (bad (ground arith))
        | inr more ↦ rw more (refl, same)
      ]

  run_one-some :
      (text : String) (rest : List String) (t : Tables W) (s : S)
      → HasEffect e tables (some t) s (e.run (e.plain text) s)
      → (run_all e (text ∷ rest) s ≡ run_all e rest (e.run (e.plain text) s).1)
        × (tables (e.run (e.plain text) s).1 ≡ t)
  unfolding run_all
  run_one-some text rest t s (ok, now) = (rw ok refl, now)

  HasEffect-eq :
      (o o' : Option (Tables W)) (s : S) (r : ℕ × S)
      → o ≡ o'
      → HasEffect e tables o s r
      → HasEffect e tables o' s r
  HasEffect-eq o o' s r p h = subst (λ x. HasEffect e tables x s r) p h

  abbrev pub empty_tables : Tables W → Tables W
  empty_tables t = record { variables = some []; values = some []; next_id = t.next_id }

  pub create_scheme_new :
      (s : S)
      → (tables s).variables ≡ none
      → (tables s).values ≡ none
      → ((create_scheme e s).0 ≡ SourceErr.ok)
        × (tables (create_scheme e s).1 ≡ empty_tables (tables s))
  unfolding create_scheme run_all
  create_scheme_new s no_variables no_values =
      let t = record (tables s) { variables = some [] } in
      let s1 = (e.run (e.plain create_variable_sql) s).1 in
      let (step1, now1) =
        run_one-some create_variable_sql (create_value_sql ∷ []) t s
          (HasEffect-eq _ (some t) s _ (rw no_variables refl) (sql.run_create_variable s)) in
      let (step2, now2) = run_one-some create_value_sql [] (empty_tables (tables s)) s1 (
        HasEffect-eq _ (some (empty_tables (tables s))) s1 _ (rw (now1, no_values) refl)
          (sql.run_create_value s1)) in
      (ap (λ r. r.0) (step1 ∙ step2), ap (λ r. tables r.1) (step1 ∙ step2) ∙ now2)

  pub create_scheme_old :
      (vs : List VariableRow) (s : S)
      → (tables s).variables ≡ some vs
      → ((create_scheme e s).0 ≡ SourceErr.failed) × (tables (create_scheme e s).1 ≡ tables s)
  unfolding create_scheme
  create_scheme_old vs s there =
      run_one-none create_variable_sql (create_value_sql ∷ []) s
        (HasEffect-eq _ none s _ (rw there refl) (sql.run_create_variable s))

  -- On a database without the two tables the schema is created, with both tables empty, and a second
  -- call on the result fails and leaves them.
  pub create_scheme_twice :
      (s : S)
      → (tables s).variables ≡ none
      → (tables s).values ≡ none
      → let s' = (create_scheme e s).1 in
        ((create_scheme e s).0 ≡ SourceErr.ok)
        × ((tables s').variables ≡ some [])
        × ((tables s').values ≡ some [])
        × ((create_scheme e s').0 ≡ SourceErr.failed)
        × (tables (create_scheme e s').1 ≡ tables s')
  create_scheme_twice s no_variables no_values =
      let (ok, now) = create_scheme_new s no_variables no_values in
      let here = ap (λ t. t.variables) now in
      let (failed, same) = create_scheme_old [] (create_scheme e s).1 here in
      (ok, here, ap (λ t. t.values) now, failed, same)
