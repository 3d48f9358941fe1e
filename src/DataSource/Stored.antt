-- ===== src/DataSource/Stored.antt =====
-- What the methods of SQLiteWrapper do to the two tables of the database, and what they send.
use mathlib.Core.Option
use mathlib.Core.Path.{subst}
use daqs.Base.{
  ℕ, suc, ◌+◌, ◌^◌, ◌<◌, ◌≡◌, refl, ap, ◌∙◌, Bool, Option, none, some, List, map, arith, length,
  String, pos→ne_zero,
}
use daqs.DataModel.{VarValue, Variable}
use daqs.DataModel.Floats.{Double}
use daqs.DataSource.{SourceErr, TimePoint}
use daqs.DataSource.Engine.{Engine, Reply, Row}
use daqs.DataSource.Tables.{
  ValueRow, IsBounded, IsInRange, seen, seen_variable, select_values, select_values-IsInRange,
  always, between,
}
use daqs.DataSource.Sql.{IsSql, Gives, walk, done, value_cells}
use daqs.DataSource.Reading.{deliver, deliver_0, walk-values, walk-variables, walk-count}
use daqs.DataSource.Sqlite.{
  value_callback, finish, drop_index, milliseconds, fetch_variables, fetch_variable_values,
  count_variable_values, fetch_variable_values_between, count_variable_values_between,
}

-- A method fails, and sends nothing, if the statement does; else the outcome is `f` of its rows.
abbrev pub outcome : {X A S : Type 0} → Option X → (X → A) → A → S → Option (SourceErr × A × S)
outcome none f a s = some (SourceErr.failed, a, s)
outcome (some x) f a s = some (SourceErr.ok, f x, s)

module _ {W S : Type 0} ⦃d : Double W⦄ (e : Engine W S) (sql : IsSql e) where
  open sql use {tables}

  exec-outcome :
      {X A : Type 0} (q : e.Query) (o : Option X) (cells : X → List Row) (s : S)
      → Gives e tables q (Option.map cells o) s
      → (callback : Row → A → Reply A) (f : X → A) (a : A)
      → ((x : X) → o ≡ some x → walk callback (cells x) a ≡ done (f x))
      → (s' : S) × (finish e (e.exec A q callback a s) ≡ outcome o f a s') × (tables s' ≡ tables s)
  exec-outcome {X} {A} q none cells s g callback f a h =
      let (code, s', run, same) = g A callback a in
      (s', rw run (rw (pos→ne_zero (suc code) (omega arith)) refl), same)
  exec-outcome {X} {A} q (some x) cells s g callback f a h =
      let (s', run, same) = g A callback a in (s', rw (run, h x refl) refl, same)

  -- The values of rows, sent one after the other with their indices.
  abbrev pub deliver_values : {A : Type 0} → (VarValue W → ℕ → A → A) → A → List (ValueRow W) → A
  deliver_values send_vale a ws = deliver send_vale 0 (map seen ws) a

  drop_index-outcome :
      {A : Type 0} (o : Option (List (ValueRow W))) (f : List (ValueRow W) → A) (a : A) (s : S)
      → drop_index e (outcome o (λ ws. (0 + length ws, f ws)) (0, a) s) ≡ outcome o f a s
  drop_index-outcome none f a s = refl
  drop_index-outcome (some ws) f a s = refl

  IsBounded-some :
      (o : Option (List (ValueRow W))) (ws : List (ValueRow W))
      → IsInRange o
      → o ≡ some ws
      → IsBounded ws
  IsBounded-some none ws h e = cc
  IsBounded-some (some us) ws h e = subst IsInRange e h

  -- Both statements that select values.
  exec_values-outcome :
      {A : Type 0} (q : e.Query) (test : ℕ → Bool) (name : String)
      (send_vale : VarValue W → ℕ → A → A) (a : A) (s : S)
      → IsInRange (tables s).values
      → Gives e tables q
          (Option.map
            (map (value_cells sql.val_text sql.number_text))
            (select_values name test (tables s)))
          s
      → (s' : S) × (drop_index e (finish e (e.exec (ℕ × A) q (value_callback e send_vale) (0, a) s))
          ≡ outcome (select_values name test (tables s)) (deliver_values send_vale a) a s')
        × (tables s' ≡ tables s)
  exec_values-outcome {A} q test name send_vale a s h g =
      let o = select_values name test (tables s) in
      let (s', run, same) =
        exec-outcome q o _ s g (value_callback e send_vale)
          (λ ws. (0 + length ws, deliver_values send_vale a ws)) (0, a)
          (λ ws p.
            walk-values e sql send_vale ws 0 a
              (IsBounded-some o ws (select_values-IsInRange name test (tables s) h) p)) in
      (s', ap (drop_index e) run ∙ drop_index-outcome o (deliver_values send_vale a) a s', same)

  -- If the stored times fit their column, the values of a variable are sent in the order of the table,
  -- with their indices and without a name, and the result is Ok; for an unknown variable none are. If
  -- a table is missing, nothing is sent and the result is Failed. The tables stay.
  pub fetch_variable_values-outcome :
      {A : Type 0} (name : String) (send_vale : VarValue W → ℕ → A → A) (a : A) (s : S)
      → IsInRange (tables s).values
      → (s' : S) × (fetch_variable_values e A name send_vale a s
          ≡ outcome (select_values name always (tables s)) (deliver_values send_vale a) a s')
        × (tables s' ≡ tables s)
  unfolding fetch_variable_values
  fetch_variable_values-outcome name send_vale a s h =
      exec_values-outcome _ always name send_vale a s h (sql.exec_values name s)

  -- If the stored times fit their column, the fetch for a range of dates sends, in the order of the
  -- table and with their indices, the values of the variable whose time is not before the start and
  -- not after the end, both rounded towards zero to milliseconds, and the result is Ok; if a table is
  -- missing, nothing is sent and the result is Failed. The tables stay.
  pub fetch_between-outcome :
      {A : Type 0} (name : String) (start end : TimePoint) (send_vale : VarValue W → ℕ → A → A)
      (a : A) (s : S)
      → IsInRange (tables s).values
      → (s' : S) × (fetch_variable_values_between e A name start end send_vale a s
          ≡ outcome
              (select_values name (between (milliseconds e start) (milliseconds e end)) (tables s))
              (deliver_values send_vale a)
              a
              s')
        × (tables s' ≡ tables s)
  unfolding fetch_variable_values_between
  fetch_between-outcome name start end send_vale a s h =
      exec_values-outcome _ (between (milliseconds e start) (milliseconds e end)) name send_vale a s
        h (sql.exec_between name (milliseconds e start) (milliseconds e end) s)

  -- The number of the rows fits 64 bits.
  abbrev pub IsCounted : Option (List (ValueRow W)) → Type 0
  IsCounted none = Unit
  IsCounted (some ws) = length ws < 2 ^ 64

  IsCounted-some :
      (o : Option (List (ValueRow W))) (ws : List (ValueRow W))
      → IsCounted o
      → o ≡ some ws
      → length ws < 2 ^ 64
  IsCounted-some none ws h e = cc
  IsCounted-some (some us) ws h e = subst IsCounted e h

  -- A count that fits 64 bits is sent once, and is the number of the values that the fetch of the
  -- same variable sends; if a table is missing nothing is sent and the result is Failed. The tables
  -- stay.
  pub count_variable_values-outcome :
      {A : Type 0} (name : String) (send_count : ℕ → A → A) (a : A) (s : S)
      → IsCounted (select_values name always (tables s))
      → (s' : S) × (count_variable_values e A name send_count a s
          ≡ outcome (select_values name always (tables s)) (λ ws. send_count (length ws) a) a s')
        × (tables s' ≡ tables s)
  unfolding count_variable_values
  count_variable_values-outcome name send_count a s h =
      exec-outcome _ (select_values name always (tables s)) _ s (sql.exec_count name s) _ _ a
        (λ ws p. walk-count e sql send_count ws a (IsCounted-some _ ws h p))

  -- The same for a range of dates.
  count_between-outcome :
      {A : Type 0} (name : String) (start end : TimePoint) (send_count : ℕ → A → A) (a : A) (s : S)
      → let o =
          select_values name (between (milliseconds e start) (milliseconds e end)) (tables s) in
        IsCounted o
        → (s' : S) × (count_variable_values_between e A name start end send_count a s
            ≡ outcome o (λ ws. send_count (length ws) a) a s')
          × (tables s' ≡ tables s)
  unfolding count_variable_values_between
  count_between-outcome name start end send_count a s h =
      exec-outcome _ _ _ s
        (sql.exec_count_between name (milliseconds e start) (milliseconds e end) s) _ _ a
        (λ ws p. walk-count e sql send_count ws a (IsCounted-some _ ws h p))

  -- Every variable is sent in the order of the table, each with the index 0, and the result is Ok; if
  -- the table is missing nothing is sent and the result is Failed. The tables stay.
  pub fetch_variables-outcome :
      {A : Type 0} (send_vale : Variable → ℕ → A → A) (a : A) (s : S)
      → (s' : S) × (fetch_variables e A send_vale a s
          ≡ outcome (tables s).variables (λ vs. deliver_0 send_vale (map seen_variable vs) a) a s')
        × (tables s' ≡ tables s)
  unfolding fetch_variables
  fetch_variables-outcome send_vale a s =
      exec-outcome _ (tables s).variables _ s (sql.exec_variables s) _ _ a
        (λ vs p. walk-variables e sql send_vale vs a)
