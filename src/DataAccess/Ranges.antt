-- ===== src/DataAccess/Ranges.antt =====
-- `DataAccess` over `SQLiteWrapper`: what a fetch for a range of dates gives.
use daqs.Base.{ℕ, ◌≤◌, ◌%◌, ◌*◌, ◌^◌, ◌<◌, ◌≡◌, ap, ◌∙◌, some, List, [], map, length, String}
use daqs.Base.Int.{ℤ}
use daqs.DataModel.{VarValue}
use daqs.DataModel.Floats.{Double, IsIeee}
use daqs.DataSource.{SourceErr, TimePoint}
use daqs.DataSource.Engine.{Engine}
use daqs.DataSource.Tables.{ValueRow, VariableRow, seen, between, of_variable}
use daqs.DataSource.Sql.{IsSql}
use daqs.DataSource.Sqlite.{sqlite_source, milliseconds}
use daqs.DataSource.Reading.{deliver}
use daqs.DataSource.Stored.{outcome, fetch_between-outcome}
use daqs.DataAccess.Fetch.{Shows, fetch_between-Shows}
use daqs.DataAccess.Interface.{AccessErr}
use daqs.DataAccess.{push_back, fetch_variable_values_between}
use daqs.DataAccess.Saved.{IsKnown, select-Known, IsKnown-IsInRange, deliver-push_back}

module _ {W S : Type 0} ⦃d : Double W⦄ (e : Engine W S) (sql : IsSql e) where
  open sql use {tables}

  -- The values of a known variable whose time lies between two dates.
  abbrev pub values_in : ℕ → ℤ → ℤ → List (ValueRow W) → List (VarValue W)
  values_in i lo hi ws = map seen (of_variable i (between lo hi) ws)

  -- On an SQLite database that holds a known variable, with times that fit, a fetch for a range of
  -- dates with a positive limit that `reserve` takes returns Ok and a view, in at most that many, of
  -- the values of the variable whose time lies between the milliseconds of the two dates. These are
  -- fewer than 2^53, and where the limit divides their number, the quotient must not exceed it.
  pub stored_between-Shows :
      (law : IsIeee W) (max_size : ℕ) (name : String) (start end : TimePoint) (max_len i : ℕ)
      (vs : List VariableRow) (ws : List (ValueRow W)) (s : S)
      → IsKnown e sql name i (tables s) vs ws
      → 0 < max_len
      → max_len ≤ max_size
      → let values = values_in i (milliseconds e start) (milliseconds e end) ws in
        length values < 2 ^ 53
        → (length values % max_len ≡ 0 → length values ≤ max_len * max_len)
        → (r : List (VarValue W)) × (s' : S) × (fetch_variable_values_between
              (sqlite_source e)
              max_size
              name
              start
              end
              max_len
              s
            ≡ some (r, AccessErr.ok, s'))
          × (tables s' ≡ tables s)
          × Shows max_len values r
  stored_between-Shows law max_size name start end max_len i vs ws s known positive room small
        fits =
      let lo = milliseconds e start in
      let hi = milliseconds e end in
      let values = values_in i lo hi ws in
      let (s', run, same) =
        fetch_between-outcome e sql name start end push_back [] s
          (IsKnown-IsInRange e sql name i (tables s) vs ws known) in
      let delivered =
        run
        ∙ ap (λ o. outcome o (λ us. deliver push_back 0 (map seen us) []) [] s')
            (select-Known e sql name (between lo hi) i (tables s) vs ws known)
        ∙ ap (λ xs. some (SourceErr.ok, xs, s')) (deliver-push_back values [] 0) in
      let (r, done, shown) =
        fetch_between-Shows law (sqlite_source e) max_size name max_len s s' values positive room
          small start end delivered fits in
      (r, s', done, same, shown)
