-- ===== src/DataAccess/Whole.antt =====
-- `DataAccess` over `SQLiteWrapper`: a range of dates that covers all values.
use daqs.Base.{
  ℕ, ◌≡◌, refl, ap, inl, inr, true, not, ◌&&◌, ltb, ◌==◌, String, Option, none, some, List, [], ◌∷◌,
  All, Bool-cases, length,
}
use daqs.Base.Int.{ℤ}
use daqs.DataModel.{VarValue}
use daqs.DataModel.Floats.{Double}
use daqs.DataSource.{TimePoint}
use daqs.DataSource.Engine.{Engine}
use daqs.DataSource.Tables.{
  Tables, ValueRow, VariableRow, IsInRange, select_values, select_from, chosen, always, between,
  of_variable, id_of,
}
use daqs.DataSource.Sql.{IsSql}
use daqs.DataSource.Sqlite.{sqlite_source, milliseconds}
use daqs.DataSource.Stored.{outcome, fetch_variable_values-outcome, fetch_between-outcome}
use daqs.DataAccess.{
  push_back, compressed, limit_values, after_fetch, fetch_variable_values,
  fetch_variable_values_between,
}
use daqs.DataAccess.Interface.{AccessErr}

-- What a fetch returns, without the world behind it.
abbrev pub returned : {A B S : Type 0} → Option (A × B × S) → Option (A × B)
returned none = none
returned (some (a, b, s)) = some (a, b)

module _ {W S : Type 0} ⦃d : Double W⦄ where
  compressed-returned :
      (o : Option (AccessErr × List (VarValue W))) (s s' : S)
      → returned (compressed o s) ≡ returned (compressed o s')
  compressed-returned none s s' = refl
  compressed-returned (some (AccessErr.ok, _)) s s' = refl
  compressed-returned (some (AccessErr.failed, _)) s s' = refl
  compressed-returned (some (AccessErr.invalid_argument, _)) s s' = refl

  limit-returned :
      (max_size max_len : ℕ) (vs : List (VarValue W)) (s s' : S)
      → returned (limit_values max_size max_len vs s)
        ≡ returned (limit_values max_size max_len vs s')
  unfolding limit_values
  limit-returned max_size max_len vs s s' =
      elim (Bool-cases (not (max_len == 0) && ltb max_len (length vs))) [
        | inl e ↦ rw e (compressed-returned _ s s')
        | inr e ↦ rw e refl
      ]

  after_fetch-returned :
      {X : Type 0} (max_size max_len : ℕ) (o : Option X) (f : X → List (VarValue W)) (s s' : S)
      → returned (after_fetch max_size max_len (outcome o f [] s))
        ≡ returned (after_fetch max_size max_len (outcome o f [] s'))
  after_fetch-returned max_size max_len none f s s' = refl
  after_fetch-returned max_size max_len (some x) f s s' = limit-returned max_size max_len (f x) s s'

module _ {W : Type 0} where
  -- All times lie in the range.
  abbrev pub Covers : ℤ → ℤ → List (ValueRow W) → Type 0
  Covers lo hi ws = All (λ w. between lo hi w.timestamp ≡ true) ws

  abbrev pub CoversAll : ℤ → ℤ → Option (List (ValueRow W)) → Type 0
  CoversAll lo hi none = Unit
  CoversAll lo hi (some ws) = Covers lo hi ws

  of_variable-Covers :
      (i : ℕ) (lo hi : ℤ) (ws : List (ValueRow W))
      → Covers lo hi ws
      → of_variable i (between lo hi) ws ≡ of_variable i always ws
  unfolding of_variable
  of_variable-Covers i lo hi [] h = refl
  of_variable-Covers i lo hi (w ∷ ws) (h, hs) =
      rw (of_variable, h, of_variable-Covers i lo hi ws hs) refl

  chosen-Covers :
      (o : Option ℕ) (lo hi : ℤ) (ws : List (ValueRow W))
      → Covers lo hi ws
      → chosen o (between lo hi) ws ≡ chosen o always ws
  chosen-Covers none lo hi ws h = refl
  chosen-Covers (some i) lo hi ws h = of_variable-Covers i lo hi ws h

  select-Covers :
      (name : String) (lo hi : ℤ) (t : Tables W)
      → CoversAll lo hi t.values
      → select_values name (between lo hi) t ≡ select_values name always t
  unfolding select_values
  select-Covers name lo hi t h = go t.variables t.values h
    where
      go :
          (vs : Option (List VariableRow)) (ws : Option (List (ValueRow W)))
          → CoversAll lo hi ws
          → select_from name (between lo hi) vs ws ≡ select_from name always vs ws
      go none ws h = refl
      go (some vs) none h = refl
      go (some vs) (some ws) h = ap some (chosen-Covers (id_of name vs) lo hi ws h)

module _ {W S : Type 0} ⦃d : Double W⦄ (e : Engine W S) (sql : IsSql e) where
  open sql use {tables}

  -- On an SQLite database whose times fit and lie between the milliseconds of two dates, a fetch of a
  -- variable for the range of these dates returns what a fetch of all its values with the same limit
  -- returns: the same values and error, for a known variable or not, with tables or without; or both
  -- are undefined.
  pub fetch_covered :
      (max_size : ℕ) (name : String) (start end : TimePoint) (max_len : ℕ) (s : S)
      → IsInRange (tables s).values
      → CoversAll (milliseconds e start) (milliseconds e end) (tables s).values
      → returned (fetch_variable_values_between (sqlite_source e) max_size name start end max_len s)
        ≡ returned (fetch_variable_values (sqlite_source e) max_size name max_len s)
  unfolding fetch_variable_values fetch_variable_values_between
  fetch_covered max_size name start end max_len s fits covers =
      let (s1, run, _) = fetch_variable_values-outcome e sql name push_back [] s fits in
      let (s2, run', _) = fetch_between-outcome e sql name start end push_back [] s fits in
      let same = select-Covers name (milliseconds e start) (milliseconds e end) (tables s) covers in
      rw (run, run', same)
        (after_fetch-returned max_size max_len (select_values name always (tables s)) _ s2 s1)
