-- ===== src/DataAccess/Saved.antt =====
-- `DataAccess` over `SQLiteWrapper`: what is saved is fetched.

use daqs.DataSource.Sqlite as Sqlite
use daqs.Base.{
  Bool, All-append, ==_refl, ◌≤◌, ◌%◌, ◌*◌, ℕ, ◌+◌, ◌^◌, ◌<◌, ◌≡◌, refl, sym, ap, ◌∙◌, some, List,
  [], ◌∷◌, ◌++◌, map, length, String, append_assoc, append-nil, map-append,
}
use daqs.Base.Int.{pos}
use daqs.DataModel.{VarValue, value_name, default_variable}
use daqs.DataModel.Floats.{Double}
use daqs.DataSource.{SourceErr}
use daqs.DataSource.Engine.{Engine}
use daqs.DataSource.Tables.{
  Tables, ValueRow, VariableRow, IsBounded, IsInRange, seen, select_values, always, id_of,
  of_variable, of_variable-append, insert_value, insert_written,
}
use daqs.DataSource.Valid.{filled, insert_value-filled}
use daqs.DataSource.Sql.{IsSql}
use daqs.DataSource.Sqlite.{sqlite_source, milliseconds}
use daqs.DataSource.Reading.{deliver}
use daqs.DataSource.Stored.{outcome, fetch_variable_values-outcome}
use daqs.DataSource.Changed.{add_variable_value-insert, err_of, tables_of}
use daqs.DataModel.Floats.{IsIeee}
use daqs.DataAccess.Fetch.{Shows, fetch-Shows}
use daqs.DataAccess.Interface.{AccessErr}
use daqs.DataAccess.{push_back, infinity, limit_values, add_variable_value, fetch_variable_values}

pub deliver-push_back :
    {X : Type 0} (xs out : List X) (index : ℕ) → deliver push_back index xs out ≡ out ++ xs
unfolding deliver
deliver-push_back [] out index = sym (append-nil out)
deliver-push_back (x ∷ xs) out index =
    deliver-push_back xs (out ++ x ∷ []) (index + 1) ∙ append_assoc out (x ∷ []) xs

module _ {W S : Type 0} ⦃d : Double W⦄ (e : Engine W S) (sql : IsSql e) where
  open sql use {tables, rounded}

  -- Without a limit the whole selection is returned.
  pub fetch_all :
      (max_size : ℕ) (name : String) (ws : List (ValueRow W)) (s : S)
      → IsInRange (tables s).values
      → select_values name always (tables s) ≡ some ws
      → (s' : S) × (fetch_variable_values (sqlite_source e) max_size name infinity s
          ≡ some (map seen ws, AccessErr.ok, s'))
        × (tables s' ≡ tables s)
  unfolding fetch_variable_values limit_values
  fetch_all max_size name ws s h there =
      let (s', run, same) = fetch_variable_values-outcome e sql name push_back [] s h in
      (s', rw run (rw there (rw (deliver-push_back (map seen ws) [] 0) refl)), same)

  -- The database knows the variable `name`, and its values.
  abbrev pub IsKnown : String → ℕ → Tables W → List VariableRow → List (ValueRow W) → Type 0
  IsKnown name i t vs ws =
      (t.variables ≡ some vs) × (t.values ≡ some ws) × (id_of name vs ≡ some i) × IsBounded ws

  pub select-Known :
      (name : String) (test : ℕ → Bool) (i : ℕ) (t : Tables W) (vs : List VariableRow)
      (ws : List (ValueRow W))
      → IsKnown name i t vs ws
      → select_values name test t ≡ some (of_variable i test ws)
  unfolding select_values
  select-Known name test i t vs ws (p, q, known, h) = rw (p, q, known) refl

  pub IsKnown-IsInRange :
      (name : String) (i : ℕ) (t : Tables W) (vs : List VariableRow) (ws : List (ValueRow W))
      → IsKnown name i t vs ws
      → IsInRange t.values
  IsKnown-IsInRange name i t vs ws (p, q, known, h) = rw q h

  -- A last row of the variable is seen last.
  seen_last :
      (i n : ℕ) (x : W) (ws : List (ValueRow W))
      → let w : ValueRow W = record { val = x; timestamp = n; variable_id = i } in
        map seen (of_variable i always (ws ++ w ∷ []))
        ≡ map seen (of_variable i always ws) ++ seen w ∷ []
  unfolding of_variable
  seen_last i n x ws =
      let w : ValueRow W = record { val = x; timestamp = n; variable_id = i } in
      ap (map seen) (of_variable-append i ws (w ∷ []))
      ∙ rw (==_refl i) (map-append seen (of_variable i always ws) (w ∷ []))

  insert-Known :
      (name : String) (i n : ℕ) (x : W) (t : Tables W) (vs : List VariableRow)
      (ws : List (ValueRow W))
      → IsKnown name i t vs ws
      → n < 2 ^ 63
      → (t' : Tables W) × (insert_value x n name t ≡ some t')
        × IsKnown name i t' vs (ws ++ record { val = x; timestamp = n; variable_id = i } ∷ [])
  insert-Known name i n x t vs ws (p, q, known, h) small =
      let w : ValueRow W = record { val = x; timestamp = n; variable_id = i } in
      let whole : t ≡ filled vs ws t.next_id =
        λ j. record { variables = p j; values = q j; next_id = t.next_id } in
      (
        filled vs (ws ++ w ∷ []) t.next_id,
        ap (insert_value x n name) whole ∙ insert_value-filled name i n t.next_id x vs ws known,
        (refl, refl, known, All-append (λ u. u.timestamp < 2 ^ 63) ws (w ∷ []) h (small, tt)),
      )

  -- A value that is saved for a known variable, and is no infinity or NaN, comes last in the next fetch without a limit, behind
  -- the values that a fetch before the save gives: as the database rounds it, with the clock's time and
  -- without a name. The clock is at or behind the epoch, and its time and the stored ones fit.
  pub saved_then_fetched :
      (max_size : ℕ) (v : VarValue W) (x : W) (i n : ℕ) (vs : List VariableRow)
      (ws : List (ValueRow W)) (s : S)
      → rounded v.val ≡ some x
      → IsKnown (value_name v) i (tables s) vs ws
      → milliseconds e (e.now s) ≡ pos n
      → n < 2 ^ 63
      → let name = value_name v in
        let source = sqlite_source e in
        let new : VarValue W = record { variable = default_variable; val = x; timestamp = n } in
        (s' s1 s2 : S) × (old : List (VarValue W)) × (fetch_variable_values source max_size name
            infinity s
          ≡ some (old, AccessErr.ok, s1))
        × (add_variable_value source v s ≡ some (AccessErr.ok, s'))
        × (fetch_variable_values source max_size name infinity s'
            ≡ some (old ++ new ∷ [], AccessErr.ok, s2))
  unfolding add_variable_value
  saved_then_fetched max_size v x i n vs ws s number known clock small =
      let t = tables s in
      let w : ValueRow W = record { val = x; timestamp = n; variable_id = i } in
      let (t', inserted, known') = insert-Known (value_name v) i n x t vs ws known small in
      let (saved, now) = add_variable_value-insert e sql v n s clock in
      let s' = (Sqlite.add_variable_value e v s).1 in
      let written = ap (λ o. insert_written o n (value_name v) t) number ∙ inserted in
      let now' : tables s' ≡ t' = now ∙ ap (tables_of t) written in
      let (s1, before, _) =
        fetch_all max_size (value_name v) (of_variable i always ws) s
          (IsKnown-IsInRange _ i t vs ws known)
          (select-Known (value_name v) always i t vs ws known) in
      let (s2, after, _) =
        fetch_all max_size (value_name v) (of_variable i always (ws ++ w ∷ [])) s'
          (rw now' (IsKnown-IsInRange _ i t' vs (ws ++ w ∷ []) known'))
          (rw now' (select-Known (value_name v) always i t' vs (ws ++ w ∷ []) known')) in
      (
        s',
        s1,
        s2,
        map seen (of_variable i always ws),
        before,
        rw (saved ∙ ap err_of written) refl,
        after ∙ ap (λ xs. some (xs, AccessErr.ok, s2)) (seen_last i n x ws),
      )

  -- On an SQLite database that holds fewer than 2^53 values of a known variable, with times that fit,
  -- a fetch with a positive limit that `reserve` takes returns Ok and a view of these values in at most
  -- that many: the values themselves, or one summary for each of balanced runs of them. Where the
  -- limit divides their number, the quotient must not exceed it.
  pub stored-Shows :
      (law : IsIeee W) (max_size : ℕ) (name : String) (max_len i : ℕ) (vs : List VariableRow)
      (ws : List (ValueRow W)) (s : S)
      → IsKnown name i (tables s) vs ws
      → 0 < max_len
      → max_len ≤ max_size
      → let values = map seen (of_variable i always ws) in
        length values < 2 ^ 53
        → (length values % max_len ≡ 0 → length values ≤ max_len * max_len)
        → (r : List (VarValue W)) × (s' : S) × (fetch_variable_values
              (sqlite_source e)
              max_size
              name
              max_len
              s
            ≡ some (r, AccessErr.ok, s'))
          × Shows max_len values r
  stored-Shows law max_size name max_len i vs ws s known positive room small fits =
      let values = map seen (of_variable i always ws) in
      let (s', run, _) =
        fetch_variable_values-outcome e sql name push_back [] s
          (IsKnown-IsInRange name i (tables s) vs ws known) in
      let delivered =
        run
        ∙ ap (λ o. outcome o (λ us. deliver push_back 0 (map seen us) []) [] s')
            (select-Known name always i (tables s) vs ws known)
        ∙ ap (λ xs. some (SourceErr.ok, xs, s')) (deliver-push_back values [] 0) in
      let (r, done, shown) =
        fetch-Shows law (sqlite_source e) max_size name max_len s s' values positive room small
          delivered fits in
      (r, s', done, shown)
