-- ===== src/DataAccess/Added.antt =====
-- `DataAccess` over `SQLiteWrapper`: a variable that is added is fetched.

use daqs.DataSource.Sqlite as Sqlite
use daqs.Base.{
  ℕ, ◌+◌, ◌≡◌, refl, sym, ap, ◌∙◌, none, some, List, [], ◌∷◌, ◌++◌, map, append_assoc, append-nil,
  map-append,
}
use daqs.DataModel.{Variable}
use daqs.DataModel.Floats.{Double}
use daqs.DataSource.Engine.{Engine}
use daqs.DataSource.Tables.{Tables, VariableRow, seen_variable, id_of, id_of-last, insert_variable}
use daqs.DataSource.Sql.{IsSql}
use daqs.DataSource.Sqlite.{sqlite_source, milliseconds}
use daqs.DataSource.Reading.{deliver_0}
use daqs.DataSource.Stored.{outcome, fetch_variables-outcome}
use daqs.DataSource.Changed.{add_variable-insert, err_of, tables_of}
use daqs.DataAccess.Interface.{AccessErr}
use daqs.DataAccess.{push_back, add_variable, fetch_variables}

deliver_0-push_back : {X : Type 0} (xs out : List X) → deliver_0 push_back xs out ≡ out ++ xs
unfolding deliver_0
deliver_0-push_back [] out = sym (append-nil out)
deliver_0-push_back (x ∷ xs) out =
    deliver_0-push_back xs (out ++ x ∷ []) ∙ append_assoc out (x ∷ []) xs

module _ {W S : Type 0} ⦃d : Double W⦄ (e : Engine W S) (sql : IsSql e) where
  open sql use {tables}

  insert_variable-new :
      (var : Variable) (vs : List VariableRow) (t : Tables W)
      → t.variables ≡ some vs
      → id_of var.name vs ≡ none
      → let v : VariableRow = record { id = t.next_id; name = var.name; color = var.color } in
        (t' : Tables W) × (insert_variable var.name var.color t ≡ some t')
        × (t'.variables ≡ some (vs ++ v ∷ []))
  insert_variable-new var vs t p free =
      let v : VariableRow = record { id = t.next_id; name = var.name; color = var.color } in
      (
        record { variables = some (vs ++ v ∷ []); values = t.values; next_id = t.next_id + 1 },
        rw (insert_variable, p, free) refl,
        refl,
      )

  insert_variable-old :
      (var : Variable) (i : ℕ) (vs : List VariableRow) (t : Tables W)
      → t.variables ≡ some vs
      → id_of var.name vs ≡ some i
      → insert_variable var.name var.color t ≡ none
  insert_variable-old var i vs t p taken = rw (insert_variable, p, taken) refl

  -- Where the save ends, and what the table holds then.
  pub added :
      (var : Variable) (vs : List VariableRow) (s : S)
      → (tables s).variables ≡ some vs
      → id_of var.name vs ≡ none
      → let v : VariableRow = record {
        id = (tables s).next_id;
        name = var.name;
        color = var.color;
      } in
        (s' : S) × (add_variable (sqlite_source e) var s ≡ some (AccessErr.ok, s'))
        × ((tables s').variables ≡ some (vs ++ v ∷ []))
  unfolding add_variable
  added var vs s p free =
      let (t', inserted, here) = insert_variable-new var vs (tables s) p free in
      let (done, now) = add_variable-insert e sql var s in
      (
        (Sqlite.add_variable e var s).1,
        rw (done ∙ ap err_of inserted) refl,
        ap (λ t. t.variables) (now ∙ ap (tables_of (tables s)) inserted) ∙ here,
      )

  pub fetched :
      (us : List VariableRow) (s : S)
      → (tables s).variables ≡ some us
      → (s' : S) × (fetch_variables (sqlite_source e) s
          ≡ some (map seen_variable us, AccessErr.ok, s'))
        × (tables s' ≡ tables s)
  unfolding fetch_variables
  fetched us s there =
      let (s', run, same) = fetch_variables-outcome e sql push_back [] s in
      (
        s',
        rw
            (
              fetch_variables,
              run
                  ∙ ap (λ o. outcome o (λ xs. deliver_0 push_back (map seen_variable xs) []) [] s')
                      there,
            )
            (ap (λ xs. some (xs, AccessErr.ok, s'))
              (deliver_0-push_back (map seen_variable us) [])),
        same,
      )

  -- In a database with a table of variables, one that is added under a free name comes last in the
  -- next fetch of all variables, and a second one with its name is refused and changes nothing.
  pub added_then_fetched :
      (var : Variable) (vs : List VariableRow) (s : S)
      → (tables s).variables ≡ some vs
      → id_of var.name vs ≡ none
      → let source = sqlite_source e in
        (s' s1 s2 : S) × (add_variable source var s ≡ some (AccessErr.ok, s'))
        × (fetch_variables source s' ≡ some (map seen_variable vs ++ var ∷ [], AccessErr.ok, s1))
        × (add_variable source var s' ≡ some (AccessErr.failed, s2))
        × (tables s2 ≡ tables s')
  unfolding add_variable
  added_then_fetched var vs s p free =
      let v : VariableRow = record {
        id = (tables s).next_id;
        name = var.name;
        color = var.color;
      } in
      let (s', save, there) = added var vs s p free in
      let (s1, seen_all, _) = fetched (vs ++ v ∷ []) s' there in
      let refused =
        insert_variable-old var v.id (vs ++ v ∷ []) (tables s') there (id_of-last v vs free) in
      let (again, same) = add_variable-insert e sql var s' in
      (
        s',
        s1,
        (Sqlite.add_variable e var s').1,
        save,
        seen_all ∙ ap (λ xs. some (xs, AccessErr.ok, s1)) (map-append seen_variable vs (v ∷ [])),
        rw (again ∙ ap err_of refused) refl,
        same ∙ ap (tables_of (tables s')) refused,
      )
