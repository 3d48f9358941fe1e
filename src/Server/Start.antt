-- ===== src/Server/Start.antt =====
-- A start of the server on a new database, and a second start on what the first leaves.
use daqs.Base.{◌≡◌, refl, ap, ◌∙◌, String, none, some, List, [], ◌∷◌}
use daqs.DataModel.Floats.{Double}
use daqs.DataSource.{SourceErr}
use daqs.DataSource.Engine.{Engine}
use daqs.DataSource.Tables.{VariableRow, id_of}
use daqs.DataSource.Sql.{IsSql}
use daqs.DataSource.Sqlite.{create_scheme, open_wrapper, sqlite_source}
use daqs.DataSource.Changed.{create_scheme_new, create_scheme_old}
use daqs.DataAccess.{add_variable, fetch_variables}
use daqs.DataAccess.Interface.{AccessErr}
use daqs.DataAccess.Added.{added, fetched}
use daqs.Server.{throws, accepting, temp, server, with_schema}

module _ {W S : Type 0} ⦃d : Double W⦄ (e : Engine W S) (sql : IsSql e) where
  open sql use {tables}

  -- `sqlite3_open` succeeds and leaves the tables.
  abbrev pub Opens : String → S → Type 0
  Opens db_file s = ((e.open_file db_file s).0 ≡ 0) × (tables (e.open_file db_file s).1 ≡ tables s)

  pub server-opened :
      (db_file : String) (s : S)
      → Opens db_file s
      → server e db_file s ≡ with_schema e (create_scheme e (e.open_file db_file s).1)
  unfolding server open_wrapper
  server-opened db_file s (ok, same) = rw ok refl

  schema_failed :
      (r : SourceErr × S)
      → r.0 ≡ SourceErr.failed
      → with_schema e r ≡ some (throws "Unable to create schema.", r.1)
  schema_failed (SourceErr.failed, s) h = refl
  schema_failed (SourceErr.ok, s) h = cc

  -- On a database whose variables have a table, the server throws and leaves the tables.
  pub server_old :
      (db_file : String) (vs : List VariableRow) (s : S)
      → Opens db_file s
      → (tables s).variables ≡ some vs
      → (s' : S) × (server e db_file s ≡ some (throws "Unable to create schema.", s'))
        × (tables s' ≡ tables s)
  server_old db_file vs s (ok, same) there =
      let s1 = (e.open_file db_file s).1 in
      let (failed, kept) = create_scheme_old e sql vs s1 (ap (λ t. t.variables) same ∙ there) in
      (
        (create_scheme e s1).1,
        server-opened db_file s (ok, same) ∙ schema_failed (create_scheme e s1) failed,
        kept ∙ same,
      )

  pub schema_created :
      (r : SourceErr × S) (s' : S)
      → r.0 ≡ SourceErr.ok
      → add_variable (sqlite_source e) temp r.1 ≡ some (AccessErr.ok, s')
      → with_schema e r ≡ some (accepting, s')
  schema_created (SourceErr.ok, s) s' h p = rw (with_schema, p) refl
  schema_created (SourceErr.failed, s) s' h p = cc

  -- If SQLite opens the file and leaves its tables, a start on a database without tables accepts
  -- connections, and the one variable that is fetched then is "temp"; a second start on the database
  -- that the first leaves throws, and changes no table.
  pub server_twice :
      (db_file : String) (s : S)
      → ((s : S) → Opens db_file s)
      → (tables s).variables ≡ none
      → (tables s).values ≡ none
      → (s' s1 s2 : S) × (server e db_file s ≡ some (accepting, s'))
        × (fetch_variables (sqlite_source e) s' ≡ some (temp ∷ [], AccessErr.ok, s1))
        × (server e db_file s' ≡ some (throws "Unable to create schema.", s2))
        × (tables s2 ≡ tables s')
  unfolding id_of
  server_twice db_file s opens no_variables no_values =
      let s0 = (e.open_file db_file s).1 in
      let same = (opens s).1 in
      let (ok, now) =
        create_scheme_new e sql s0 (ap (λ t. t.variables) same ∙ no_variables)
          (ap (λ t. t.values) same ∙ no_values) in
      let (s', save, there) =
        added e sql temp [] (create_scheme e s0).1 (ap (λ t. t.variables) now) refl in
      let (s1, seen, _) = fetched e sql _ s' there in
      let (s2, refused, kept) = server_old db_file _ s' (opens s') there in
      (
        s',
        s1,
        s2,
        server-opened db_file s (opens s) ∙ schema_created (create_scheme e s0) s' ok save,
        seen,
        refused,
        kept,
      )
