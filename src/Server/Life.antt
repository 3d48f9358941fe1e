-- ===== src/Server/Life.antt =====
-- The server from the start on a new database on, and how `main` ends.
use mathlib.Core.Path.{subst}
use daqs.Base.{ℕ, ◌≡◌, refl, ap, ◌∙◌, false, String, none, some, List, [], ◌∷◌, ◌==◌, Option}
use daqs.DataModel.{Variable}
use daqs.DataModel.Floats.{Double}
use daqs.DataSource.Engine.{Engine}
use daqs.DataSource.Sql.{IsSql}
use daqs.DataSource.Sqlite.{create_scheme}
use daqs.DataSource.Changed.{create_scheme_new}
use daqs.DataSource.History.{History, has_name, new_entry}
use daqs.DataAccess.Interface.{AccessErr, IDataAccess}
use daqs.DataAccess.Calls.{Result, add, status, perform, as_status, Allowed}
use daqs.DataAccess.Represents.{Represents, HasClock, source_access, Refines-add}
use daqs.DataAccess.Refined.{empty-Represents}
use daqs.Protocol.{Codec}
use daqs.Server.{accepting, temp, server}
use daqs.Server.Start.{Opens, server-opened, schema_created, server_twice}
use daqs.Server.System.{Action, react_all, returns, serving, caught, main}
use daqs.Server.Kept.{GoesOn, react_all-Grows}

module _ {W S : Type 0} (da : IDataAccess W S) where
  status-ok :
      (o : Option (AccessErr × S)) (s : S)
      → as_status da o ≡ some (status AccessErr.ok, s)
      → o ≡ some (AccessErr.ok, s)
  status-ok none s e = cc
  status-ok (some (err, s')) s e = cc

module _ {W : Type 0} {rounded : W → Option W} where
  -- The first variable is added.
  first-added :
      (var : Variable) (r : Result W) (h : History W)
      → Allowed rounded [] (add var) r h
      → (r ≡ status AccessErr.ok) × (h ≡ new_entry var ∷ [])
  unfolding has_name
  first-added var _ _ (Allowed.added _ _ free) = (refl, refl)
  first-added var _ _ (Allowed.refused _ _ taken) = cc

module _ {W S : Type 0} ⦃d : Double W⦄ (e : Engine W S) (sql : IsSql e) (max_size : ℕ) where
  open sql use {tables}

  -- After a start on a new database the history is that of "temp", without values.
  started-Represents :
      (db_file : String) (s : S)
      → Opens e sql db_file s
      → (tables s).variables ≡ none
      → (tables s).values ≡ none
      → (s' : S) × (server e db_file s ≡ some (accepting, s'))
        × Represents e sql max_size s' (new_entry temp ∷ [])
  unfolding perform
  started-Represents db_file s (opens, same) no_variables no_values =
      let s0 = (e.open_file db_file s).1 in
      let (ok, now) =
        create_scheme_new e sql s0 (ap (λ t. t.variables) same ∙ no_variables)
          (ap (λ t. t.values) same ∙ no_values) in
      let (r, s', h', done, allowed, rep) =
        Refines-add e sql max_size [] temp (create_scheme e s0).1
          (empty-Represents e sql max_size _ (create_scheme e s0).1 now) in
      let (r_ok, h_is) = first-added temp r h' allowed in
      let save =
        status-ok (source_access e sql max_size) _ s' (done ∙ ap (λ x. some (x, s')) r_ok) in
      (
        s',
        server-opened e sql db_file s (opens, same)
            ∙ schema_created e sql (create_scheme e s0) s' ok save,
        subst (Represents e sql max_size s') h_is rep,
      )

  -- The server that starts on a new database, which SQLite opens, accepts connections; and whatever
  -- its sessions receive then, if this has a defined result, the database represents a history of the
  -- variables that begins with "temp", in which no value was lost or changed. Time is not before the
  -- epoch and fits.
  pub started-Grows :
      (c : Codec W) (clock : HasClock e sql max_size) (db_file : String) (acts : List Action)
      (s : S)
      → Opens e sql db_file s
      → (tables s).variables ≡ none
      → (tables s).values ≡ none
      → (s' : S) × (server e db_file s ≡ some (accepting, s'))
        × GoesOn c e sql max_size e.ticks clock (new_entry temp ∷ []) (
            react_all c
              (source_access e sql max_size)
              e.ticks
              acts
              (record { sessions = []; world = s' }))
  started-Grows c clock db_file acts s opens no_variables no_values =
      let (s', start, rep) = started-Represents db_file s opens no_variables no_values in
      (
        s',
        start,
        react_all-Grows c e sql max_size e.ticks clock (new_entry temp ∷ []) acts
            (record { sessions = []; world = s' }) rep,
      )

  -- If SQLite opens the file and leaves its tables, `main` on a new database serves; a second run of
  -- it on the database that this leaves prints that the schema cannot be created and returns 0, as
  -- after a success, without a change of the tables; and a run with no argument, or several, returns 1
  -- and touches nothing.
  pub main_twice :
      (argc : ℕ) (s : S)
      → ((s : S) → Opens e sql "/tmp/sql.db" s)
      → (tables s).variables ≡ none
      → (tables s).values ≡ none
      → (argc == 2) ≡ false
      → (s' s2 : S) × (main e 2 s ≡ some (serving s'))
        × (main e 2 s' ≡ some (returns 0 "Unable to create schema." s2))
        × (tables s2 ≡ tables s')
        × (main e argc s ≡ some (returns 1 "Usage: async_tcp_echo_server <port>" s))
  unfolding main
  main_twice argc s opens no_variables no_values other =
      let (s', s1, s2, start, seen, again, kept) =
        server_twice e sql "/tmp/sql.db" s opens no_variables no_values in
      (s', s2, ap (caught e) start, ap (caught e) again, kept, rw other refl)
