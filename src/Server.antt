-- ===== src/Server.antt =====
-- The class `server` (src/database-server/server.cc): how it starts. The loop that accepts connections
-- is Boost's; each connection is a session of Session.
pub mod Start
pub mod System
pub mod Serial
pub mod Swap
pub mod Replies
pub mod Linear
pub mod Loop
pub mod Limits
pub mod Network
pub mod Stage
pub mod Places
pub mod Outcome
pub mod Advance
pub mod Turn
pub mod Log
pub mod Everyone
pub mod Served
pub mod Clients
pub mod Dates
pub mod Lands
pub mod Kept
pub mod Life
mod Tests
mod LoopTests
mod ClientsTests
use daqs.Base.{String, Option, none, some}
use daqs.DataModel.{Variable, new_variable}
use daqs.DataModel.Floats.{Double}
use daqs.DataSource.{SourceErr}
use daqs.DataSource.Engine.{Engine}
use daqs.DataSource.Sqlite.{open_wrapper, create_scheme, sqlite_source}
use daqs.DataAccess.{add_variable}

-- The constructor throws a string, or the server accepts connections.
pub data Started : Type 0 where
  throws : String → Started
  accepting : Started

abbrev pub temp : Variable
temp = new_variable "temp" "color"

module _ {W S : Type 0} ⦃d : Double W⦄ (e : Engine W S) where
  -- The result of `add_variable` is not looked at.
  abbrev pub with_schema : SourceErr × S → Option (Started × S)
  with_schema (SourceErr.failed, s) = some (throws "Unable to create schema.", s)
  with_schema (SourceErr.ok, s) = elim (add_variable (sqlite_source e) temp s) [
    | none ↦ none
    | some (err, s') ↦ some (accepting, s')
  ]

  abbrev pub with_database : Option String × S → Option (Started × S)
  with_database (some msg, s) = some (throws msg, s)
  with_database (none, s) = with_schema (create_scheme e s)

  unfoldable pub server : String → S → Option (Started × S)
  server db_file s = with_database (open_wrapper e db_file s)
