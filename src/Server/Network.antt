-- ===== src/Server/Network.antt =====
-- The server with the bytes on its connections: what a session waits for completes when the bytes are
-- there, and a turn of a session is one such completion (src/database-server/server.cc, session.cc).
use daqs.Base.{
  ℕ, false, Option, none, some, List, [], ◌∷◌, ◌++◌, ◌==◌, leb, if◌then◌else◌, length, take, drop,
  get_elem?,
}
use daqs.DataAccess.Interface.{IDataAccess}
use daqs.Protocol.{Codec}
use daqs.Session.{
  Phase, Event, reading_meta, reading_header, reading_body, writing, ended, did_read, did_write,
  mh_size,
}
use daqs.Server.System.{System, completed, react}

-- A function with another result at one place.
abbrev pub put : {A : Type 0} → ℕ → A → (ℕ → A) → ℕ → A
put i x f j = if i == j then x else f j

-- The sessions, and for each the bytes that it has not read and the messages that it has written.
pub record Net (S : Type 0) : Type 0 where
  pub system : System S
  pub incoming : ℕ → List ℕ
  pub written : ℕ → List (List ℕ)

-- A completion, the bytes that are left, and what was written.
abbrev pub Completion : Type 0
Completion = Event × List ℕ × List (List ℕ)

-- `async_read` completes when all the bytes are there.
abbrev pub taking : ℕ → List ℕ → Option Completion
taking n inc =
    if leb n (length inc) then some (did_read false (take n inc), drop n inc, []) else none

module _ {W : Type 0} (c : Codec W) where
  abbrev pub completion : Phase → List ℕ → Option Completion
  completion reading_meta inc = taking (mh_size c) inc
  completion (reading_header h_size) inc = taking h_size inc
  completion (reading_body t b_size) inc = taking b_size inc
  completion (writing f_buf) inc = some (did_write false (length f_buf), inc, f_buf ∷ [])
  completion ended inc = none

module _ {W S : Type 0} (c : Codec W) (da : IDataAccess W S) (ticks : ℕ) where
  abbrev pub with_system : ℕ → List ℕ → List (List ℕ) → Net S → Option (System S) → Option (Net S)
  with_system i inc wr net none = none
  with_system i inc wr net (some y) = some (record {
    system = y;
    incoming = put i inc net.incoming;
    written = put i (net.written i ++ wr) net.written;
  })

  abbrev pub complete : ℕ → Net S → Option Completion → Option (Net S)
  complete i net none = some net
  complete i net (some (ev, inc, wr)) =
      with_system i inc wr net (react c da ticks (completed i ev) net.system)

  -- A session that waits for more bytes than there are goes on waiting.
  unfoldable pub turn : ℕ → Net S → Option (Net S)
  turn i net = elim (get_elem? net.system.sessions i) [
    | none ↦ some net
    | some p ↦ complete i net (completion c p (net.incoming i))
  ]

  unfoldable pub turns : List ℕ → Net S → Option (Net S)
  turns [] net = some net
  turns (i ∷ is) net = elim (turn i net) [ none ↦ none | some net' ↦ turns is net' ]
