-- ===== src/Server/System.antt =====
-- The running server (src/database-server/server.cc, `do_accept` and `main`): its sessions, in the order
-- in which they were accepted, over one data access. The event loop of Boost calls one handler at a
-- time; which one, and with what result, is an action.
use daqs.Base.{
  ℕ, zero, suc, ◌≡◌, refl, Bool, true, false, String, Option, none, some, List, [], ◌∷◌, ◌++◌, ◌==◌,
  if◌then◌else◌, get_elem?,
}
use daqs.DataModel.Floats.{Double}
use daqs.DataSource.Engine.{Engine}
use daqs.DataAccess.Interface.{IDataAccess}
use daqs.Protocol.{Codec}
use daqs.Session.{Phase, Event, reading_meta, step}
use daqs.Server.{Started, throws, accepting, server}

pub record System (S : Type 0) : Type 0 where
  pub sessions : List Phase
  pub world : S

-- The completion of `async_accept`, with its error code, or of what a session waits for.
pub data Action : Type 0 where
  did_accept : Bool → Action
  completed : ℕ → Event → Action

-- The session at an index moves on.
unfoldable pub with_phase : ℕ → Phase → List Phase → List Phase
with_phase i q [] = []
with_phase zero q (p ∷ ps) = q ∷ ps
with_phase (suc i) q (p ∷ ps) = p ∷ with_phase i q ps

-- The handler in `do_accept`: a connection becomes a session, which is started.
unfoldable pub do_accept : Bool → List Phase → List Phase
do_accept false ps = ps ++ reading_meta ∷ []
do_accept true ps = ps

module _ {W S : Type 0} (c : Codec W) (da : IDataAccess W S) (ticks : ℕ) where
  abbrev pub moved : ℕ → List Phase → Option (Phase × S) → Option (System S)
  moved i ps none = none
  moved i ps (some (p, s)) = some (record { sessions = with_phase i p ps; world = s })

  abbrev pub step_at : ℕ → Event → List Phase → S → Option Phase → Option (System S)
  step_at i ev ps s none = some (record { sessions = ps; world = s })
  step_at i ev ps s (some p) = moved i ps (step c da ticks p ev s)

  -- One action. A completion for a session that does not exist cannot come.
  unfoldable pub react : Action → System S → Option (System S)
  unfolding do_accept
  react (did_accept ec) y = some (record y { sessions = do_accept ec y.sessions })
  react (completed i ev) y = step_at i ev y.sessions y.world (get_elem? y.sessions i)

  unfoldable pub react_all : List Action → System S → Option (System S)
  unfolding react
  react_all [] y = some y
  react_all (a ∷ acts) y = elim (react a y) [ none ↦ none | some y' ↦ react_all acts y' ]

  pub react_all-none :
      (a : Action) (acts : List Action) (y : System S)
      → react a y ≡ none
      → react_all (a ∷ acts) y ≡ none
  unfolding react_all
  react_all-none a acts y e = rw (react_all, e) refl

  pub react_all-some :
      (a : Action) (acts : List Action) (y y' : System S)
      → react a y ≡ some y'
      → react_all (a ∷ acts) y ≡ react_all acts y'
  unfolding react_all
  react_all-some a acts y y' e = rw (react_all, e) refl

-- How `main` goes on: it returns a code after a line on the error stream, or it runs the event loop.
pub data Main (S : Type 0) : Type 0 where
  returns : ℕ → String → S → Main S
  serving : S → Main S

-- The handlers of `main` for a string and for an exception: its text is written, and all of them go on
-- to `return 0`.
abbrev pub on_exception : {S : Type 0} → String → S → Main S
on_exception msg s = returns 0 msg s

module _ {W S : Type 0} ⦃d : Double W⦄ (e : Engine W S) where
  -- The `try` of `main` around the constructor of the server.
  abbrev pub caught : Option (Started × S) → Option (Main S)
  caught none = none
  caught (some (throws msg, s)) = some (on_exception msg s)
  caught (some (accepting, s)) = some (serving s)

  unfoldable pub main : ℕ → S → Option (Main S)
  unfolding server
  main argc s =
      let started = caught (server e "/tmp/sql.db" s) in
      if argc == 2 then started else some (returns 1 "Usage: async_tcp_echo_server <port>" s)
