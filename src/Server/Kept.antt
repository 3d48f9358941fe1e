-- ===== src/Server/Kept.antt =====
-- What the sessions of the server, over SQLite, may do to what is stored: it goes on as a history of the
-- variables.
use mathlib.Core.Path.{subst}
use daqs.Base.{
  ℕ, ◌≡◌, refl, ap, ◌∙◌, sym, inl, inr, true, not, ◌&&◌, ◌==◌, length, String, Option, none, some,
  List, [], ◌∷◌, Bool-cases, Option-cases, get_elem?,
}
use daqs.DataModel.Floats.{Double}
use daqs.DataSource.{TimePoint}
use daqs.DataSource.Engine.{Engine}
use daqs.DataSource.Tables.{IsInRange, always, between, select_values}
use daqs.DataSource.Sql.{IsSql}
use daqs.DataSource.Sqlite.{milliseconds}
use daqs.DataSource.Stored.{fetch_variable_values-outcome, fetch_between-outcome}
use daqs.DataSource.History.{History}
use daqs.DataSource.Grows.{Grows, Grows-refl, Grows-trans}
use daqs.DataAccess.{push_back, fetch_variable_values, fetch_variable_values_between}
use daqs.DataAccess.Added.{fetched}
use daqs.DataAccess.Interface.{AccessErr, IDataAccess}
use daqs.DataAccess.Calls.{Call, add, save, perform, as_status}
use daqs.DataAccess.Represents.{
  Represents, HasClock, Refines, source_access, same_tables, Refines-add, Refines-save,
}
use daqs.Protocol.{MessageType, Codec}
use daqs.Session.{
  Phase, Event, reading_meta, reading_header, reading_body, writing, ended, did_read, did_write,
  step, on_body, read_add_variable_request, read_save_value_request, read_get_values_request,
  read_get_variables_request,
}
use daqs.Session.Safety.{on_body_failed}
use daqs.Server.Lands.{
  Lands, Fetched, after_fetch-Fetched, status-Lands, added-Lands, saved-Lands, values-Lands,
  variables-Lands, get_values-Fetched, Allowed-Grows,
}
use daqs.Server.System.{
  System, Action, did_accept, completed, moved, react, react_all, react_all-none, react_all-some,
}

module _ {W S : Type 0} ⦃d : Double W⦄ (c : Codec W) (e : Engine W S) (sql : IsSql e)
    (max_size ticks : ℕ) (clock : HasClock e sql max_size) where
  open sql use {tables}

  abbrev da : IDataAccess W S
  da = source_access e sql max_size

  -- The database represents a history in which all of `h` is kept.
  abbrev pub Later : History W → S → Type 0
  Later h s = (h' : History W) × Grows h h' × Represents e sql max_size s h'

  now-Later : (h : History W) (s : S) → Represents e sql max_size s h → Later h s
  now-Later h s rep = (h, Grows-refl h, rep)

  in_range : (h : History W) (s : S) → Represents e sql max_size s h → IsInRange (tables s).values
  in_range h s rep = subst (λ t. IsInRange t.values) (sym rep.there) rep.bounded

  values-Later :
      (h : History W) (name : String) (max_len : ℕ) (s : S)
      → Represents e sql max_size s h
      → Fetched (Later h) (da.fetch_variable_values name max_len s)
  unfolding fetch_variable_values
  values-Later h name max_len s rep =
      let (s', run, same) =
        fetch_variable_values-outcome e sql name push_back [] s (in_range h s rep) in
      rw run (
        after_fetch-Fetched (Later h) max_size max_len (select_values name always (tables s)) _ s'
          (now-Later h s' (same_tables e sql max_size s s' h same rep)))

  between-Later :
      (h : History W) (name : String) (start end : TimePoint) (max_len : ℕ) (s : S)
      → Represents e sql max_size s h
      → Fetched (Later h) (da.fetch_variable_values_between name start end max_len s)
  unfolding fetch_variable_values_between
  between-Later h name start end max_len s rep =
      let (s', run, same) =
        fetch_between-outcome e sql name start end push_back [] s (in_range h s rep) in
      rw run (
        after_fetch-Fetched (Later h) max_size max_len
          (select_values name (between (milliseconds e start) (milliseconds e end)) (tables s)) _ s'
          (now-Later h s' (same_tables e sql max_size s s' h same rep)))

  -- What a call may do to the database.
  refined-Later :
      (h : History W) (call : Call W) (s : S) (o : Option (AccessErr × S))
      → perform da call s ≡ as_status da o
      → Refines e sql max_size h call s
      → Lands (Later h) o
  refined-Later h call s o by (r, s', h', done, allowed, rep) =
      status-Lands (Later h) da o r s' (sym by ∙ done) (h', Allowed-Grows h h' call r allowed, rep)

  -- The handler of a body leaves a database that goes on.
  on_body-Later :
      (h : History W) (t : MessageType) (bytes : List ℕ) (s : S)
      → Represents e sql max_size s h
      → Lands (Later h) (on_body c da ticks t true bytes s)
  unfolding on_body read_add_variable_request read_save_value_request read_get_values_request
      read_get_variables_request perform
  on_body-Later h MessageType.request_add_var bytes s rep =
      added-Lands (Later h) da c ticks _
        (refined-Later h (add _) s _ refl (Refines-add e sql max_size h _ s rep))
  on_body-Later h MessageType.request_save_value bytes s rep =
      saved-Lands (Later h) da c ticks _
        (refined-Later h (save _) s _ refl (Refines-save e sql max_size h _ s clock rep))
  on_body-Later h MessageType.request_get_values bytes s rep = values-Lands (Later h) da c ticks _ (
      get_values-Fetched (Later h) da c ticks (c.get_values.parse bytes) s
        (λ name max_len. values-Later h name max_len s rep)
        (λ name start end max_len. between-Later h name start end max_len s rep))
  on_body-Later h MessageType.request_get_variables bytes s rep =
      let (s', run, same) = fetched e sql rep.vs s (ap (λ t. t.variables) rep.there) in
      variables-Lands (Later h) da c ticks _ (
        subst (Fetched (Later h)) (sym run)
          (now-Later h s' (same_tables e sql max_size s s' h same rep)))
  on_body-Later h MessageType.response_failure bytes s rep = now-Later h s rep
  on_body-Later h MessageType.response_values bytes s rep = now-Later h s rep
  on_body-Later h MessageType.response_variables bytes s rep = now-Later h s rep

  step-Later :
      (h : History W) (p : Phase) (ev : Event) (s : S)
      → Represents e sql max_size s h
      → Lands (Later h) (step c da ticks p ev s)
  unfolding step
  step-Later h reading_meta (did_read ec bytes) s rep = now-Later h s rep
  step-Later h (reading_header n) (did_read ec bytes) s rep = now-Later h s rep
  step-Later h (reading_body t n) (did_read ec bytes) s rep =
      elim (Bool-cases (not ec && length bytes == n)) [
        | inl whole ↦ rw whole (on_body-Later h t bytes s rep)
        | inr part ↦ rw (part, on_body_failed c da ticks t bytes s) (now-Later h s rep)
      ]
  step-Later h (writing f) (did_write ec n) s rep = now-Later h s rep
  step-Later h reading_meta (did_write ec n) s rep = now-Later h s rep
  step-Later h (reading_header m) (did_write ec n) s rep = now-Later h s rep
  step-Later h (reading_body t m) (did_write ec n) s rep = now-Later h s rep
  step-Later h (writing f) (did_read ec bytes) s rep = now-Later h s rep
  step-Later h ended (did_read ec bytes) s rep = now-Later h s rep
  step-Later h ended (did_write ec n) s rep = now-Later h s rep

  abbrev pub GoesOn : History W → Option (System S) → Type 0
  GoesOn h none = Unit
  GoesOn h (some y) = Later h y.world

  moved-Later :
      (h : History W) (i : ℕ) (ps : List Phase) (r : Option (Phase × S))
      → Lands (Later h) r
      → GoesOn h (moved c da ticks i ps r)
  moved-Later h i ps none l = tt
  moved-Later h i ps (some (p, s)) l = l

  react-Later :
      (h : History W) (a : Action) (y : System S)
      → Represents e sql max_size y.world h
      → GoesOn h (react c da ticks a y)
  unfolding react
  react-Later h (did_accept ec) y rep = now-Later h y.world rep
  react-Later h (completed i ev) y rep = elim (Option-cases (get_elem? y.sessions i)) [
    | inl out ↦ rw out (now-Later h y.world rep)
    | inr (p, here) ↦ rw here (moved-Later h i y.sessions _ (step-Later h p ev y.world rep))
  ]

  later-Goes_on : (h h' : History W) (r : Option (System S)) → Grows h h' → GoesOn h' r → GoesOn h r
  later-Goes_on h h' none g l = tt
  later-Goes_on h h' (some y) g (h'', g', rep) = (h'', Grows-trans h h' h'' g g', rep)

  -- On a server over a database that represents a history, whatever its sessions receive and however
  -- they interleave, nothing of that history is lost or changed: if the actions have a defined result,
  -- the database represents a history that has the same variables in the same places and all their
  -- values in their order, and at most further variables and values behind them. Time is not before
  -- the epoch and fits.
  pub react_all-Grows :
      (h : History W) (acts : List Action) (y : System S)
      → Represents e sql max_size y.world h
      → GoesOn h (react_all c da ticks acts y)
  unfolding react_all
  react_all-Grows h [] y rep = now-Later h y.world rep
  react_all-Grows h (a ∷ acts) y rep =
      let next = react-Later h a y rep in
      elim (Option-cases (react c da ticks a y)) [
        | inl u ↦ subst (GoesOn h) (sym (react_all-none c da ticks a acts y u)) tt
        | inr (y', u) ↦
            let (h', g, rep') : GoesOn h (some y') = subst (GoesOn h) u next in
            subst (GoesOn h) (sym (react_all-some c da ticks a acts y y' u))
              (later-Goes_on h h' _ g (react_all-Grows h' acts y' rep'))
      ]
