-- ===== src/Server/Loop.antt =====
-- The event loop in `main` (src/database-server/server.cc) when memory is limited: the sizes of the
-- buffers for a header and a body are the ones that the peer announced (src/database-server/session.cc).
-- A failed `new` throws out of the handler, through `io_context.run()`, and ends `main`.
use daqs.Base.{
  ℕ, ◌<◌, ◌≡◌, refl, sym, ap, ◌∙◌, inl, inr, arith, true, false, String, Option, none, some, List,
  [], ◌∷◌, ◌++◌, leb, if◌then◌else◌, length, get_elem?, ==_refl, Bool-cases, Option-cases,
}
use daqs.DataAccess.Interface.{IDataAccess}
use daqs.Protocol.{Codec}
use daqs.Session.{Phase, reading_meta, reading_header, did_read, mh_size, on_meta, step}
use daqs.Session.Announced.{announced}
use daqs.Server.System.{
  System, Action, did_accept, completed, with_phase, react, Main, returns, on_exception,
}
use daqs.Server.Replies.{get_elem?-with_phase_same}

-- The loop goes on, or an exception has left it and the sessions are gone: what `main` does then.
pub data Loop (S : Type 0) : Type 0 where
  runs : System S → Loop S
  ended : Main S → Loop S

abbrev pub asked_of_memory : Action → List Phase → ℕ
asked_of_memory (did_accept ec) ps = 0
asked_of_memory (completed i ev) ps = elim (get_elem? ps i) [ none ↦ 0 | some p ↦ announced p ]

-- `what` is the text of the exception that a `new` of so many bytes throws.
module _ {W S : Type 0} (c : Codec W) (da : IDataAccess W S) (ticks max_alloc : ℕ)
    (what : ℕ → String) where
  -- A handler's exception is caught by `main`, as one of the constructor is.
  unfoldable pub run_loop : List Action → System S → Option (Loop S)
  run_loop [] y = some (runs y)
  run_loop (a ∷ acts) y = elim (react c da ticks a y) [
    | none ↦ none
    | some y' ↦
        let rest = run_loop acts y' in
        let size = asked_of_memory a y'.sessions in
        if leb size max_alloc then rest else some (ended (on_exception (what size) y'.world))
  ]

  pub loop-none :
      (a : Action) (acts : List Action) (y : System S)
      → react c da ticks a y ≡ none
      → run_loop (a ∷ acts) y ≡ none
  unfolding run_loop
  loop-none a acts y e = rw (run_loop, e) refl

  pub loop-fits :
      (a : Action) (acts : List Action) (y y' : System S)
      → react c da ticks a y ≡ some y'
      → leb (asked_of_memory a y'.sessions) max_alloc ≡ true
      → run_loop (a ∷ acts) y ≡ run_loop acts y'
  unfolding run_loop
  loop-fits a acts y y' e fits = rw (run_loop, e, fits) refl

  pub loop-exits :
      (a : Action) (acts : List Action) (y y' : System S)
      → react c da ticks a y ≡ some y'
      → leb (asked_of_memory a y'.sessions) max_alloc ≡ false
      → run_loop (a ∷ acts) y
        ≡ some (ended (on_exception (what (asked_of_memory a y'.sessions)) y'.world))
  unfolding run_loop
  loop-exits a acts y y' e over = rw (run_loop, e, over) refl

  loop-append :
      (acts more : List Action) (y y' : System S)
      → run_loop acts y ≡ some (runs y')
      → run_loop (acts ++ more) y ≡ run_loop more y'
  unfolding run_loop
  loop-append [] more y y' e = let same : y ≡ y' = cc in ap (run_loop more) same
  loop-append (a ∷ acts) more y y' e = elim (Option-cases (react c da ticks a y)) [
    | inl u ↦ let none_is : none ≡ some (runs y') = sym (loop-none a acts y u) ∙ e in cc
    | inr (y1, u) ↦ elim (Bool-cases (leb (asked_of_memory a y1.sessions) max_alloc)) [
      | inl fits ↦
          loop-fits a (acts ++ more) y y1 u fits
          ∙ loop-append acts more y1 y' (sym (loop-fits a acts y y1 u fits) ∙ e)
      | inr over ↦
          let exits_is : some (ended (on_exception (what (asked_of_memory a y1.sessions)) y1.world))
              ≡ some (runs y') =
            sym (loop-exits a acts y y1 u over) ∙ e in
          cc
    ]
  ]

  meta_read :
      (mh_buff : List ℕ) (s : S)
      → length mh_buff ≡ mh_size c
      → step c da ticks reading_meta (did_read false mh_buff) s
        ≡ some (reading_header (c.meta.parse mh_buff), s)
  unfolding step on_meta
  meta_read mh_buff s whole = rw (whole, ==_refl (mh_size c)) refl

  -- One MetaHeader stops the server. As long as the loop runs, a session that waits for one may be
  -- sent the announcement of a header larger than memory allows: then `main` writes the text of the
  -- exception and returns 0, whatever the other sessions do, and no action behind it is done.
  pub announced_stops :
      (before behind : List Action) (i : ℕ) (mh_buff : List ℕ) (y y' : System S)
      → run_loop before y ≡ some (runs y')
      → get_elem? y'.sessions i ≡ some reading_meta
      → length mh_buff ≡ mh_size c
      → max_alloc < c.meta.parse mh_buff
      → run_loop (before ++ completed i (did_read false mh_buff) ∷ behind) y
        ≡ some (ended (returns 0 (what (c.meta.parse mh_buff)) y'.world))
  unfolding react
  announced_stops before behind i mh_buff y y' run here whole over =
      let read = completed i (did_read false mh_buff) in
      let p = reading_header (c.meta.parse mh_buff) in
      let next : System S = record { sessions = with_phase i p y'.sessions; world = y'.world } in
      let moves : react c da ticks read y' ≡ some next =
        rw (here, meta_read mh_buff y'.world whole) refl in
      let asks : asked_of_memory read next.sessions ≡ c.meta.parse mh_buff =
        rw (asked_of_memory, get_elem?-with_phase_same i reading_meta p y'.sessions here) refl in
      let too_much : leb (c.meta.parse mh_buff) max_alloc ≡ false = ground arith in
      loop-append before (read ∷ behind) y y' run
      ∙ (loop-exits read behind y' next moves (ap (λ n. leb n max_alloc) asks ∙ too_much)
          ∙ ap (λ n. some (ended (returns 0 (what n) y'.world))) asks)
