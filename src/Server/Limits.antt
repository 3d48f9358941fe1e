-- ===== src/Server/Limits.antt =====
-- The sizes that the peers of the sessions announce (src/database-server/session.cc), against the loop in
-- `main` (src/database-server/server.cc) when memory is limited.
use native.Mathlib.Decide.{dec_le}
use mathlib.Core.Path.{subst}
use daqs.Base.{
  ℕ, zero, suc, ◌≤◌, ◌<◌, ◌≡◌, refl, sym, ap, ◌∙◌, ◌⊎◌, inl, inr, arith, true, false, String,
  Option, none, some, List, [], ◌∷◌, ◌++◌, leb, get_elem?, All, All-append, Option-cases,
}
use daqs.DataAccess.Interface.{IDataAccess}
use daqs.Protocol.{Codec}
use daqs.Session.{Phase, Event, step}
use daqs.Session.Announced.{announced, told, Makes, step-Makes}
use daqs.Server.System.{
  System, Action, did_accept, completed, with_phase, do_accept, react, react_all, react_all-some,
  react_all-none, returns,
}
use daqs.Server.Serial.{AllSound, get_elem?-IsSound}
use daqs.Server.Replies.{get_elem?-with_phase_same, react-AllSound}
use daqs.Server.Loop.{asked_of_memory, run_loop, loop-none, loop-fits, loop-exits, runs, Loop}
use daqs.Server.Loop as Loops

module _ {W : Type 0} (c : Codec W) where
  abbrev pub told_at : {S : Type 0} → Action → System S → ℕ
  told_at (did_accept ec) y = 0
  told_at (completed i ev) y = elim (get_elem? y.sessions i) [ none ↦ 0 | some p ↦ told c p ev ]

module _ {W S : Type 0} (c : Codec W) (da : IDataAccess W S) (ticks max_alloc : ℕ) where
  abbrev pub AllWithin : List Phase → Type 0
  AllWithin ps = All (λ p. announced p ≤ max_alloc) ps

  with_phase-AllWithin :
      (i : ℕ) (q : Phase) (ps : List Phase)
      → announced q ≤ max_alloc
      → AllWithin ps
      → AllWithin (with_phase i q ps)
  unfolding with_phase
  with_phase-AllWithin i q [] h hs = tt
  with_phase-AllWithin zero q (p ∷ ps) h (_, hs) = (h, hs)
  with_phase-AllWithin (suc i) q (p ∷ ps) h (h', hs) = (h', with_phase-AllWithin i q ps h hs)

  get_elem?-within :
      (i : ℕ) (p : Phase) (ps : List Phase)
      → AllWithin ps
      → get_elem? ps i ≡ some p
      → announced p ≤ max_alloc
  get_elem?-within i p [] hs e = cc
  get_elem?-within zero p (q ∷ ps) (h, hs) e =
      let same : announced q ≡ announced p =
        ap (λ o. elim o [ none ↦ 0 | some x ↦ announced x ]) e in
      omega arith
  get_elem?-within (suc i) p (q ∷ ps) (h, hs) e = get_elem?-within i p ps hs e

  -- An action asks for no more memory than there is, or it asks for what the peer announced.
  abbrev Asks : Action → System S → Option (System S) → Type 0
  Asks a y none = told_at c a y ≤ max_alloc
  Asks a y (some y') =
      ((told_at c a y ≤ max_alloc)
        × (asked_of_memory a y'.sessions ≤ max_alloc)
        × AllWithin y'.sessions)
      ⊎ ((max_alloc < told_at c a y)
          × (asked_of_memory a y'.sessions ≡ told_at c a y)
          × (y'.world ≡ y.world))

  told_here :
      (i : ℕ) (ev : Event) (p : Phase) (y : System S)
      → get_elem? y.sessions i ≡ some p
      → told_at c (completed i ev) y ≡ told c p ev
  told_here i ev p y here = ap (λ o. elim o [ none ↦ 0 | some q ↦ told c q ev ]) here

  asked_there :
      (i : ℕ) (ev : Event) (p q : Phase) (ps : List Phase)
      → get_elem? ps i ≡ some p
      → asked_of_memory (completed i ev) (with_phase i q ps) ≡ announced q
  asked_there i ev p q ps here =
      ap (λ o. elim o [ none ↦ 0 | some r ↦ announced r ]) (get_elem?-with_phase_same i p q ps here)

  nobody_there :
      (i : ℕ) (ev : Event) (y : System S)
      → get_elem? y.sessions i ≡ none
      → (told_at c (completed i ev) y ≡ 0) × (asked_of_memory (completed i ev) y.sessions ≡ 0)
  nobody_there i ev y out = (
    ap (λ o. elim o [ none ↦ 0 | some q ↦ told c q ev ]) out,
    ap (λ o. elim o [ none ↦ 0 | some q ↦ announced q ]) out,
  )

  step-Asks :
      (i : ℕ) (ev : Event) (p : Phase) (y : System S) (o : Option (Phase × S))
      → get_elem? y.sessions i ≡ some p
      → AllWithin y.sessions
      → step c da ticks p ev y.world ≡ o
      → Makes c da ticks p ev y.world o
      → Asks (completed i ev) y (react c da ticks (completed i ev) y)
  unfolding react
  step-Asks i ev p y none here within run made =
      let told_is = told_here i ev p y here in rw (here, run) (omega arith)
  step-Asks i ev p y (some (p', s')) here within run (inl (is, same)) =
      let told_is = told_here i ev p y here in
      let asked_is = asked_there i ev p p' y.sessions here in
      elim (dec_le (told c p ev) max_alloc) [
        | yes fits ↦
            rw (here, run)
              (inl (
                omega arith,
                omega arith,
                with_phase-AllWithin i p' y.sessions (omega arith) within,
              ))
        | no over ↦ rw (here, run) (inr (omega arith, asked_is ∙ (is ∙ sym told_is), same))
      ]
  step-Asks i ev p y (some (p', s')) here within run (inr (silent, less)) =
      let told_is = told_here i ev p y here in
      let asked_is = asked_there i ev p p' y.sessions here in
      let before = get_elem?-within i p y.sessions within here in
      rw (here, run)
        (inl (omega arith, omega arith, with_phase-AllWithin i p' y.sessions (omega arith) within))

  react-Asks :
      (a : Action) (y : System S)
      → AllSound y.sessions
      → AllWithin y.sessions
      → Asks a y (react c da ticks a y)
  unfolding react do_accept
  react-Asks (did_accept true) y sound within = inl (omega arith, omega arith, within)
  react-Asks (did_accept false) y sound within =
      inl (omega arith, omega arith, All-append _ y.sessions _ within (omega arith, tt))
  react-Asks (completed i ev) y sound within = elim (Option-cases (get_elem? y.sessions i)) [
    | inl out ↦
        let (untold, unasked) = nobody_there i ev y out in
        rw out (inl (omega arith, omega arith, within))
    | inr (p, here) ↦
        step-Asks i ev p y _ here within refl
          (step-Makes c da ticks p ev y.world (get_elem?-IsSound i p y.sessions sound here))
  ]

  abbrev pub AfterIt : Option (System S) → (System S → Type 0) → Type 0
  AfterIt none P = Unit
  AfterIt (some y) P = P y

  -- No session is told a size above the limit.
  abbrev pub AllSmall : List Action → System S → Type 0
  AllSmall [] y = Unit
  AllSmall (a ∷ acts) y =
      (told_at c a y ≤ max_alloc) × AfterIt (react c da ticks a y) (λ y'. AllSmall acts y')

  module _ (what : ℕ → String) where
    abbrev run_limited : List Action → System S → Option (Loop S)
    run_limited = run_loop c da ticks max_alloc what

    -- Nothing was too large, and the loop does what it does without the limit.
    abbrev pub ServesOn : List Action → System S → Type 0
    ServesOn acts y =
        AllSmall acts y
        × (run_limited acts y
            ≡ elim (react_all c da ticks acts y) [ none ↦ none | some y' ↦ some (runs y') ])

    -- The first size that is too large ends it, on what the actions before have stored.
    abbrev pub Stops : List Action → System S → Type 0
    Stops acts y =
        (before behind : List Action) × (a : Action) × (y' : System S) × (acts
          ≡ before ++ a ∷ behind)
        × AllSmall before y
        × (react_all c da ticks before y ≡ some y')
        × (max_alloc < told_at c a y')
        × (run_limited acts y ≡ some (Loops.ended (returns 0 (what (told_at c a y')) y'.world)))

    Stops-later :
        (a : Action) (acts : List Action) (y y' : System S)
        → react c da ticks a y ≡ some y'
        → told_at c a y ≤ max_alloc
        → run_limited (a ∷ acts) y ≡ run_limited acts y'
        → Stops acts y'
        → Stops (a ∷ acts) y
    Stops-later a acts y y' e fits same (before, behind, b, y'', split, small, run, over, ends) = (
      a ∷ before,
      behind,
      b,
      y'',
      ap (λ xs. a ∷ xs) split,
      (fits, subst (λ o. AfterIt o (λ z. AllSmall before z)) (sym e) small),
      react_all-some c da ticks a before y y' e ∙ run,
      over,
      same ∙ ends,
    )

    Stops-now :
        (a : Action) (acts : List Action) (y y' : System S)
        → react c da ticks a y ≡ some y'
        → max_alloc < told_at c a y
        → asked_of_memory a y'.sessions ≡ told_at c a y
        → y'.world ≡ y.world
        → Stops (a ∷ acts) y
    unfolding react_all
    Stops-now a acts y y' e over asks same =
        let too_much : leb (asked_of_memory a y'.sessions) max_alloc ≡ false = ground arith in
        (
          [],
          acts,
          a,
          y,
          refl,
          tt,
          refl,
          over,
          loop-exits c da ticks max_alloc what a acts y y' e too_much
              ∙ (ap (λ n. some (Loops.ended (returns 0 (what n) y'.world))) asks
                  ∙ ap (λ s. some (Loops.ended (returns 0 (what (told_at c a y)) s))) same),
        )

    -- With a limited memory the server does one of two things, if no session that it starts from
    -- waits for the body of anything but a request or for more bytes than the limit. Either no peer
    -- announces a size above the limit, by the bytes it sends, for a header or for the body of a
    -- request, and the server does what it does without the limit. Or some peer does, and the first
    -- such announcement ends the server for all sessions: `main` writes the text of the exception that
    -- a `new` of this size throws, and returns 0 on what the actions before it have stored; it and the
    -- actions behind it are not done.
    pub run_loop-outcome :
        (acts : List Action) (y : System S)
        → AllSound y.sessions
        → AllWithin y.sessions
        → ServesOn acts y ⊎ Stops acts y
    unfolding run_loop react_all
    run_loop-outcome [] y sound within = inl (tt, refl)
    run_loop-outcome (a ∷ acts) y sound within =
        let asks = react-Asks a y sound within in
        elim (Option-cases (react c da ticks a y)) [
          | inl u ↦ inl (
            (subst (Asks a y) u asks, subst (λ o. AfterIt o (λ z. AllSmall acts z)) (sym u) tt),
            loop-none c da ticks max_alloc what a acts y u
                ∙ ap (λ o. elim o [ none ↦ none | some y' ↦ some (runs y') ])
                    (sym (react_all-none c da ticks a acts y u)),
          )
          | inr (y', u) ↦ elim (subst (Asks a y) u asks) [
            | inl (fits, few, within') ↦
                let room : leb (asked_of_memory a y'.sessions) max_alloc ≡ true = ground arith in
                let same = loop-fits c da ticks max_alloc what a acts y y' u room in
                elim (run_loop-outcome acts y' (react-AllSound c da ticks a y y' sound u) within') [
                  | inl (small, on) ↦ inl (
                    (fits, subst (λ o. AfterIt o (λ z. AllSmall acts z)) (sym u) small),
                    same
                        ∙ (on
                            ∙ ap (λ o. elim o [ none ↦ none | some z ↦ some (runs z) ])
                                (sym (react_all-some c da ticks a acts y y' u))),
                  )
                  | inr stops ↦ inr (Stops-later a acts y y' u fits same stops)
                ]
            | inr (over, asked, same) ↦ inr (Stops-now a acts y y' u over asked same)
          ]
        ]
